-- ===== src/Cache/Root.antt =====
-- The creation of the cache roots when the server starts: `cacher_cache_ensure_root` of
-- src/cacher_cache.c and `cacher_post_config` of src/mod_cacher.c. A server is its configuration of
-- this module; log lines are left out.
use apache_cacher.Prelude.{
  Bool, true, false, List, [], ◌∷◌, Option, none, some, Bytes, ◌≡◌, ◌⊎◌, ◌↔◌, refl, sym, subst, ◌∙◌,
  ap, inl, inr,
}
use apache_cacher.Prelude.Int.{ℤ, pos, negsuc}
use apache_cacher.Config.{CacherSvrConf}
use apache_cacher.Cache.FileSystem.{FileSystem}

-- conf && conf->cache_root
abbrev pub root_of : Option CacherSvrConf → Option Bytes
root_of none = none
root_of (some conf) = conf.cache_root

module _ (fs : FileSystem) where
  open fs use {Disk, content}

  abbrev pub tried : ℤ → Bool × Disk → ℤ × Disk
  tried ok (true, d) = (ok, d)
  tried ok (false, d) = (negsuc 0, d)

  -- one round of the loop over the servers
  abbrev pub ensure_server : ℤ → Disk → Option Bytes → ℤ × Disk
  ensure_server ok d none = (ok, d)
  ensure_server ok d (some root) = tried ok (fs.make_dirs d root)

  unfoldable pub ensure_servers : ℤ × Disk → List (Option CacherSvrConf) → ℤ × Disk
  ensure_servers st [] = st
  ensure_servers (ok, d) (s ∷ ss) = ensure_servers (ensure_server ok d (root_of s)) ss

  -- `cacher_cache_ensure_root`
  unfoldable pub ensure_root : Disk → List (Option CacherSvrConf) → ℤ × Disk
  unfolding ensure_servers
  ensure_root d ss = ensure_servers (pos 0, d) ss

  -- `cacher_post_config`, which returns OK
  unfoldable pub post_config : Disk → List (Option CacherSvrConf) → ℤ × Disk
  unfolding ensure_root
  post_config d ss = (pos 0, (ensure_root d ss).1)

  -- the disk once a directory was tried, whatever came of it
  abbrev pub after_root : Disk → Option Bytes → Disk
  after_root d none = d
  after_root d (some root) = (fs.make_dirs d root).1

  -- the disk once the root of every server was tried
  abbrev pub all_tried : Disk → List (Option CacherSvrConf) → Disk
  all_tried d [] = d
  all_tried d (s ∷ ss) = all_tried (after_root d (root_of s)) ss

  -- Every root is there or was made, on the disk that the ones before it left.
  abbrev pub Made : Disk → Option Bytes → Type 0
  Made d none = Unit
  Made d (some root) = (fs.make_dirs d root).0 ≡ true

  abbrev pub AllMade : Disk → List (Option CacherSvrConf) → Type 0
  AllMade d [] = Unit
  AllMade d (s ∷ ss) = Made d (root_of s) × AllMade (after_root d (root_of s)) ss

  server_disk :
      (ok : ℤ) (d : Disk) (root : Option Bytes) → (ensure_server ok d root).1 ≡ after_root d root
  server_disk ok d none = refl
  server_disk ok d (some root) = by_result (fs.make_dirs d root)
    where
      by_result : (w : Bool × Disk) → (tried ok w).1 ≡ w.1
      by_result (true, d') = refl
      by_result (false, d') = refl

  servers_disk :
      (ss : List (Option CacherSvrConf)) (st : ℤ × Disk)
      → (ensure_servers st ss).1 ≡ all_tried st.1 ss
  unfolding ensure_servers
  servers_disk [] st = refl
  servers_disk (s ∷ ss) (ok, d) =
      servers_disk ss _ ∙ ap (λ w. all_tried w ss) (server_disk ok d (root_of s))

  failed_stays :
      (ss : List (Option CacherSvrConf)) (st : ℤ × Disk)
      → st.0 ≡ negsuc 0
      → (ensure_servers st ss).0 ≡ negsuc 0
  unfolding ensure_servers
  failed_stays [] st e = e
  failed_stays (s ∷ ss) (ok, d) e = failed_stays ss _ (by_root (root_of s))
    where
      by_result : (w : Bool × Disk) → (tried ok w).0 ≡ negsuc 0
      by_result (true, d') = e
      by_result (false, d') = refl

      by_root : (root : Option Bytes) → (ensure_server ok d root).0 ≡ negsuc 0
      by_root none = e
      by_root (some root) = by_result (fs.make_dirs d root)

  -- Either way the outcome of a server's round is known.
  server_cases :
      (d : Disk) (root : Option Bytes)
      → (Made d root × ((ensure_server (pos 0) d root).0 ≡ pos 0))
        ⊎ ((¬ Made d root) × ((ensure_server (pos 0) d root).0 ≡ negsuc 0))
  server_cases d none = inl (tt, refl)
  server_cases d (some root) = by_result (fs.make_dirs d root)
    where
      by_result :
          (w : Bool × Disk)
          → ((w.0 ≡ true) × ((tried (pos 0) w).0 ≡ pos 0))
            ⊎ ((¬ (w.0 ≡ true)) × ((tried (pos 0) w).0 ≡ negsuc 0))
      by_result (true, d') = inl (refl, refl)
      by_result (false, d') = inr (λ e. cc, refl)

  servers_iff :
      (ss : List (Option CacherSvrConf)) (st : ℤ × Disk)
      → st.0 ≡ pos 0
      → ((ensure_servers st ss).0 ≡ pos 0) ↔ AllMade st.1 ss
  unfolding ensure_servers
  servers_iff [] st e = (λ h. tt, λ h. e)
  servers_iff (s ∷ ss) (ok, d) e =
      let next = ensure_server (pos 0) d (root_of s) in
      subst
        (λ o. ((ensure_servers (ensure_server o d (root_of s)) ss).0 ≡ pos 0) ↔ AllMade d (s ∷ ss))
        (sym e)
        (elim (server_cases d (root_of s)) [
          | inl (made, z) ↦
              let rest =
                subst (λ w. ((ensure_servers next ss).0 ≡ pos 0) ↔ AllMade w ss)
                  (server_disk (pos 0) d (root_of s)) (servers_iff ss next z) in
              (λ h. (made, rest.0 h), λ h. rest.1 h.1)
          | inr (n, z) ↦ (λ h. absurd (cc (failed_stays ss next z, h)), λ h. absurd (n h.0))
        ])

  server_content :
      (ok : ℤ) (d : Disk) (root : Option Bytes) (x : Bytes)
      → content (ensure_server ok d root).1 x ≡ content d x
  server_content ok d none x = refl
  server_content ok d (some root) x =
      by_result (fs.make_dirs d root) (fs.make_dirs_content d root x)
    where
      by_result :
          (w : Bool × Disk) → content w.1 x ≡ content d x → content (tried ok w).1 x ≡ content d x
      by_result (true, d') e = e
      by_result (false, d') e = e

  servers_content :
      (ss : List (Option CacherSvrConf)) (st : ℤ × Disk) (x : Bytes)
      → content (ensure_servers st ss).1 x ≡ content st.1 x
  unfolding ensure_servers
  servers_content [] st x = refl
  servers_content (s ∷ ss) (ok, d) x = servers_content ss _ x ∙ server_content ok d (root_of s) x

  -- The creation of the cache roots returns 0 exactly if each of them is there or was made, on the
  -- disk that those before it left; whatever it returns, the disk afterwards is the one on which
  -- the root of every server was tried in order; and neither it nor the hook that ignores its
  -- result changes a file.
  pub ensure_root_iff :
      (d : Disk) (ss : List (Option CacherSvrConf)) (x : Bytes)
      → (((ensure_root d ss).0 ≡ pos 0) ↔ AllMade d ss)
        × ((ensure_root d ss).1 ≡ all_tried d ss)
        × (content (ensure_root d ss).1 x ≡ content d x)
        × (content (post_config d ss).1 x ≡ content d x)
  unfolding ensure_root post_config
  ensure_root_iff d ss x = (
    servers_iff ss (pos 0, d) refl,
    servers_disk ss (pos 0, d),
    servers_content ss (pos 0, d) x,
    servers_content ss (pos 0, d) x,
  )
