-- ===== src/Cache/Write/Writers/Safety.antt =====
-- Requests of the filter of src/cacher_cache.c on one disk, in any order of their turns.
use apache_cacher.Prelude.{
  ℕ, ◌+◌, ◌≤◌, List, [], ◌∷◌, Option, none, some, some_inj, ◌==◌, ==_iff, ==_refl, Bytes, length,
  All, str_eq, str_eq_iff, ◌≡◌, ◌≢◌, ◌⊎◌, inl, inr, refl, sym, ◌∙◌, ap, subst, arith, Bool-cases,
}
use apache_cacher.Apr.{Decimal, Tables}
use apache_cacher.Cache.FileSystem.{FileSystem}
use apache_cacher.Cache.Write.Writers.{
  Job, Phase, waiting, with_dirs, capturing, header_open, header_written, body_moved, removing,
  finished, turn, World, claim, after, takes_turn, removed, Reach, begins, goes,
}
use apache_cacher.Cache.Write.Writers.Invariant.{
  text_of, Whole, as_before, remove-Whole, Mine, Removable, Publishing, Stands, Sane,
}
use apache_cacher.Cache.Write.Writers.Phases.{turn-Sound}

by_length : (p q : Bytes) → length p ≢ length q → p ≢ q
by_length p q n e = n (ap length e)

module _ (dec : Decimal) (tb : Tables) (fs : FileSystem) (jobs : ℕ → Job) (size : ℕ)
    (d₀ : fs.Disk) where
  open fs use {Disk, content}

  module _ (i : ℕ) (d d' : Disk) (owner owner' : Bytes → Option ℕ)
      (kept : (x : Bytes) → size + 7 ≤ length x → owner x ≡ some i → content d' x ≡ content d x)
      (owned : (x : Bytes) → owner x ≡ some i → owner' x ≡ some i) where
    Mine-kept :
        (k : ℕ) (p : Bytes)
        → Mine dec tb fs jobs size d₀ owner i k p
        → Mine dec tb fs jobs size d₀ owner' i k p
    Mine-kept k p m = record { owned = owned p m.owned; long = m.long }

    file_kept :
        (k : ℕ) (p : Bytes)
        → 7 ≤ k
        → Mine dec tb fs jobs size d₀ owner i k p
        → content d' p ≡ content d p
    file_kept k p ge m = kept p (omega (arith, m.long)) m.owned

    Removable-kept :
        (ps : List Bytes)
        → All (Removable dec tb fs jobs size d₀ owner i) ps
        → All (Removable dec tb fs jobs size d₀ owner' i) ps
    Removable-kept [] r = tt
    Removable-kept (p ∷ ps) (inl m, rs) = (inl (Mine-kept 7 p m), Removable-kept ps rs)
    Removable-kept (p ∷ ps) (inr (inl m), rs) = (inr (inl (Mine-kept 9 p m)), Removable-kept ps rs)
    Removable-kept (p ∷ ps) (inr (inr e), rs) = (inr (inr e), Removable-kept ps rs)

    Publishing-kept :
        (tmp header text : Bytes)
        → Publishing dec tb fs jobs size d₀ d owner i tmp header text
        → Publishing dec tb fs jobs size d₀ d' owner' i tmp header text
    Publishing-kept tmp header text s = record {
      mine = Mine-kept 7 tmp s.mine;
      there = file_kept 7 tmp (omega arith) s.mine ∙ s.there;
      complete = s.complete;
      header_mine = Mine-kept 9 header s.header_mine;
      header_there = file_kept 9 header (omega arith) s.header_mine ∙ s.header_there;
    }

    -- What others do leaves a request where it stands.
    Stands-kept :
        (p : Phase)
        → Stands dec tb fs jobs size d₀ d owner i p
        → Stands dec tb fs jobs size d₀ d' owner' i p
    Stands-kept waiting s = tt
    Stands-kept with_dirs s = tt
    Stands-kept (capturing tmp len left) s = record {
      acc = s.acc;
      mine = Mine-kept 7 tmp s.mine;
      there = file_kept 7 tmp (omega arith) s.mine ∙ s.there;
      counted = s.counted;
      rest = s.rest;
      reads_rest = s.reads_rest;
    }
    Stands-kept (header_open tmp header) s = Publishing-kept tmp header [] s
    Stands-kept (header_written tmp header) s =
        Publishing-kept tmp header (text_of dec tb fs jobs size d₀ i) s
    Stands-kept (body_moved tmp header) s = record {
      mine = Mine-kept 7 tmp s.mine;
      complete = s.complete;
      header_mine = Mine-kept 9 header s.header_mine;
      header_there = file_kept 9 header (omega arith) s.header_mine ∙ s.header_there;
    }
    Stands-kept (removing ps) s = Removable-kept ps s
    Stands-kept finished s = tt

  claim_other :
      (owner : Bytes → Option ℕ) (i j : ℕ) (made : Option Bytes) (x : Bytes)
      → ((t : Bytes) → made ≡ some t → owner t ≡ none)
      → owner x ≡ some j
      → claim dec tb fs owner i made x ≡ some j
  claim_other owner i j none x fresh o = o
  claim_other owner i j (some t) x fresh o = elim (Bool-cases (str_eq x t)) [
    | inl e ↦ absurd (cc (fresh t refl, o, (str_eq_iff x t).0 e))
    | inr e ↦ rw e o
  ]

  module _ (header_long : (i : ℕ) → length (jobs i).header_path ≡ size + 2)
      (body_long : (i : ℕ) → length (jobs i).body_path ≡ size) where
    abbrev IsSane : World dec tb fs → Type 0
    IsSane = Sane dec tb fs jobs size d₀

    takes_turn-Sane :
        (w : World dec tb fs) (i : ℕ)
        → ((t : Bytes)
            → (turn dec tb fs (jobs i) (w.phases i) w.disk).made ≡ some t
            → w.owner t ≡ none)
        → IsSane w
        → IsSane (after dec tb fs (jobs i) i w)
    takes_turn-Sane w i fresh s =
        let t = turn dec tb fs (jobs i) (w.phases i) w.disk in
        let sound =
          turn-Sound dec tb fs jobs size d₀ w.owner i (header_long i) (body_long i) (w.phases i)
            w.disk (s.requests i) in
        record {
          entries = λ x small. sound.entries x small (s.entries x small);
          requests = λ j. elim (Bool-cases (j == i)) [
            | inl e ↦ simp e (
                subst
                  (λ k.
                    Stands dec tb fs jobs size d₀ t.disk (claim dec tb fs w.owner i t.made) k
                      t.phase)
                  (sym ((==_iff j i).0 e)) sound.stands)
            | inr e ↦ simp e (
                Stands-kept j w.disk t.disk w.owner (claim dec tb fs w.owner i t.made)
                  (λ x large o.
                    sound.others x large (λ h. cc (e, ==_refl j, some_inj _ _ (sym o ∙ h)))
                      (λ h. cc (fresh x h, o)))
                  (λ x o. claim_other w.owner i j t.made x fresh o) (w.phases j) (s.requests j))
          ];
        }

    removed-Sane :
        (w : World dec tb fs) (p : Bytes)
        → (length p ≡ size) ⊎ (length p ≡ size + 2)
        → IsSane w
        → IsSane (record w { disk = fs.remove w.disk p })
    removed-Sane w p l s = record {
      entries = λ x small. remove-Whole dec tb fs jobs size d₀ w.disk p x (s.entries x small);
      requests = λ j.
          Stands-kept j w.disk (fs.remove w.disk p) w.owner w.owner
            (λ x large o. fs.remove_other w.disk p x (apart x large l)) (λ x o. o) (w.phases j)
            (s.requests j);
    }
      where
        apart :
            (x : Bytes) → size + 7 ≤ length x → (length p ≡ size) ⊎ (length p ≡ size + 2) → x ≢ p
        apart x large (inl e) = by_length _ _ (omega arith)
        apart x large (inr e) = by_length _ _ (omega arith)

    Reach-Sane_all : {w : World dec tb fs} → Reach dec tb fs jobs size d₀ w → IsSane w
    Reach-Sane_all begins = record { entries = λ x small. as_before refl; requests = λ i. tt }
    Reach-Sane_all (goes {w = w} r (takes_turn i fresh)) =
        takes_turn-Sane w i fresh (Reach-Sane_all r)
    Reach-Sane_all (goes {w = w} r (removed p l)) = removed-Sane w p l (Reach-Sane_all r)

    -- However the turns of the requests interleave with each other and with removals of entries,
    -- and whatever calls fail: a file of an entry holds what it held at first, or nothing, or the
    -- whole header, or the whole body, of one response of that entry that was complete and of which
    -- no read of a bucket failed. Paths of bodies have one length, those of headers are two bytes
    -- longer, temporary names are made once, and no one else touches them. A bucket of no stated
    -- length that cannot be read counts as empty.
    pub Reach-Whole :
        {w : World dec tb fs} (x : Bytes)
        → Reach dec tb fs jobs size d₀ w
        → length x ≤ size + 2
        → Whole dec tb fs jobs size d₀ w.disk x
    Reach-Whole x r small = (Reach-Sane_all r).entries x small
