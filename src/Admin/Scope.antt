-- ===== src/Admin/Scope.antt =====
-- Which files the admin endpoints of src/cacher_admin.c may touch.
use apache_cacher.Prelude.{
  Bool, true, false, ◌||◌, [], Option, none, some, if◌then◌else◌, Bytes, codes, str_eq, str_eq_iff,
  strip_prefix, get_or, ◌≡◌, ◌≢◌, ◌⊎◌, inl, inr, refl, sym, ◌∙◌, ap, Bool-cases,
}
use apache_cacher.Prelude.Int.{ℤ}
use apache_cacher.Apr.{Strtok, Decimal}
use apache_cacher.Request.{RequestRec}
use apache_cacher.Rules.First.{SameLetters}
use apache_cacher.Util.{streq_ci}
use apache_cacher.Util.Header.{streq_ci_iff}
use apache_cacher.Cache.Meta.{CacherEntryMeta, read_meta}
use apache_cacher.Cache.FileSystem.{FileSystem, DirTree, closed, opened, DirItems, done, file, dir}
use apache_cacher.Admin.{
  AdminCtx, body_path_of, is_hidden, is_entry_name, child_path, pattern_passes, delete_entry,
  visit_meta, visit_entry, visit_file, walk_tree, walk_items, walk_cache, purge, purge_or_usage,
  list_entries, reset_entries, admin_handle,
}

module _ (tk : Strtok) (dec : Decimal) (fs : FileSystem) (r : RequestRec) (now : ℤ) where
  open fs use {Disk, content}

  -- Files are left alone or removed.
  abbrev pub Shrinks : Disk → Disk → Type 0
  Shrinks d d' = (p : Bytes) → (content d' p ≡ none) ⊎ (content d' p ≡ content d p)

  -- No file of `d` whose entry `x` belongs to, as header or as body, names the requesting host.
  abbrev pub Foreign : Disk → Bytes → Type 0
  Foreign d x =
      (h s : Bytes) (meta : CacherEntryMeta) (headers_at : Bytes)
      → (x ≡ h) ⊎ (x ≡ body_path_of h)
      → content d h ≡ some s
      → read_meta tk dec (some s) ≡ some (meta, headers_at)
      → ¬ SameLetters meta.host (get_or r.hostname [])

  -- From `d` to `d'` files were only removed, and `x` was not.
  record Keeps (d : Disk) (x : Bytes) (d' : Disk) : Type 0 where
    shrinks : Shrinks d d'
    kept : content d' x ≡ content d x

  pub Shrinks-remove : (d d' : Disk) (p : Bytes) → Shrinks d d' → Shrinks d (fs.remove d' p)
  Shrinks-remove d d' p h x = elim (Bool-cases (str_eq x p)) [
    | inl e ↦
        let at = (str_eq_iff x p).0 e in
        elim (fs.remove_self d' p) [
          | inl gone ↦ inl (ap (content (fs.remove d' p)) at ∙ gone)
          | inr same ↦
              shrinks_to (ap (content (fs.remove d' p)) at ∙ same ∙ ap (content d') (sym at)) (h x)
        ]
    | inr e ↦ shrinks_to (fs.remove_other d' p x (λ q. cc (e, (str_eq_iff x p).1 q))) (h x)
  ]
    where
      shrinks_to : {a b c : Option Bytes} → a ≡ b → (b ≡ none) ⊎ (b ≡ c) → (a ≡ none) ⊎ (a ≡ c)
      shrinks_to e (inl n) = inl (e ∙ n)
      shrinks_to e (inr s) = inr (e ∙ s)

  Keeps-refl : (d : Disk) (x : Bytes) → Keeps d x d
  Keeps-refl d x = record { shrinks = λ p. inr refl; kept = refl }

  Keeps-delete_entry :
      (d d' : Disk) (x header_path : Bytes)
      → Keeps d x d'
      → x ≢ header_path
      → x ≢ body_path_of header_path
      → Keeps d x (delete_entry tk dec fs header_path d')
  unfolding delete_entry
  Keeps-delete_entry d d' x header_path k n m = record {
    shrinks =
        Shrinks-remove d _ header_path (Shrinks-remove d d' (body_path_of header_path) k.shrinks);
    kept =
        fs.remove_other _ header_path x n
        ∙ fs.remove_other d' (body_path_of header_path) x m
        ∙ k.kept;
  }

  -- What was read at `h` was on the disk at the start.
  read_at_start :
      (d d' : Disk) (h s : Bytes) → Shrinks d d' → fs.file_read d' h ≡ some s → content d h ≡ some s
  read_at_start d d' h s k e = elim (k h) [
    | inl gone ↦ absurd (cc (gone, fs.file_read_content d' h s e))
    | inr same ↦ sym same ∙ fs.file_read_content d' h s e
  ]

  read_meta_null : read_meta tk dec none ≡ none
  unfolding read_meta
  read_meta_null = refl

  visit_meta-Keeps :
      (d d' : Disk) (x header_path : Bytes) (ctx : AdminCtx) (text : Option Bytes)
      (entry : Option (CacherEntryMeta × Bytes))
      → Foreign d x
      → Keeps d x d'
      → ((s : Bytes) → text ≡ some s → content d header_path ≡ some s)
      → read_meta tk dec text ≡ entry
      → Keeps d x (visit_meta tk dec fs r now ctx header_path entry d').1
  unfolding visit_meta
  visit_meta-Keeps d d' x header_path ctx text none f k at e = k
  visit_meta-Keeps d d' x header_path ctx none (some (meta, headers_at)) f k at e =
      absurd (cc read_meta_null)
  visit_meta-Keeps d d' x header_path ctx (some s) (some (meta, headers_at)) f k at e =
      elim (Bool-cases (streq_ci (some meta.host) (some (get_or r.hostname [])))) [
        | inr other ↦ rw other k
        | inl own ↦
            let same = (streq_ci_iff meta.host (get_or r.hostname [])).0 own in
            let not_it = λ (b : (x ≡ header_path) ⊎ (x ≡ body_path_of header_path)).
              f header_path s meta headers_at b (at s refl) e same in
            let deleted =
              Keeps-delete_entry d d' x header_path k (λ q. not_it (inl q)) (λ q. not_it (inr q)) in
            rw own (elim (Bool-cases (pattern_passes ctx.pattern meta)) [
              | inr p ↦ rw p k
              | inl p ↦ elim (Bool-cases ctx.delete_matches) [
                | inl t ↦ simp (p, t) deleted
                | inr t ↦ simp (p, t) k
              ]
            ])
      ]

  visit_file-Keeps :
      (d : Disk) (x parent name : Bytes) (st : AdminCtx × Disk)
      → Foreign d x
      → Keeps d x st.1
      → Keeps d x (visit_file tk dec fs r now st parent name).1
  unfolding visit_file visit_entry
  visit_file-Keeps d x parent name (ctx, d') f k = elim (Bool-cases (is_hidden name)) [
    | inl e ↦ rw e k
    | inr e ↦ elim (Bool-cases (is_entry_name name)) [
      | inr n ↦ rw (e, n) k
      | inl n ↦
          rw (e, n)
            (visit_meta-Keeps d d' x (child_path parent name) ctx
              (fs.file_read d' (child_path parent name)) _ f k
              (λ s q. read_at_start d d' (child_path parent name) s k.shrinks q) refl)
    ]
  ]

  if_Keeps :
      (d : Disk) (x : Bytes) (b : Bool) (st st' : AdminCtx × Disk)
      → Keeps d x st.1
      → Keeps d x st'.1
      → Keeps d x (if b then st else st').1
  if_Keeps d x true st st' k k' = k
  if_Keeps d x false st st' k k' = k'

  mutual
    unfolding walk_tree

    tree-Keeps :
        (t : DirTree) (d : Disk) (x parent : Bytes) (st : AdminCtx × Disk)
        → Foreign d x
        → Keeps d x st.1
        → Keeps d x (walk_tree tk dec fs r now st parent t).1
    tree-Keeps closed d x parent st f k = k
    tree-Keeps (opened items) d x parent st f k = items_keep items d x parent st f k

    items_keep :
        (items : DirItems) (d : Disk) (x parent : Bytes) (st : AdminCtx × Disk)
        → Foreign d x
        → Keeps d x st.1
        → Keeps d x (walk_items tk dec fs r now st parent items).1
    items_keep done d x parent st f k = k
    items_keep (file name items) d x parent st f k =
        items_keep items d x parent _ f (visit_file-Keeps d x parent name st f k)
    items_keep (dir name below items) d x parent st f k = items_keep items d x parent _ f (
        if_Keeps d x (is_hidden name) st _ k (tree-Keeps below d x (child_path parent name) st f k))

  walk_cache-Keeps :
      (d : Disk) (x root : Bytes) (ctx : AdminCtx)
      → Foreign d x
      → Keeps d x (walk_cache tk dec fs r now ctx root d).1
  unfolding walk_cache
  walk_cache-Keeps d x root ctx f = tree-Keeps (fs.tree d root) d x root (ctx, d) f (Keeps-refl d x)

  purge_or_usage-kept :
      (d : Disk) (x root : Bytes) (pattern : Option Bytes)
      → Foreign d x
      → content (purge_or_usage tk dec fs r now root pattern d).2 x ≡ content d x
  unfolding purge_or_usage purge
  purge_or_usage-kept d x root none f = refl
  purge_or_usage-kept d x root (some pattern) f =
      elim (Bool-cases (str_eq pattern [] || str_eq pattern (codes "/"))) [
        | inl e ↦ rw e refl
        | inr e ↦ rw e (walk_cache-Keeps d x root _ f).kept
      ]

  -- Whatever the action is, an admin request leaves every file alone that is neither the header nor
  -- the body of an entry of the requesting host.
  pub admin_handle-Foreign :
      (d : Disk) (x : Bytes) (root : Option Bytes) (action : Bytes)
      → Foreign d x
      → content (admin_handle tk dec fs r now root action d).2 x ≡ content d x
  unfolding admin_handle list_entries reset_entries
  admin_handle-Foreign d x none action f = refl
  admin_handle-Foreign d x (some root) action f =
      elim (Bool-cases (str_eq action [] || str_eq action (codes "/"))) [
        | inl e ↦ rw e refl
        | inr e ↦ elim (Bool-cases (str_eq action (codes "/list"))) [
          | inl l ↦ rw (e, l) (walk_cache-Keeps d x root _ f).kept
          | inr l ↦ elim (Bool-cases (str_eq action (codes "/full-reset"))) [
            | inl s ↦ rw (e, l, s) (walk_cache-Keeps d x root _ f).kept
            | inr s ↦
                rw (e, l, s) (purge_or_usage-kept d x root (strip_prefix (codes "/purge") action) f)
          ]
        ]
      ]
