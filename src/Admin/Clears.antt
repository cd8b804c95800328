-- ===== src/Admin/Clears.antt =====
-- What the endpoints /full-reset and /purge of src/cacher_admin.c leave below the root.
use apache_cacher.Prelude.{
  true, false, ◌&&◌, ◌||◌, List, [], ◌∷◌, Option, none, some, some_inj, Bytes, codes, str_eq, All,
  get_or, ◌≡◌, refl, sym, ◌∙◌, ap, inl, inr, Bool-cases, subst, map, ◌++◌, ◌⊎◌, arith,
}
use apache_cacher.Prelude.Int.{ℤ}
use apache_cacher.Apr.{Strtok, Decimal}
use apache_cacher.Request.{RequestRec}
use apache_cacher.Ctype.{to_lower}
use apache_cacher.Glob.{glob, glob_match}
use apache_cacher.Rules.First.{SameLetters}
use apache_cacher.Util.{streq_ci}
use apache_cacher.Util.Header.{streq_ci_iff}
use apache_cacher.Cache.Meta.{CacherEntryMeta, read_meta}
use apache_cacher.Cache.FileSystem.{FileSystem}
use apache_cacher.Admin.{
  AdminCtx, blank_ctx, body_path_of, pattern_passes, counted, delete_entry, visit_meta, visit_entry,
  reset_entries, purge,
}
use apache_cacher.Admin.Scope.{Shrinks, Shrinks-remove}
use apache_cacher.Admin.Reached.{Walks, headers_in-Walks}
use apache_cacher.Admin.Walk.{headers_in, visit_all, walk_cache_all}

-- A disk on which files that are there can be read, and can be removed.
pub record Writable (fs : FileSystem) : Type 0 where
  pub reads : (d : fs.Disk) (p s : Bytes) → fs.content d p ≡ some s → fs.file_read d p ≡ some s
  pub removes : (d : fs.Disk) (p : Bytes) → fs.content (fs.remove d p) p ≡ none

-- Without a pattern any entry is chosen; a pattern chooses those whose URL, or host and URL, it
-- matches as a glob.
abbrev pub Chosen : Option Bytes → CacherEntryMeta → Type 0
Chosen none meta = Unit
Chosen (some g) meta =
    (glob g meta.url false ≡ true) ⊎ (glob g (meta.host ++ meta.url) false ≡ true)

Chosen-pattern_passes :
    (pattern : Option Bytes) (meta : CacherEntryMeta)
    → Chosen pattern meta
    → pattern_passes pattern meta ≡ true
unfolding pattern_passes glob_match
Chosen-pattern_passes none meta c = refl
Chosen-pattern_passes (some g) meta (inl e) = rw e refl
Chosen-pattern_passes (some g) meta (inr e) = ground (arith, e)

Chosen-visited :
    (pattern : Option Bytes) (meta : CacherEntryMeta) (host : Bytes)
    → SameLetters meta.host host
    → Chosen pattern meta
    → (streq_ci (some meta.host) (some host) && pattern_passes pattern meta) ≡ true
Chosen-visited pattern meta host s c =
    rw ((streq_ci_iff meta.host host).1 s) (Chosen-pattern_passes pattern meta c)

module _ (tk : Strtok) (dec : Decimal) (fs : FileSystem) (r : RequestRec) (now : ℤ)
    (writable : Writable fs) where
  open fs use {Disk, content}

  -- No entry of the requesting host that the pattern chooses has its header at `p`.
  abbrev pub Cleared : Option Bytes → Disk → Bytes → Type 0
  Cleared pattern d p =
      (s : Bytes) (meta : CacherEntryMeta) (headers_at : Bytes)
      → content d p ≡ some s
      → read_meta tk dec (some s) ≡ some (meta, headers_at)
      → SameLetters meta.host (get_or r.hostname [])
      → ¬ Chosen pattern meta

  abbrev IsShrunk : Disk → Disk → Type 0
  IsShrunk = Shrinks tk dec fs r now

  Shrinks-Cleared :
      (pattern : Option Bytes) (d d' : Disk) (p : Bytes)
      → IsShrunk d d'
      → Cleared pattern d p
      → Cleared pattern d' p
  Shrinks-Cleared pattern d d' p k c s meta headers_at at e = elim (k p) [
    | inl gone ↦ absurd (cc (gone, at))
    | inr same ↦ c s meta headers_at (sym same ∙ at) e
  ]

  -- A context that deletes the matches of a pattern.
  record Deletes (pattern : Option Bytes) (ctx : AdminCtx) : Type 0 where
    on : ctx.delete_matches ≡ true
    pattern_is : ctx.pattern ≡ pattern

  record Visited (pattern : Option Bytes) (d : Disk) (p : Bytes) (st : AdminCtx × Disk)
      : Type 0 where
    deletes : Deletes pattern st.0
    shrinks : IsShrunk d st.1
    cleared : Cleared pattern st.1 p

  delete_entry-Shrinks : (d : Disk) (p : Bytes) → IsShrunk d (delete_entry tk dec fs p d)
  unfolding delete_entry
  delete_entry-Shrinks d p =
      Shrinks-remove tk dec fs r now d _ p
        (Shrinks-remove tk dec fs r now d d (body_path_of p) (λ x. inr refl))

  delete_entry_gone : (d : Disk) (p : Bytes) → content (delete_entry tk dec fs p d) p ≡ none
  unfolding delete_entry
  delete_entry_gone d p = writable.removes (fs.remove d (body_path_of p)) p

  true-false : true ≡ false → ⊥
  true-false e = cc

  visit_meta-Visited :
      (pattern : Option Bytes) (ctx : AdminCtx) (p : Bytes) (d : Disk)
      (entry : Option (CacherEntryMeta × Bytes))
      → Deletes pattern ctx
      → read_meta tk dec (fs.file_read d p) ≡ entry
      → Visited pattern d p (visit_meta tk dec fs r now ctx p entry d)
  unfolding visit_meta counted
  visit_meta-Visited pattern ctx p d none del e = record {
    deletes = del;
    shrinks = λ x. inr refl;
    cleared = λ s meta headers_at at m _ _.
        absurd (cc (e, m, ap (read_meta tk dec) (writable.reads d p s at)));
  }
  visit_meta-Visited pattern ctx p d (some (meta, headers_at)) del e =
      elim (Bool-cases (
        streq_ci (some meta.host) (some (get_or r.hostname []))
        && pattern_passes ctx.pattern meta)) [
          | inl b ↦
              simp (b, del.on)
                (record {
                  deletes = record { on = refl; pattern_is = del.pattern_is };
                  shrinks = delete_entry-Shrinks d p;
                  cleared = λ s m h at x _ _. absurd (cc (delete_entry_gone d p, at));
                })
          | inr b ↦ rw b (record {
            deletes = del;
            shrinks = λ x. inr refl;
            cleared = λ s m h at x host chosen.
                let same =
                  some_inj _ _ (sym e ∙ ap (read_meta tk dec) (writable.reads d p s at) ∙ x) in
                absurd (
                  true-false (
                    sym (
                      Chosen-visited ctx.pattern meta (get_or r.hostname [])
                        (ap (λ y. map to_lower y.0.host) same ∙ host)
                        (subst (λ y. Chosen ctx.pattern y) (sym (ap (λ y. y.0) same))
                          (subst (λ y. Chosen y m) (sym del.pattern_is) chosen)))
                    ∙ b));
          })
        ]

  Shrinks-trans : (a b c : Disk) → IsShrunk a b → IsShrunk b c → IsShrunk a c
  Shrinks-trans a b c f g x = elim (g x) [
    | inl gone ↦ inl gone
    | inr same ↦ elim (f x) [ inl gone ↦ inl (same ∙ gone) | inr kept ↦ inr (same ∙ kept) ]
  ]

  record AllVisited (pattern : Option Bytes) (d d' : Disk) (ps : List Bytes) : Type 0 where
    shrinks : IsShrunk d d'
    cleared : All (Cleared pattern d') ps

  visit_all-AllVisited :
      (pattern : Option Bytes) (ps : List Bytes) (ctx : AdminCtx) (d : Disk)
      → Deletes pattern ctx
      → AllVisited pattern d (visit_all tk dec fs r now (ctx, d) ps).1 ps
  unfolding visit_entry
  visit_all-AllVisited pattern [] ctx d del = record { shrinks = λ x. inr refl; cleared = tt }
  visit_all-AllVisited pattern (p ∷ ps) ctx d del =
      let st = visit_meta tk dec fs r now ctx p (read_meta tk dec (fs.file_read d p)) d in
      let v = visit_meta-Visited pattern ctx p d (read_meta tk dec (fs.file_read d p)) del refl in
      let rest = visit_all-AllVisited pattern ps st.0 st.1 v.deletes in
      record {
        shrinks = Shrinks-trans d st.1 _ v.shrinks rest.shrinks;
        cleared = (Shrinks-Cleared pattern st.1 _ p rest.shrinks v.cleared, rest.cleared);
      }

  -- Where files can be read and removed, a /full-reset leaves no entry of the requesting host at
  -- any of the header files below the root: those whose name holds ".header" but not ".XXXXXX",
  -- where neither the name nor a directory on the way starts with a dot.
  pub reset_entries-Cleared :
      (root : Bytes) (d : Disk)
      → (ps : List Bytes) × Walks root (fs.tree d root) ps
        × All (Cleared none (reset_entries tk dec fs r now root d).2) ps
  unfolding reset_entries
  reset_entries-Cleared root d =
      let ctx = record blank_ctx { delete_matches = true } in
      let ps = headers_in root (fs.tree d root) in
      (
        ps,
        headers_in-Walks (fs.tree d root) root,
        subst (λ st. All (Cleared none st.1) ps) (sym (walk_cache_all tk dec fs r now ctx root d))
            (visit_all-AllVisited none ps ctx d (record { on = refl; pattern_is = refl })).cleared,
      )

  -- Where files can be read and removed, a /purge with a pattern other than "" and "/" leaves no
  -- entry of the requesting host, at any of the header files below the root (those whose name holds
  -- ".header" but not ".XXXXXX", where neither the name nor a directory on the way starts with a
  -- dot), whose URL or whose host and URL the pattern matches as a glob.
  pub purge-Cleared :
      (root pattern : Bytes) (d : Disk)
      → (str_eq pattern [] || str_eq pattern (codes "/")) ≡ false
      → (ps : List Bytes) × Walks root (fs.tree d root) ps
        × All (Cleared (some pattern) (purge tk dec fs r now root pattern d).2) ps
  unfolding purge
  purge-Cleared root pattern d e =
      let ctx = record blank_ctx { pattern = some pattern; delete_matches = true } in
      let ps = headers_in root (fs.tree d root) in
      (
        ps,
        headers_in-Walks (fs.tree d root) root,
        rw e (
            subst (λ st. All (Cleared (some pattern) st.1) ps)
              (sym (walk_cache_all tk dec fs r now ctx root d))
              (visit_all-AllVisited (some pattern) ps ctx d
                (record { on = refl; pattern_is = refl })).cleared),
      )
