-- ===== src/Admin/Walk.antt =====
-- `walk_cache` of src/cacher_admin.c as one visit after another.
use apache_cacher.Prelude.{
  List, [], ◌∷◌, ◌++◌, if◌then◌else◌, Bytes, ◌≡◌, refl, sym, ◌∙◌, ap, inl, inr, Bool-cases,
}
use apache_cacher.Prelude.Int.{ℤ}
use apache_cacher.Apr.{Strtok, Decimal}
use apache_cacher.Request.{RequestRec}
use apache_cacher.Cache.FileSystem.{FileSystem, DirTree, closed, opened, DirItems, done, file, dir}
use apache_cacher.Admin.{
  AdminCtx, is_hidden, is_entry_name, child_path, visit_entry, visit_file, walk_tree, walk_items,
  walk_cache,
}

-- the header files that a walk visits: none with a hidden name, nor below one
abbrev pub file_at : Bytes → Bytes → List Bytes
file_at parent name =
    if is_hidden name then [] else if is_entry_name name then child_path parent name ∷ [] else []

unfoldable mutual
  pub headers_in : Bytes → DirTree → List Bytes
  headers_in parent closed = []
  headers_in parent (opened items) = headers_among parent items

  pub headers_among : Bytes → DirItems → List Bytes
  headers_among parent done = []
  headers_among parent (file name items) = file_at parent name ++ headers_among parent items
  headers_among parent (dir name below items) =
      (let inside = headers_in (child_path parent name) below in
        if is_hidden name then [] else inside)
      ++ headers_among parent items

module _ (tk : Strtok) (dec : Decimal) (fs : FileSystem) (r : RequestRec) (now : ℤ) where
  open fs use {Disk}

  abbrev pub visit_all : AdminCtx × Disk → List Bytes → AdminCtx × Disk
  visit_all st [] = st
  visit_all (ctx, d) (p ∷ ps) = visit_all (visit_entry tk dec fs r now ctx p d) ps

  visit_all_append :
      (ps qs : List Bytes) (st : AdminCtx × Disk)
      → visit_all st (ps ++ qs) ≡ visit_all (visit_all st ps) qs
  visit_all_append [] qs st = refl
  visit_all_append (p ∷ ps) qs (ctx, d) = visit_all_append ps qs _

  visit_file_all :
      (st : AdminCtx × Disk) (parent name : Bytes)
      → visit_file tk dec fs r now st parent name ≡ visit_all st (file_at parent name)
  unfolding visit_file
  visit_file_all (ctx, d) parent name = elim (Bool-cases (is_hidden name)) [
    | inl e ↦ rw (e, file_at) refl
    | inr e ↦ elim (Bool-cases (is_entry_name name)) [
      | inl n ↦ rw (e, n, file_at) refl
      | inr n ↦ rw (e, n, file_at) refl
    ]
  ]

  mutual
    unfolding walk_tree headers_in

    walk_tree_all :
        (t : DirTree) (parent : Bytes) (st : AdminCtx × Disk)
        → walk_tree tk dec fs r now st parent t ≡ visit_all st (headers_in parent t)
    walk_tree_all closed parent st = refl
    walk_tree_all (opened items) parent st = walk_items_all items parent st

    walk_items_all :
        (items : DirItems) (parent : Bytes) (st : AdminCtx × Disk)
        → walk_items tk dec fs r now st parent items ≡ visit_all st (headers_among parent items)
    walk_items_all done parent st = refl
    walk_items_all (file name items) parent st =
        walk_items_all items parent (visit_file tk dec fs r now st parent name)
        ∙ ap (λ s. visit_all s (headers_among parent items)) (visit_file_all st parent name)
        ∙ sym (visit_all_append (file_at parent name) (headers_among parent items) st)
    walk_items_all (dir name below items) parent st = elim (Bool-cases (is_hidden name)) [
      | inl e ↦ rw e (walk_items_all items parent st)
      | inr e ↦
          let inside = headers_in (child_path parent name) below in
          rw e (
            walk_items_all items parent
              (walk_tree tk dec fs r now st (child_path parent name) below)
            ∙ ap (λ s. visit_all s (headers_among parent items))
                (walk_tree_all below (child_path parent name) st)
            ∙ sym (visit_all_append inside (headers_among parent items) st))
    ]

  pub walk_cache_all :
      (ctx : AdminCtx) (root : Bytes) (d : Disk)
      → walk_cache tk dec fs r now ctx root d
        ≡ visit_all (ctx, d) (headers_in root (fs.tree d root))
  unfolding walk_cache
  walk_cache_all ctx root d = walk_tree_all (fs.tree d root) root (ctx, d)
