-- ===== src/Admin/Listing.antt =====
-- The endpoint /list of src/cacher_admin.c.
use apache_cacher.Prelude.{
  ℕ, ◌+◌, true, List, [], ◌∷◌, ◌++◌, append_assoc, append-nil, Option, none, some, if◌then◌else◌,
  Bytes, length, length-append, get_or, ◌≡◌, refl, sym, ◌∙◌, ap, inl, inr, arith, Bool-cases,
}
use apache_cacher.Prelude.Int.{ℤ, ◌-ℤ◌}
use apache_cacher.Apr.{Strtok, Decimal}
use apache_cacher.Request.{RequestRec}
use apache_cacher.Rules.First.{SameLetters}
use apache_cacher.Util.{streq_ci}
use apache_cacher.Util.Header.{streq_ci_iff}
use apache_cacher.Cache.Meta.{CacherEntryMeta, read_meta}
use apache_cacher.Cache.FileSystem.{FileSystem}
use apache_cacher.Admin.{
  Row, AdminCtx, blank_ctx, listed, http_ok, body_path_of, body_size, pattern_passes, counted,
  visit_meta, visit_entry, list_entries,
}
use apache_cacher.Admin.Reached.{Walks, headers_in-Walks}
use apache_cacher.Admin.Walk.{headers_in, visit_all, walk_cache_all}

abbrev pub total : List Row → ℕ
total [] = 0
total (row ∷ rows) = row.size + total rows

total-append : (xs ys : List Row) → total (xs ++ ys) ≡ total xs + total ys
total-append [] ys = omega arith
total-append (x ∷ xs) ys = omega (arith, total-append xs ys)

module _ (tk : Strtok) (dec : Decimal) (fs : FileSystem) (r : RequestRec) (now : ℤ) where
  open fs use {Disk}

  -- The line of a header file: one if it can be read and its entry belongs to the requesting host.
  abbrev row_of : Bytes → Disk → Option (CacherEntryMeta × Bytes) → List Row
  row_of p d none = []
  row_of p d (some (meta, headers_at)) =
      if streq_ci (some meta.host) (some (get_or r.hostname []))
      then record {
        meta = meta;
        size = get_or (fs.stat_size d (body_path_of p)) 0;
        left = meta.expires -ℤ now;
      }
        ∷ []
      else []

  abbrev rows_of : Disk → List Bytes → List Row
  rows_of d [] = []
  rows_of d (p ∷ ps) = row_of p d (read_meta tk dec (fs.file_read d p)) ++ rows_of d ps

  -- The lines of header files: none for a file that cannot be read as an entry or whose entry
  -- belongs to another host, and one for each of the requesting host, with the size of its body,
  -- or 0 where there is none, and the seconds that it has left.
  pub data Lines (d : Disk) : List Bytes → List Row → Type 0 where
    no_files : Lines d [] []
    not_readable :
        {p : Bytes} {ps : List Bytes} {rows : List Row}
        → read_meta tk dec (fs.file_read d p) ≡ none
        → Lines d ps rows
        → Lines d (p ∷ ps) rows
    other_host :
        {p : Bytes} {ps : List Bytes} {rows : List Row} {meta : CacherEntryMeta}
        {headers_at : Bytes}
        → read_meta tk dec (fs.file_read d p) ≡ some (meta, headers_at)
        → ¬ SameLetters meta.host (get_or r.hostname [])
        → Lines d ps rows
        → Lines d (p ∷ ps) rows
    own_host :
        {p : Bytes} {ps : List Bytes} {rows : List Row} {meta : CacherEntryMeta}
        {headers_at : Bytes}
        → read_meta tk dec (fs.file_read d p) ≡ some (meta, headers_at)
        → SameLetters meta.host (get_or r.hostname [])
        → Lines d ps rows
        → Lines d (p ∷ ps) (
            record {
              meta = meta;
              size = get_or (fs.stat_size d (body_path_of p)) 0;
              left = meta.expires -ℤ now;
            }
            ∷ rows)

  row_of-Lines :
      (d : Disk) (p : Bytes) (ps : List Bytes) (rows : List Row)
      (entry : Option (CacherEntryMeta × Bytes))
      → read_meta tk dec (fs.file_read d p) ≡ entry
      → Lines d ps rows
      → Lines d (p ∷ ps) (row_of p d entry ++ rows)
  row_of-Lines d p ps rows none e l = not_readable e l
  row_of-Lines d p ps rows (some (meta, headers_at)) e l =
      let same = streq_ci_iff meta.host (get_or r.hostname []) in
      elim (Bool-cases (streq_ci (some meta.host) (some (get_or r.hostname [])))) [
        | inl t ↦ rw t (own_host e (same.0 t) l)
        | inr f ↦ rw f (other_host e (λ s. absurd (cc (f, same.1 s))) l)
      ]

  rows_of-Lines : (ps : List Bytes) (d : Disk) → Lines d ps (rows_of d ps)
  rows_of-Lines [] d = no_files
  rows_of-Lines (p ∷ ps) d = row_of-Lines d p ps (rows_of d ps) _ refl (rows_of-Lines ps d)

  abbrev ctx_at : ℕ → ℕ → List Row → AdminCtx
  ctx_at matched bytes rows = record blank_ctx {
    print_rows = true;
    matched = matched;
    bytes = bytes;
    rows = rows;
  }

  ctx_same :
      {m n b c : ℕ} {rows lines : List Row} (d : Disk)
      → m ≡ n
      → b ≡ c
      → rows ≡ lines
      → ◌≡◌ {A = AdminCtx × Disk} (ctx_at m b rows, d) (ctx_at n c lines, d)
  ctx_same d e f g = λ i. (ctx_at (e i) (f i) (g i), d)

  visit_row :
      (m b : ℕ) (rows : List Row) (p : Bytes) (d : Disk) (entry : Option (CacherEntryMeta × Bytes))
      → visit_meta tk dec fs r now (ctx_at m b rows) p entry d ≡ (
        ctx_at
            (m + length (row_of p d entry))
            (b + total (row_of p d entry))
            (rows ++ row_of p d entry),
        d,
      )
  unfolding visit_meta pattern_passes counted body_size
  visit_row m b rows p d none = ctx_same d (omega arith) (omega arith) (sym (append-nil rows))
  visit_row m b rows p d (some (meta, headers_at)) =
      elim (Bool-cases (streq_ci (some meta.host) (some (get_or r.hostname [])))) [
        | inl e ↦ simp e (ctx_same d (omega arith) (omega arith) refl)
        | inr e ↦ simp e (ctx_same d (omega arith) (omega arith) (sym (append-nil rows)))
      ]

  visit_rows :
      (ps : List Bytes) (m b : ℕ) (rows : List Row) (d : Disk)
      → visit_all tk dec fs r now (ctx_at m b rows, d) ps
        ≡ (ctx_at (m + length (rows_of d ps)) (b + total (rows_of d ps)) (rows ++ rows_of d ps), d)
  unfolding visit_entry
  visit_rows [] m b rows d = ctx_same d (omega arith) (omega arith) (sym (append-nil rows))
  visit_rows (p ∷ ps) m b rows d =
      let here = row_of p d (read_meta tk dec (fs.file_read d p)) in
      ap (λ st. visit_all tk dec fs r now st ps)
        (visit_row m b rows p d (read_meta tk dec (fs.file_read d p)))
      ∙ visit_rows ps (m + length here) (b + total here) (rows ++ here) d
      ∙ ctx_same d (omega (arith, length-append here (rows_of d ps)))
          (omega (arith, total-append here (rows_of d ps))) (append_assoc rows here (rows_of d ps))

  visit_rows_all :
      (ps : List Bytes) (d : Disk)
      → visit_all tk dec fs r now (ctx_at 0 0 [], d) ps
        ≡ (ctx_at (length (rows_of d ps)) (total (rows_of d ps)) (rows_of d ps), d)
  visit_rows_all ps d = visit_rows ps 0 0 [] d ∙ ctx_same d (omega arith) (omega arith) refl

  -- The endpoint /list answers with one line for each header file below the root that can be read
  -- and whose entry belongs to the requesting host, in the order of the directories, with their
  -- number and the sum of the sizes of their bodies; and it leaves the disk as it is. A header file
  -- has a name that holds ".header" but not ".XXXXXX", and neither its name nor a directory on the
  -- way starts with a dot.
  pub list_entries_lem :
      (root : Bytes) (d : Disk)
      → (ps : List Bytes) × (rows : List Row) × Walks root (fs.tree d root) ps
        × Lines d ps rows
        × (list_entries tk dec fs r now root d
            ≡ (http_ok, listed rows (length rows) (total rows), d))
  unfolding list_entries
  list_entries_lem root d =
      let ps = headers_in root (fs.tree d root) in
      (
        ps,
        rows_of d ps,
        headers_in-Walks (fs.tree d root) root,
        rows_of-Lines ps d,
        ap (λ st. (http_ok, listed st.0.rows st.0.matched st.0.bytes, st.1))
            (walk_cache_all tk dec fs r now (ctx_at 0 0 []) root d ∙ visit_rows_all ps d),
      )
