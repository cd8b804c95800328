-- ===== src/Tests/Endpoints.antt =====
-- A run of the admin endpoint over an entry of another host.
use apache_cacher.Prelude.{
  ◌≡◌, refl, List, All, length, none, some, Bytes, codes, arith, inl, inr, map, str_eq,
  strip_prefix, if◌then◌else◌, Bool-cases, some_inj, ap, ◌∙◌,
}
use apache_cacher.Prelude.Int.{pos}
use apache_cacher.Ctype.{to_lower}
use apache_cacher.Config.RulesCache.{c_text}
use apache_cacher.Cache.Meta.{CacherEntryMeta, read_meta}
use apache_cacher.Cache.FileSystem.{opened, file, done}
use apache_cacher.Admin.{Row, admin_handle, listed, http_ok, list_entries, reset_entries, purge}
use apache_cacher.Admin.Reached.{Walks}
use apache_cacher.Admin.Listing.{Lines, total, list_entries_lem}
use apache_cacher.Admin.Clears.{Writable, Cleared, reset_entries-Cleared, purge-Cleared}
use apache_cacher.Admin.Scope.{Foreign, admin_handle-Foreign}
use apache_cacher.Tests.Libs.{toy_strtok}
use apache_cacher.Tests.Decimals.{toy_decimal}
use apache_cacher.Tests.Disks.{ToyDisk, toy_fs, put_self}
use apache_cacher.Tests.Requests.{visitor}

abbrev entry_path : Bytes
entry_path = codes "/c/a.header"

-- an entry of "b.org"; the visitor asks "h.org"
abbrev entry_bytes : Bytes
entry_bytes = codes "CACHER/2\nstatus 200\nurl GET b.org /\n\n"

abbrev shared_disk : ToyDisk
shared_disk = record {
  at = λ p. if str_eq p entry_path then some entry_bytes else none;
  listing = opened (file (codes "a.header") done);
}

entry_host :
    (s : Bytes) (meta : CacherEntryMeta) (headers_at : Bytes)
    → entry_bytes ≡ s
    → read_meta toy_strtok toy_decimal (some s) ≡ some (meta, headers_at)
    → codes "b.org" ≡ meta.host
unfolding read_meta strip_prefix str_eq apache_cacher.Apr.Tokens.tokens c_text
entry_host s meta headers_at same e =
    ap (λ p. p.0.host) (some_inj _ _ (ap (λ t. read_meta toy_strtok toy_decimal (some t)) same ∙ e))

only_entry : (h s : Bytes) → shared_disk.at h ≡ some s → entry_bytes ≡ s
only_entry h s e = elim (Bool-cases (str_eq h entry_path)) [
  | inl t ↦ some_inj entry_bytes s (rw t at e)
  | inr f ↦ absurd (missing (rw f at e))
]
  where
    missing : none ≡ some s → ⊥
    missing i = cc

Foreign-entry : Foreign toy_strtok toy_decimal toy_fs visitor (pos 9) shared_disk entry_path
unfolding to_lower
Foreign-entry h s meta headers_at at e r same =
    other_host (ap (λ x. map to_lower x) (entry_host s meta headers_at (only_entry h s e) r) ∙ same)
  where
    other_host : map to_lower (codes "b.org") ≡ map to_lower (codes "h.org") → ⊥
    other_host i = ground arith

admin_handle-Foreign_example :
    (admin_handle toy_strtok toy_decimal toy_fs visitor
        (pos 9)
        (some (codes "/c"))
        (codes "/full-reset")
        shared_disk).2.at
      entry_path
    ≡ shared_disk.at entry_path
admin_handle-Foreign_example =
    admin_handle-Foreign toy_strtok toy_decimal toy_fs visitor (pos 9) shared_disk entry_path
      (some (codes "/c")) (codes "/full-reset") Foreign-entry

-- the same entry, of the host that asks
abbrev own_bytes : Bytes
own_bytes = codes "CACHER/2\nstatus 200\nurl GET h.org /\n\n"

abbrev own_disk : ToyDisk
own_disk = record shared_disk { at = λ p. if str_eq p entry_path then some own_bytes else none }

list_entries_lem_example :
    (ps : List Bytes) × (rows : List Row) × Walks (codes "/c") own_disk.listing ps
    × Lines toy_strtok toy_decimal toy_fs visitor (pos 9) own_disk ps rows
    × (list_entries toy_strtok toy_decimal toy_fs visitor (pos 9) (codes "/c") own_disk
        ≡ (http_ok, listed rows (length rows) (total rows), own_disk))
list_entries_lem_example =
    list_entries_lem toy_strtok toy_decimal toy_fs visitor (pos 9) (codes "/c") own_disk

abbrev toy_writable : Writable toy_fs
toy_writable = record { reads = λ d p s h. h; removes = λ d p. put_self d.at p none }

reset_entries-Cleared_example :
    (ps : List Bytes) × Walks (codes "/c") own_disk.listing ps
    × All
        (Cleared toy_strtok toy_decimal toy_fs visitor
          (pos 9)
          toy_writable
          none
          (reset_entries toy_strtok toy_decimal toy_fs visitor (pos 9) (codes "/c") own_disk).2)
        ps
reset_entries-Cleared_example =
    reset_entries-Cleared toy_strtok toy_decimal toy_fs visitor (pos 9) toy_writable (codes "/c")
      own_disk

purge-Cleared_example :
    (ps : List Bytes) × Walks (codes "/c") own_disk.listing ps
    × All
        (Cleared toy_strtok toy_decimal toy_fs visitor
          (pos 9)
          toy_writable
          (some (codes "/*"))
          (purge toy_strtok toy_decimal toy_fs visitor
            (pos 9)
            (codes "/c")
            (codes "/*")
            own_disk).2)
        ps
unfolding str_eq
purge-Cleared_example =
    purge-Cleared toy_strtok toy_decimal toy_fs visitor (pos 9) toy_writable (codes "/c")
      (codes "/*") own_disk refl
