-- ===== src/Cache/Meta.antt =====
-- The plain-text header file of an entry: `cacher_cache_read_meta`, and the text that
-- `finalize_cache_entry` writes, of src/cacher_cache.c.
pub mod Text
pub mod RoundTrip
use apache_cacher.Prelude.{
  ℕ, zero, suc, ◌+◌, ◌-◌, ◌%◌, ◌^◌, Bool, true, false, ◌&&◌, List, [], ◌∷◌, ◌++◌, Option, none,
  some, ◌==◌, ltb, if◌then◌else◌, Bytes, codes, strip_prefix, get_or,
}
use apache_cacher.Prelude.Int.{ℤ, pos, negsuc, sub_ℕ, eq_ℤ}
use apache_cacher.Apr.{Strtok, Decimal, Headers}
use apache_cacher.Apr.Tokens.{tokens}
use apache_cacher.Request.{RequestRec, Request}
use apache_cacher.Util.{original_request}
use apache_cacher.Config.RulesCache.{c_text}
use apache_cacher.Cache.Key.{url_text}
use apache_cacher.Cache.Headers.{dump_headers}

pub record CacherEntryMeta : Type 0 where
  pub created : ℤ
  pub expires : ℤ
  pub status : ℤ
  pub method : Bytes
  pub host : Bytes
  pub url : Bytes

-- memset, and "-" in the three names
abbrev pub blank_meta : CacherEntryMeta
blank_meta = record {
  created = pos 0;
  expires = pos 0;
  status = pos 0;
  method = codes "-";
  host = codes "-";
  url = codes "-";
}

-- CACHER_HEADER_VERSION "\n"
abbrev pub version_line : Bytes
version_line = codes "CACHER/2\n"

-- An int of 32 bits that has the bits of `n`.
abbrev pub int_of_bits : ℕ → ℤ
int_of_bits n = if ltb n (2 ^ 31) then pos n else sub_ℕ n (2 ^ 32)

-- (int) on an apr_int64_t
unfoldable pub to_int : ℤ → ℤ
to_int (pos n) = int_of_bits (n % 2 ^ 32)
to_int (negsuc n) = int_of_bits (2 ^ 32 - 1 - n % 2 ^ 32)

abbrev pub cons_before : ℕ → Option (Bytes × Bytes) → Option (Bytes × Bytes)
cons_before c none = none
cons_before c (some (before, after)) = some (c ∷ before, after)

-- strstr(text, "\n\n"): what stands before it, and what stands behind it.
unfoldable pub find_blank_line : Bytes → Option (Bytes × Bytes)
find_blank_line [] = none
find_blank_line (c ∷ []) = none
find_blank_line (c ∷ d ∷ s) =
    let rest = find_blank_line (d ∷ s) in
    if c == b'\n' && d == b'\n' then some ([], s) else cons_before c rest

-- if (m && h && u) { … }
abbrev pub set_url : CacherEntryMeta → Option (Bytes × Bytes × Bytes) → CacherEntryMeta
set_url meta none = meta
set_url meta (some (m, h, u)) = record meta { method = m; host = h; url = u }

module _ (tk : Strtok) where
  -- u = apr_strtok(NULL, "", &field_last)
  unfoldable pub url_field : Bytes → Bytes → Option (Bytes × Bytes) → Option (Bytes × Bytes × Bytes)
  url_field m h none = none
  url_field m h (some (u, rest)) = some (m, h, u)

  -- h = apr_strtok(NULL, " ", &field_last)
  unfoldable pub host_field : Bytes → Option (Bytes × Bytes) → Option (Bytes × Bytes × Bytes)
  unfolding url_field
  host_field m none = none
  host_field m (some (h, rest)) = url_field m h (tk.strtok [] rest)

  -- m = apr_strtok(line + 4, " ", &field_last)
  unfoldable pub method_field : Option (Bytes × Bytes) → Option (Bytes × Bytes × Bytes)
  unfolding host_field
  method_field none = none
  method_field (some (m, rest)) = host_field m (tk.strtok (codes " ") rest)

  unfoldable pub url_fields : Bytes → Option (Bytes × Bytes × Bytes)
  unfolding method_field
  url_fields s = method_field (tk.strtok (codes " ") s)

  module _ (dec : Decimal) where
    -- The else-if chain, on what follows each of the four names in the line.
    unfoldable pub set_field :
        CacherEntryMeta
        → Option Bytes
        → Option Bytes
        → Option Bytes
        → Option Bytes
        → CacherEntryMeta
    unfolding to_int url_fields
    set_field meta (some s) expires status url = record meta { created = dec.atoi64 s }
    set_field meta none (some s) status url = record meta { expires = dec.atoi64 s }
    set_field meta none none (some s) url = record meta { status = to_int (dec.atoi64 s) }
    set_field meta none none none (some s) = set_url meta (url_fields s)
    set_field meta none none none none = meta

    unfoldable pub meta_line : CacherEntryMeta → Bytes → CacherEntryMeta
    unfolding set_field
    meta_line meta line =
        set_field meta (strip_prefix (codes "created ") line) (strip_prefix (codes "expires ") line)
          (strip_prefix (codes "status ") line) (strip_prefix (codes "url ") line)

    unfoldable pub meta_lines : CacherEntryMeta → List Bytes → CacherEntryMeta
    unfolding meta_line
    meta_lines meta [] = meta
    meta_lines meta (line ∷ lines) = meta_lines (meta_line meta line) lines

    -- meta->status == 0 fails
    unfoldable pub checked_meta : CacherEntryMeta → Bytes → Option (CacherEntryMeta × Bytes)
    unfolding eq_ℤ
    checked_meta meta headers_at =
        if eq_ℤ meta.status (pos 0) then none else some (meta, headers_at)

    -- what follows strstr
    unfoldable pub meta_of_block : Option (Bytes × Bytes) → Option (CacherEntryMeta × Bytes)
    unfolding meta_lines checked_meta
    meta_of_block none = none
    meta_of_block (some (block, headers_at)) =
        checked_meta (meta_lines blank_meta (tokens tk (codes "\n") block)) headers_at

    -- what follows the version test
    unfoldable pub meta_of_version : Option Bytes → Bytes → Option (CacherEntryMeta × Bytes)
    unfolding meta_of_block find_blank_line
    meta_of_version none text = none
    meta_of_version (some _) text = meta_of_block (find_blank_line text)

    unfoldable pub meta_of_text : Bytes → Option (CacherEntryMeta × Bytes)
    unfolding meta_of_version
    meta_of_text text = meta_of_version (strip_prefix version_line text) text

    -- `cacher_cache_read_meta` on the file's bytes, `none` where it cannot be opened or read. The
    -- second part is the header block.
    unfoldable pub read_meta : Option Bytes → Option (CacherEntryMeta × Bytes)
    unfolding meta_of_text c_text
    read_meta none = none
    read_meta (some []) = none
    read_meta (some (c ∷ s)) = meta_of_text (c_text (c ∷ s))

-- r->hostname ? r->hostname : "-"
abbrev pub host_text : RequestRec → Bytes
host_text r = get_or r.hostname (codes "-")

-- The text that `finalize_cache_entry` builds with apr_psprintf, for the two times, the request and
-- the dumped headers.
unfoldable pub file_text : Decimal → ℤ → ℤ → Request → Bytes → Bytes
file_text dec created expires q dumped =
    version_line
    ++ (codes "created "
        ++ (dec.print created
            ++ (codes "\nexpires "
                ++ (dec.print expires
                    ++ (codes "\nstatus "
                        ++ (dec.print q.r.status
                            ++ (codes "\nurl "
                                ++ (q.r.method
                                    ++ (b' '
                                        ∷ (host_text q.r
                                            ++ (b' '
                                                ∷ (url_text (original_request q)
                                                    ++ (b'\n' ∷ b'\n' ∷ dumped)))))))))))))
