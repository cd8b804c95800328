-- ===== src/Admin.antt =====
-- The admin endpoints of src/cacher_admin.c. The text that is sent is kept as the values that are
-- printed; log lines are left out.
pub mod Scope
pub mod Walk
pub mod Reached
pub mod Listing
pub mod Clears
use apache_cacher.Prelude.{
  ℕ, suc, ◌+◌, ◌-◌, Bool, true, false, ◌&&◌, ◌||◌, not, List, [], ◌∷◌, ◌++◌, Option, none, some,
  ◌==◌, if◌then◌else◌, Bytes, codes, str_eq, strip_prefix, length, take, get_or,
}
use apache_cacher.Prelude.Int.{ℤ, pos, ◌-ℤ◌}
use apache_cacher.Apr.{Strtok, Decimal}
use apache_cacher.Glob.{glob_match}
use apache_cacher.Request.{RequestRec}
use apache_cacher.Util.{streq_ci}
use apache_cacher.Cache.Meta.{CacherEntryMeta, read_meta}
use apache_cacher.Cache.FileSystem.{FileSystem, DirTree, closed, opened, DirItems, done, file, dir}

-- One line of the list: what ap_rprintf prints of an entry, with the seconds that are left.
pub record Row : Type 0 where
  pub meta : CacherEntryMeta
  pub size : ℕ
  pub left : ℤ

pub record AdminCtx : Type 0 where
  pub pattern : Option Bytes
  pub matched : ℕ
  pub bytes : ℕ
  pub delete_matches : Bool
  pub print_rows : Bool
  -- the rows printed so far
  pub rows : List Row

-- memset(&ctx, 0, sizeof(ctx))
abbrev pub blank_ctx : AdminCtx
blank_ctx = record {
  pattern = none;
  matched = 0;
  bytes = 0;
  delete_matches = false;
  print_rows = false;
  rows = [];
}

-- What the endpoint answers.
pub data Answer : Type 0 where
  no_root : Answer
  usage : Answer
  listed : List Row → ℕ → ℕ → Answer
  full_reset : ℕ → Answer
  no_pattern : Answer
  purged : Bytes → ℕ → Answer

abbrev pub http_ok : ℤ
http_ok = pos 0

abbrev pub http_bad_request : ℤ
http_bad_request = pos 400

abbrev pub http_not_found : ℤ
http_not_found = pos 404

-- The header's path without its last strlen(".header") bytes, and ".body".
unfoldable pub body_path_of : Bytes → Bytes
body_path_of header_path = take (length header_path - 7) header_path ++ codes ".body"

abbrev pub is_some : {A : Type 0} → Option A → Bool
is_some none = false
is_some (some _) = true

-- strstr(s, part) != NULL
unfoldable pub has_part : Bytes → Bytes → Bool
has_part part [] = is_some (strip_prefix part [])
has_part part (c ∷ s) = is_some (strip_prefix part (c ∷ s)) || has_part part s

-- finfo.name[0] == '.', or no name
unfoldable pub is_hidden : Bytes → Bool
is_hidden [] = false
is_hidden (c ∷ name) = c == b'.'

unfoldable pub is_entry_name : Bytes → Bool
unfolding has_part
is_entry_name name = has_part (codes ".header") name && not (has_part (codes ".XXXXXX") name)

abbrev pub child_path : Bytes → Bytes → Bytes
child_path parent name = parent ++ (b'/' ∷ name)

-- ctx->pattern && !glob(url) && !glob(host url) sends the visit home
unfoldable pub pattern_passes : Option Bytes → CacherEntryMeta → Bool
pattern_passes none meta = true
pattern_passes (some g) meta =
    glob_match (some g) (some meta.url) false
    || glob_match (some g) (some (meta.host ++ meta.url)) false

module _ (tk : Strtok) (dec : Decimal) (fs : FileSystem) where
  open fs use {Disk}

  unfoldable pub delete_entry : Bytes → Disk → Disk
  unfolding body_path_of
  delete_entry header_path d = fs.remove (fs.remove d (body_path_of header_path)) header_path

  unfoldable pub body_size : Bytes → Disk → ℕ
  unfolding body_path_of
  body_size header_path d = get_or (fs.stat_size d (body_path_of header_path)) 0

  -- what a visit counts and prints
  unfoldable pub counted : ℤ → AdminCtx → CacherEntryMeta → ℕ → AdminCtx
  counted now ctx meta size = record ctx {
    matched = ctx.matched + 1;
    bytes = ctx.bytes + size;
    rows =
        if ctx.print_rows
        then ctx.rows ++ record { meta = meta; size = size; left = meta.expires -ℤ now } ∷ []
        else ctx.rows;
  }

  -- what follows cacher_cache_read_meta
  unfoldable pub visit_meta :
      RequestRec → ℤ → AdminCtx → Bytes → Option (CacherEntryMeta × Bytes) → Disk → AdminCtx × Disk
  unfolding pattern_passes counted delete_entry body_size
  visit_meta r now ctx header_path none d = (ctx, d)
  visit_meta r now ctx header_path (some (meta, _)) d =
      if streq_ci (some meta.host) (some (get_or r.hostname [])) && pattern_passes ctx.pattern meta
      then (
        counted now ctx meta (body_size header_path d),
        if ctx.delete_matches then delete_entry header_path d else d,
      )
      else (ctx, d)

  unfoldable pub visit_entry : RequestRec → ℤ → AdminCtx → Bytes → Disk → AdminCtx × Disk
  unfolding visit_meta
  visit_entry r now ctx header_path d =
      visit_meta r now ctx header_path (read_meta tk dec (fs.file_read d header_path)) d

  -- the branch of a file
  unfoldable pub visit_file : RequestRec → ℤ → AdminCtx × Disk → Bytes → Bytes → AdminCtx × Disk
  unfolding visit_entry is_entry_name is_hidden
  visit_file r now (ctx, d) parent name =
      if is_hidden name
      then (ctx, d)
      else if is_entry_name name
      then visit_entry r now ctx (child_path parent name) d
      else (ctx, d)

  unfoldable mutual
    unfolding visit_file is_hidden

    pub walk_tree : RequestRec → ℤ → AdminCtx × Disk → Bytes → DirTree → AdminCtx × Disk
    walk_tree r now st parent closed = st
    walk_tree r now st parent (opened items) = walk_items r now st parent items

    pub walk_items : RequestRec → ℤ → AdminCtx × Disk → Bytes → DirItems → AdminCtx × Disk
    walk_items r now st parent done = st
    walk_items r now st parent (file name items) =
        walk_items r now (visit_file r now st parent name) parent items
    walk_items r now st parent (dir name below items) =
        let inside = walk_tree r now st (child_path parent name) below in
        walk_items r now (if is_hidden name then st else inside) parent items

  -- `walk_cache` from the root of the cache
  unfoldable pub walk_cache : RequestRec → ℤ → AdminCtx → Bytes → Disk → AdminCtx × Disk
  unfolding walk_tree
  walk_cache r now ctx root d = walk_tree r now (ctx, d) root (fs.tree d root)

  -- ctx.matched ? OK : HTTP_NOT_FOUND
  abbrev pub purge_code : ℕ → ℤ
  purge_code n = if n == 0 then http_not_found else http_ok

  unfoldable pub purge : RequestRec → ℤ → Bytes → Bytes → Disk → ℤ × Answer × Disk
  unfolding walk_cache
  purge r now root pattern d =
      if str_eq pattern [] || str_eq pattern (codes "/")
      then (http_bad_request, no_pattern, d)
      else let (ctx, d') =
          walk_cache r now (record blank_ctx { pattern = some pattern; delete_matches = true }) root
            d in
        (purge_code ctx.matched, purged pattern ctx.matched, d')

  unfoldable pub purge_or_usage : RequestRec → ℤ → Bytes → Option Bytes → Disk → ℤ × Answer × Disk
  unfolding purge
  purge_or_usage r now root (some pattern) d = purge r now root pattern d
  purge_or_usage r now root none d = (http_ok, usage, d)

  unfoldable pub list_entries : RequestRec → ℤ → Bytes → Disk → ℤ × Answer × Disk
  unfolding walk_cache
  list_entries r now root d =
      let (ctx, d') = walk_cache r now (record blank_ctx { print_rows = true }) root d in
      (http_ok, listed ctx.rows ctx.matched ctx.bytes, d')

  unfoldable pub reset_entries : RequestRec → ℤ → Bytes → Disk → ℤ × Answer × Disk
  unfolding walk_cache
  reset_entries r now root d =
      let (ctx, d') = walk_cache r now (record blank_ctx { delete_matches = true }) root d in
      (http_ok, full_reset ctx.matched, d')

  -- `cacher_admin_handle`: the status, the answer, and the disk afterwards
  unfoldable pub admin_handle : RequestRec → ℤ → Option Bytes → Bytes → Disk → ℤ × Answer × Disk
  unfolding list_entries reset_entries purge_or_usage
  admin_handle r now none action d = (http_ok, no_root, d)
  admin_handle r now (some root) action d =
      if str_eq action [] || str_eq action (codes "/")
      then (http_ok, usage, d)
      else if str_eq action (codes "/list")
      then list_entries r now root d
      else if str_eq action (codes "/full-reset")
      then reset_entries r now root d
      else purge_or_usage r now root (strip_prefix (codes "/purge") action) d
