-- ===== src/Cache/Write.antt =====
-- The write path: `finalize_cache_entry`, `cacher_output_filter` and `cacher_cache_insert_filter`
-- of src/cacher_cache.c. Log lines are left out.
pub mod Publish
pub mod Buckets
pub mod Capture
pub mod Untorn
pub mod Brigades
pub mod Working
pub mod Writers
use apache_cacher.Prelude.{
  ℕ, zero, suc, ◌+◌, Bool, true, false, ◌&&◌, ◌||◌, not, List, [], ◌∷◌, ◌++◌, Option, none, some,
  ◌==◌, if◌then◌else◌, Bytes, codes, length,
}
use apache_cacher.Prelude.Int.{ℤ, pos, ◌+ℤ◌, leb_ℤ, eq_ℤ}
use apache_cacher.Apr.{Strtok, Decimal, Digest, Tables}
use apache_cacher.Request.{RequestRec, Request}
use apache_cacher.Rules.{CacherRule}
use apache_cacher.Rules.Fields.{allows_status, allows_content_type}
use apache_cacher.Config.{or_else}
use apache_cacher.Cache.Key.{cache_key_paths}
use apache_cacher.Cache.Headers.{dump_headers}
use apache_cacher.Cache.Meta.{file_text}
use apache_cacher.Cache.FileSystem.{FileSystem}

-- `cacher_out_ctx`, with the temporary file by its name, and whether the filter was removed
pub record CacherOutCtx : Type 0 where
  pub rule : CacherRule
  pub header_path : Bytes
  pub body_path : Bytes
  pub tmp_body_path : Bytes
  pub body_len : ℕ
  pub started : Bool
  pub cacheable : Bool
  pub removed : Bool

-- A bucket of a brigade: the end of the response, other metadata, data, or data whose
-- apr_bucket_read fails and leaves `len` as it is.
pub data Bucket : Type 0 where
  eos : Bucket
  metadata : Bucket
  bytes : Bytes → Bucket
  unreadable : ℕ → Bucket

-- What the two calls of apr_time_now return, in seconds.
pub record Clock : Type 0 where
  pub created : ℤ
  pub before_expiry : ℤ

abbrev pub temp_suffix : Bytes
temp_suffix = codes ".XXXXXX"

-- The text up to the last `b` (strrchr), or nothing.
abbrev pub keep_before : ℕ → Option Bytes → Bool → Option Bytes
keep_before c (some s) here = some (c ∷ s)
keep_before c none true = some []
keep_before c none false = none

unfoldable pub before_last : ℕ → Bytes → Option Bytes
before_last b [] = none
before_last b (c ∷ s) = keep_before c (before_last b s) (c == b)

abbrev pub shard_dir_of : Option Bytes → Bytes
shard_dir_of none = []
shard_dir_of (some dir) = dir

module _ (dec : Decimal) (tb : Tables) (fs : FileSystem) where
  open fs use {Disk}

  -- if (declared) { … }: is the body as long as the response declared?
  unfoldable pub length_fits : Option Bytes → ℕ → Bool
  unfolding eq_ℤ
  length_fits none body_len = true
  length_fits (some declared) body_len = eq_ℤ (dec.atoi64 declared) (pos body_len)

  unfoldable pub is_complete : RequestRec → CacherOutCtx → Bool
  unfolding length_fits
  is_complete r ctx =
      if r.aborted
      then false
      else length_fits (tb.table_get r.headers_out (codes "Content-Length")) ctx.body_len

  -- the last branch: nothing of a failed publication stays
  unfoldable pub withdraw : CacherOutCtx → Bytes → Disk → Disk
  withdraw ctx tmp_header d =
      fs.remove (fs.remove (fs.remove d ctx.tmp_body_path) tmp_header) ctx.body_path

  -- the rename of the header, behind the one of the body
  unfoldable pub rename_header : CacherOutCtx → Bytes → Bool × Disk → Disk
  unfolding withdraw
  rename_header ctx tmp_header (true, d) = d
  rename_header ctx tmp_header (false, d) = withdraw ctx tmp_header d

  unfoldable pub rename_body : CacherOutCtx → Bytes → Bool × Disk → Disk
  unfolding rename_header
  rename_body ctx tmp_header (true, d) =
      rename_header ctx tmp_header (fs.rename d tmp_header ctx.header_path)
  rename_body ctx tmp_header (false, d) = withdraw ctx tmp_header d

  -- what follows the write of the header text
  unfoldable pub after_write : CacherOutCtx → Bytes → Bool × Disk → Disk
  unfolding rename_body
  after_write ctx tmp_header (true, d) =
      rename_body ctx tmp_header (fs.rename d ctx.tmp_body_path ctx.body_path)
  after_write ctx tmp_header (false, d) = fs.remove (fs.remove d tmp_header) ctx.tmp_body_path

  -- what follows apr_file_mktemp for the header
  unfoldable pub after_mktemp : CacherOutCtx → Bytes → Option Bytes × Disk → Disk
  unfolding after_write
  after_mktemp ctx text (some tmp_header, d) =
      after_write ctx tmp_header (fs.write_full d tmp_header text)
  after_mktemp ctx text (none, d) = fs.remove d ctx.tmp_body_path

  abbrev pub entry_text : Clock → Request → CacherOutCtx → Bytes
  entry_text clock q ctx =
      file_text dec clock.created (clock.before_expiry +ℤ ctx.rule.ttl_seconds) q
        (dump_headers [] q.r.headers_out)

  unfoldable pub finalize_cache_entry : Clock → Request → CacherOutCtx → Disk → Disk
  unfolding is_complete after_mktemp
  finalize_cache_entry clock q ctx d =
      if is_complete q.r ctx
      then after_mktemp ctx (entry_text clock q ctx) (fs.mktemp d (ctx.header_path ++ temp_suffix))
      else fs.remove d ctx.tmp_body_path

  -- the branch `else if (len > 0)`
  unfoldable pub abandon : CacherOutCtx → Disk → CacherOutCtx × Disk
  abandon ctx d = (record ctx { cacheable = false; removed = true }, fs.remove d ctx.tmp_body_path)

  -- what follows apr_file_write_full of `len` bytes
  unfoldable pub after_capture : CacherOutCtx → ℕ → Bool × Disk → CacherOutCtx × Disk
  unfolding abandon
  after_capture ctx len (true, d) = (record ctx { body_len = ctx.body_len + len }, d)
  after_capture ctx len (false, d) = abandon ctx d

  -- one round of the loop over the buckets, where ctx->cacheable
  unfoldable pub capture_bucket :
      Clock → Request → CacherOutCtx → Disk → Bucket → CacherOutCtx × Disk
  unfolding finalize_cache_entry after_capture
  capture_bucket clock q ctx d eos = (ctx, finalize_cache_entry clock q ctx d)
  capture_bucket clock q ctx d metadata = (ctx, d)
  capture_bucket clock q ctx d (bytes []) = (ctx, d)
  capture_bucket clock q ctx d (bytes (c ∷ s)) =
      after_capture ctx (length (c ∷ s)) (fs.write_full d ctx.tmp_body_path (c ∷ s))
  capture_bucket clock q ctx d (unreadable zero) = (ctx, d)
  capture_bucket clock q ctx d (unreadable (suc n)) = abandon ctx d

  unfoldable pub bucket_step : Clock → Request → CacherOutCtx × Disk → Bucket → CacherOutCtx × Disk
  unfolding capture_bucket
  bucket_step clock q (ctx, d) b =
      if ctx.cacheable then capture_bucket clock q ctx d b else (ctx, d)

  unfoldable pub bucket_loop :
      Clock → Request → CacherOutCtx × Disk → List Bucket → CacherOutCtx × Disk
  unfolding bucket_step
  bucket_loop clock q st [] = st
  bucket_loop clock q st (b ∷ bs) = bucket_loop clock q (bucket_step clock q st b) bs

  -- r->content_type, or the header
  abbrev pub response_type : RequestRec → Option Bytes
  response_type r = or_else r.content_type (tb.table_get r.headers_out (codes "Content-Type"))

  abbrev pub is_absent : Option Bytes → Bool
  is_absent none = true
  is_absent (some _) = false

  unfoldable pub decide_cacheable : RequestRec → CacherRule → Bool
  decide_cacheable r rule =
      allows_status (some rule) r.status
      && (allows_content_type (some rule) (response_type r)
          && (not r.is_subrequest && is_absent (tb.table_get r.headers_in (codes "Authorization"))))

  abbrev pub decline : CacherOutCtx → CacherOutCtx
  decline ctx = record ctx { cacheable = false; removed = true }

  -- what follows apr_file_mktemp for the body
  unfoldable pub opened : CacherOutCtx → Option Bytes × Disk → CacherOutCtx × Disk
  opened ctx (some tmp, d) = (record ctx { tmp_body_path = tmp }, d)
  opened ctx (none, d) = (decline ctx, d)

  -- what follows apr_dir_make_recursive
  unfoldable pub after_dirs : CacherOutCtx → Bool × Disk → CacherOutCtx × Disk
  unfolding opened
  after_dirs ctx (true, d) = opened ctx (fs.mktemp d (ctx.body_path ++ temp_suffix))
  after_dirs ctx (false, d) = (decline ctx, d)

  -- if (!ctx->started) { … }
  unfoldable pub start : Request → CacherOutCtx → Disk → CacherOutCtx × Disk
  unfolding decide_cacheable after_dirs before_last
  start q ctx d =
      if decide_cacheable q.r ctx.rule
      then after_dirs (record ctx { started = true; cacheable = true })
          (fs.make_dirs d (shard_dir_of (before_last b'/' ctx.body_path)))
      else (decline (record ctx { started = true }), d)

  -- `cacher_output_filter` on one brigade
  unfoldable pub output_filter :
      Clock → Request → CacherOutCtx → Disk → List Bucket → CacherOutCtx × Disk
  unfolding start bucket_loop
  output_filter clock q ctx d brigade =
      bucket_loop clock q (if ctx.started then (ctx, d) else start q ctx d) brigade

abbrev pub fresh_ctx : CacherRule → Bytes × Bytes → CacherOutCtx
fresh_ctx rule paths = record {
  rule = rule;
  header_path = paths.0;
  body_path = paths.1;
  tmp_body_path = [];
  body_len = 0;
  started = false;
  cacheable = false;
  removed = false;
}

abbrev pub ctx_of_paths : CacherRule → Option (Bytes × Bytes) → Option CacherOutCtx
ctx_of_paths rule none = none
ctx_of_paths rule (some paths) = some (fresh_ctx rule paths)

-- `cacher_cache_insert_filter`: the context of the filter that is added, if one is.
unfoldable pub insert_filter :
    Strtok → Tables → Digest → Request → Option Bytes → CacherRule → Option CacherOutCtx
unfolding cache_key_paths
insert_filter tk tb dg q none rule = none
insert_filter tk tb dg q (some root) rule =
    if leb_ℤ rule.ttl_seconds (pos 0)
    then none
    else if q.r.header_only
    then none
    else ctx_of_paths rule (cache_key_paths tk tb dg q (some root) rule)
