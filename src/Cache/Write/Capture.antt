-- ===== src/Cache/Write/Capture.antt =====
-- `cacher_output_filter`: what it captures of a response, and when it leaves the disk alone.
use apache_cacher.Prelude.{
  ◌+◌, Bool, true, false, List, [], ◌∷◌, ◌++◌, Option, none, some, Bytes, length, length-append,
  codes, All, Any, Lacks, ◌≤◌, ◌≡◌, ◌≢◌, refl, ◌∙◌, ap, arith,
}
use apache_cacher.Prelude.Int.{ℤ, negsuc}
use apache_cacher.Apr.{Decimal, Tables}
use apache_cacher.Request.{RequestRec, Request}
use apache_cacher.Config.{or_else}
use apache_cacher.Rules.{CacherRule}
use apache_cacher.Rules.Fields.{allows_status, type_passes, allows_content_type}
use apache_cacher.Rules.Allowed.{IsParams, TypeFits, allows_status_iff, allows_content_type_iff}
use apache_cacher.Cache.FileSystem.{FileSystem}
use apache_cacher.Cache.Write.{
  CacherOutCtx, Bucket, eos, Clock, temp_suffix, before_last, shard_dir_of, fresh_ctx, is_complete,
  decide_cacheable, opened, after_dirs, start, output_filter,
}
use apache_cacher.Cache.Write.Publish.{Failure, mktemp_failed, dirs_failed}
use apache_cacher.Cache.Write.Buckets.{
  Readable, body_of, loop, Captured, given_up, incomplete, published, loop_idle, loop_captured,
}

-- The reasons for which a response may not be stored, each enough by itself: the rule names its
-- status codes and this is none of them; the rule names its content types, and the response has
-- none or one that no glob of them matches; the request is a subrequest; or it carries the header
-- Authorization.
pub data Unstorable (tb : Tables) (rule : CacherRule) (r : RequestRec) : Type 0 where
  other_status :
      (allowed : List ℤ)
      → rule.status_codes ≡ some (allowed ++ negsuc 0 ∷ [])
      → All (λ c. c ≢ negsuc 0) allowed
      → ¬ Any (λ c. c ≡ r.status) allowed
      → Unstorable tb rule r
  no_type :
      (globs : List Bytes)
      → rule.content_types ≡ some globs
      → or_else r.content_type (tb.table_get r.headers_out (codes "Content-Type")) ≡ none
      → Unstorable tb rule r
  other_type :
      (base params : Bytes)
      → or_else r.content_type (tb.table_get r.headers_out (codes "Content-Type"))
        ≡ some (base ++ params)
      → Lacks b';' base
      → Lacks b' ' base
      → Lacks b'*' base
      → length base ≤ 127
      → IsParams params
      → ¬ TypeFits rule.content_types base
      → Unstorable tb rule r
  subrequest : r.is_subrequest ≡ true → Unstorable tb rule r
  authorized :
      (credentials : Bytes)
      → tb.table_get r.headers_in (codes "Authorization") ≡ some credentials
      → Unstorable tb rule r

not_true : (b : Bool) → ¬ (b ≡ true) → b ≡ false
not_true true n = absurd (n refl)
not_true false n = refl

-- Without a type a rule that names types is not content.
untyped :
    (rule : CacherRule) (globs : List Bytes)
    → rule.content_types ≡ some globs
    → allows_content_type (some rule) none ≡ false
unfolding allows_content_type type_passes
untyped rule globs e = ap (λ gs. type_passes gs none) e

Unstorable-decide_cacheable :
    (dec : Decimal) (tb : Tables) (fs : FileSystem) (rule : CacherRule) (r : RequestRec)
    → Unstorable tb rule r
    → decide_cacheable dec tb fs r rule ≡ false
unfolding decide_cacheable
Unstorable-decide_cacheable dec tb fs rule r (other_status allowed e h n) =
    rw
      (not_true (allows_status (some rule) r.status)
        (λ t. n ((allows_status_iff rule allowed r.status e h).0 t)))
      refl
Unstorable-decide_cacheable dec tb fs rule r (no_type globs g e) =
    let off = ap (λ t. allows_content_type (some rule) t) e ∙ untyped rule globs g in
    ground (arith, off)
Unstorable-decide_cacheable dec tb fs rule r (other_type base params e h k s l p n) =
    let iff = allows_content_type_iff rule base params h k s l p in
    let off =
      ap (λ t. allows_content_type (some rule) t) e
      ∙ not_true (allows_content_type (some rule) (some (base ++ params))) (λ t. n (iff.0 t)) in
    ground (arith, off)
Unstorable-decide_cacheable dec tb fs rule r (subrequest e) = ground (arith, e)
Unstorable-decide_cacheable dec tb fs rule r (authorized v e) = ground (arith, e)

module _ (dec : Decimal) (tb : Tables) (fs : FileSystem) (clock : Clock) (q : Request) where
  open fs use {Disk, content}

  module _ (rule : CacherRule) (header_path body_path : Bytes)
      (lengths : length header_path ≡ length body_path + 2) where
    abbrev fresh : CacherOutCtx
    fresh = fresh_ctx rule (header_path, body_path)

    abbrev begun : Bytes → CacherOutCtx
    begun tmp = record fresh { started = true; cacheable = true; tmp_body_path = tmp }

    begun-Captured :
        (tmp body : Bytes) (before : Option Bytes) (d : Disk)
        → Captured dec tb fs clock q (begun tmp) before body d
        → Captured dec tb fs clock q fresh before body d
    unfolding is_complete
    begun-Captured tmp body before d (given_up h f) = given_up h f
    begun-Captured tmp body before d (incomplete h e) = incomplete h e
    begun-Captured tmp body before d (published h b e) = published h b e

    declined-Captured :
        (ctx : CacherOutCtx) (d : Disk) (before : Option Bytes) (body : Bytes) (bs : List Bucket)
        → ctx.cacheable ≡ false
        → content d header_path ≡ before
        → Failure fs
        → Captured dec tb fs clock q fresh before body (loop dec tb fs clock q (ctx, d) bs).1
    declined-Captured ctx d before body bs off h f =
        rw (loop_idle dec tb fs clock q bs ctx d off) (given_up h f)

    record TempOpened (before : Option Bytes) (m : Option Bytes × Disk) : Type 0 where
      header_kept : content m.1 header_path ≡ before
      done :
          (tmp : Bytes)
          → m.0 ≡ some tmp
          → (length tmp ≡ length body_path + 7) × (content m.1 tmp ≡ some [])
      failed : m.0 ≡ none → Failure fs

    opened-Captured :
        (m : Option Bytes × Disk) (before : Option Bytes) (bs : List Bucket)
        → All Readable bs
        → TempOpened before m
        → Captured dec tb fs clock q fresh before
            (body_of bs)
            (loop dec tb fs clock q
              (opened dec tb fs (record fresh { started = true; cacheable = true }) m)
              (bs ++ eos ∷ [])).1
    unfolding opened
    opened-Captured (none, d) before bs r o =
        declined-Captured _ d before (body_of bs) (bs ++ eos ∷ []) refl o.header_kept
          (o.failed refl)
    opened-Captured (some tmp, d) before bs r o =
        let (size, empty) = o.done tmp refl in
        begun-Captured tmp (body_of bs) before _ (
          loop_captured dec tb fs clock q (begun tmp)
            (record { header_length = lengths; tmp_length = size }) refl bs d before [] r
            o.header_kept empty)

    temp_opened :
        (d : Disk) (before : Option Bytes)
        → content d header_path ≡ before
        → TempOpened before (fs.mktemp d (body_path ++ temp_suffix))
    temp_opened d before h =
        let template = body_path ++ temp_suffix in
        let size = length-append body_path temp_suffix in
        record {
          header_kept =
              fs.mktemp_other d template header_path
                (λ e. absurd (omega (arith, fs.mktemp_length d template header_path e)))
              ∙ h;
          done = λ tmp e.
              (omega (arith, fs.mktemp_length d template tmp e), fs.mktemp_empty d template tmp e);
          failed = λ e. mktemp_failed d template e;
        }

    after_dirs-Captured :
        (w : Bool × Disk) (before : Option Bytes) (bs : List Bucket)
        → All Readable bs
        → content w.1 header_path ≡ before
        → (w.0 ≡ false → Failure fs)
        → Captured dec tb fs clock q fresh before
            (body_of bs)
            (loop dec tb fs clock q
              (after_dirs dec tb fs (record fresh { started = true; cacheable = true }) w)
              (bs ++ eos ∷ [])).1
    unfolding after_dirs
    after_dirs-Captured (false, d) before bs r h f =
        declined-Captured _ d before (body_of bs) (bs ++ eos ∷ []) refl h (f refl)
    after_dirs-Captured (true, d) before bs r h f =
        opened-Captured (fs.mktemp d (body_path ++ temp_suffix)) before bs r
          (temp_opened d before h)

    -- From a cacheable response that is read to its end, the filter publishes the header and the
    -- whole body; or the response is not complete, or a call on a file failed, and the header of
    -- the entry is as it was.
    pub output_filter_captures :
        (d : Disk) (bs : List Bucket)
        → decide_cacheable dec tb fs q.r rule ≡ true
        → All Readable bs
        → Captured dec tb fs clock q fresh
            (content d header_path)
            (body_of bs)
            (output_filter dec tb fs clock q fresh d (bs ++ eos ∷ [])).1
    unfolding output_filter start
    output_filter_captures d bs e r =
        let dirs = shard_dir_of (before_last b'/' body_path) in
        rw e (
          after_dirs-Captured (fs.make_dirs d dirs) (content d header_path) bs r
            (fs.make_dirs_content d dirs header_path) (λ f. dirs_failed d dirs f))

    -- A response that may not be stored leaves the disk as it is, whatever its buckets are, and the
    -- filter removes itself: its status is none of those that its rule names; it has no type though
    -- the rule names some, or one that none of their globs matches, of at most 127 bytes without a
    -- '*'; it belongs to a subrequest; or the request carries Authorization.
    pub output_filter_declines :
        (d : Disk) (bs : List Bucket)
        → Unstorable tb rule q.r
        → output_filter dec tb fs clock q fresh d bs
          ≡ (record fresh { started = true; cacheable = false; removed = true }, d)
    unfolding output_filter start
    output_filter_declines d bs u = rw (Unstorable-decide_cacheable dec tb fs rule q.r u) (
        loop_idle dec tb fs clock q bs
          (record fresh { started = true; cacheable = false; removed = true }) d refl)
