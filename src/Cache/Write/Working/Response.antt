-- ===== src/Cache/Write/Working/Response.antt =====
-- `cacher_output_filter` of src/cacher_cache.c over a whole response, on a disk whose calls succeed.
use apache_cacher.Prelude.{
  ◌+◌, Bool, true, false, List, [], ◌∷◌, ◌++◌, Option, none, some, Bytes, length, length-append,
  All, ◌≡◌, ◌≢◌, refl, arith,
}
use apache_cacher.Apr.{Decimal, Tables}
use apache_cacher.Request.{Request}
use apache_cacher.Rules.{CacherRule}
use apache_cacher.Cache.FileSystem.{FileSystem}
use apache_cacher.Cache.Write.{
  CacherOutCtx, Bucket, eos, Clock, temp_suffix, before_last, shard_dir_of, fresh_ctx, is_complete,
  entry_text, decide_cacheable, opened, after_dirs, start, output_filter,
}
use apache_cacher.Cache.Write.Buckets.{Readable, body_of, loop}
use apache_cacher.Cache.Write.Working.{Working, loop-Done}

module _ (dec : Decimal) (tb : Tables) (fs : FileSystem) (clock : Clock) (q : Request) where
  open fs use {Disk, content}

  module _ (rule : CacherRule) (header_path body_path : Bytes)
      (lengths : length header_path ≡ length body_path + 2)
      (wk : Working fs header_path body_path) where
    abbrev fresh : CacherOutCtx
    fresh = fresh_ctx rule (header_path, body_path)

    abbrev begun : Bytes → CacherOutCtx
    begun tmp = record fresh { started = true; cacheable = true; tmp_body_path = tmp }

    abbrev pub Stored : List Bucket → Disk → Type 0
    Stored bs d =
        (content d header_path ≡ some (entry_text dec tb fs clock q fresh))
        × (content d body_path ≡ some (body_of bs))

    module _ (bs : List Bucket) (r : All Readable bs)
        (whole : is_complete dec tb fs q.r (record fresh { body_len = length (body_of bs) })
          ≡ true) where
      begun_whole :
          (tmp : Bytes)
          → is_complete dec tb fs q.r (record (begun tmp) { body_len = length (body_of bs) }) ≡ true
      unfolding is_complete
      begun_whole tmp = whole

      opened-Stored :
          (m : Option Bytes × Disk)
          → m.0 ≢ none
          → ((tmp : Bytes)
              → m.0 ≡ some tmp
              → (length tmp ≡ length body_path + 7) × (content m.1 tmp ≡ some []))
          → wk.Capturing m.1
          → Stored bs
              (loop dec tb fs clock q
                (opened dec tb fs (record fresh { started = true; cacheable = true }) m)
                (bs ++ eos ∷ [])).1
      unfolding opened
      opened-Stored (none, d) n named k = absurd (n refl)
      opened-Stored (some tmp, d) n named k =
          let (size, empty) = named tmp refl in
          loop-Done dec tb fs clock q (begun tmp)
            (record { header_length = lengths; tmp_length = size }) refl wk (body_of bs)
            (begun_whole tmp) bs [] d r k empty refl

      after_dirs-Stored :
          (w : Bool × Disk)
          → w.0 ≡ true
          → wk.Idle w.1
          → Stored bs
              (loop dec tb fs clock q
                (after_dirs dec tb fs (record fresh { started = true; cacheable = true }) w)
                (bs ++ eos ∷ [])).1
      unfolding after_dirs
      after_dirs-Stored (false, d) e k = absurd (cc)
      after_dirs-Stored (true, d) e k =
          let template = body_path ++ temp_suffix in
          let size = length-append body_path temp_suffix in
          let (made, k₂) = wk.body_temp d k in
          opened-Stored (fs.mktemp d template) made
            (λ tmp m.
              (omega (arith, fs.mktemp_length d template tmp m), fs.mktemp_empty d template tmp m))
            k₂

    -- A response is stored: if the filter may store it, all its buckets can be read, it is
    -- complete, and the calls on files succeed from the disk as it is, then after its end the
    -- header file holds the header of this response, and the body file its whole body.
    pub output_filter_stores :
        (d : Disk) (bs : List Bucket)
        → wk.Idle d
        → decide_cacheable dec tb fs q.r rule ≡ true
        → All Readable bs
        → is_complete dec tb fs q.r (record fresh { body_len = length (body_of bs) }) ≡ true
        → Stored bs (output_filter dec tb fs clock q fresh d (bs ++ eos ∷ [])).1
    unfolding output_filter start
    output_filter_stores d bs idle e r whole =
        let (made, k) = wk.dirs d (shard_dir_of (before_last b'/' body_path)) idle in
        rw e (
          after_dirs-Stored bs r whole (fs.make_dirs d (shard_dir_of (before_last b'/' body_path)))
            made k)
