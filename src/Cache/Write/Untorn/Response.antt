-- ===== src/Cache/Write/Untorn/Response.antt =====
-- `cacher_output_filter` of src/cacher_cache.c from its first call to the end of a response.
use apache_cacher.Prelude.{
  ◌+◌, Bool, true, false, List, [], ◌∷◌, ◌++◌, Option, none, some, Bytes, length, length-append,
  All, ◌≡◌, ◌∙◌, inl, inr, refl, arith, Bool-cases,
}
use apache_cacher.Apr.{Decimal, Tables}
use apache_cacher.Request.{Request}
use apache_cacher.Rules.{CacherRule}
use apache_cacher.Cache.FileSystem.{FileSystem}
use apache_cacher.Cache.Write.{
  CacherOutCtx, Bucket, eos, Clock, temp_suffix, before_last, shard_dir_of, fresh_ctx, is_complete,
  decide_cacheable, opened, after_dirs, start, output_filter,
}
use apache_cacher.Cache.Write.Buckets.{body_of, loop, loop_idle}
use apache_cacher.Cache.Write.Untorn.{Untorn, kept, published, stuck, mktemp_kept}
use apache_cacher.Cache.Write.Untorn.Filter.{NoEnd, NotLost, capturing, loop-Safe}

module _ (dec : Decimal) (tb : Tables) (fs : FileSystem) (clock : Clock) (q : Request) where
  open fs use {Disk, content}

  module _ (rule : CacherRule) (header_path body_path : Bytes)
      (lengths : length header_path ≡ length body_path + 2) where
    abbrev fresh : CacherOutCtx
    fresh = fresh_ctx rule (header_path, body_path)

    abbrev begun : Bytes → CacherOutCtx
    begun tmp = record fresh { started = true; cacheable = true; tmp_body_path = tmp }

    begun-Untorn :
        (tmp data_of : Bytes) (all_read : Type 0) (header body : Option Bytes) (d : Disk)
        → Untorn dec tb fs clock q (begun tmp) header body data_of all_read d
        → Untorn dec tb fs clock q fresh header body data_of all_read d
    unfolding is_complete
    begun-Untorn tmp data_of all_read header body d (kept h b) = kept h b
    begun-Untorn tmp data_of all_read header body d (published h b e a) = published h b e a
    begun-Untorn tmp data_of all_read header body d (stuck before at from fails gone h b e a) =
        stuck before at from fails gone h b e a

    module _ (header body : Option Bytes) (bs : List Bucket) (r : All NoEnd bs) where
      abbrev IsQuiet : Disk → Type 0
      IsQuiet d = (content d header_path ≡ header) × (content d body_path ≡ body)

      abbrev Ends : CacherOutCtx × Disk → Type 0
      Ends st =
          Untorn dec tb fs clock q fresh header body (body_of bs) (All NotLost bs)
            (loop dec tb fs clock q st (bs ++ eos ∷ [])).1

      declined-Ends :
          (ctx : CacherOutCtx) (d : Disk) → ctx.cacheable ≡ false → IsQuiet d → Ends (ctx, d)
      declined-Ends ctx d off (h, b) =
          rw (loop_idle dec tb fs clock q (bs ++ eos ∷ []) ctx d off) (kept h (inl b))

      record TempOpened (m : Option Bytes × Disk) : Type 0 where
        quiet : IsQuiet m.1
        named :
            (tmp : Bytes)
            → m.0 ≡ some tmp
            → (length tmp ≡ length body_path + 7) × (content m.1 tmp ≡ some [])

      opened-Ends :
          (m : Option Bytes × Disk)
          → TempOpened m
          → Ends (opened dec tb fs (record fresh { started = true; cacheable = true }) m)
      unfolding opened
      opened-Ends (none, d) o = declined-Ends _ d refl o.quiet
      opened-Ends (some tmp, d) o =
          let (size, empty) = o.named tmp refl in
          begun-Untorn tmp (body_of bs) (All NotLost bs) header body _ (
            loop-Safe dec tb fs clock q (begun tmp)
              (record { header_length = lengths; tmp_length = size }) refl header body
              (All NotLost bs) bs [] r (capturing d o.quiet empty (λ h. h)))

      temp_opened : (d : Disk) → IsQuiet d → TempOpened (fs.mktemp d (body_path ++ temp_suffix))
      temp_opened d (h, b) =
          let template = body_path ++ temp_suffix in
          let size = length-append body_path temp_suffix in
          record {
            quiet = (
              mktemp_kept dec tb fs clock q d template header_path (omega arith) ∙ h,
              mktemp_kept dec tb fs clock q d template body_path (omega arith) ∙ b,
            );
            named = λ tmp e. (
              omega (arith, fs.mktemp_length d template tmp e),
              fs.mktemp_empty d template tmp e,
            );
          }

      after_dirs-Ends :
          (w : Bool × Disk)
          → IsQuiet w.1
          → Ends (after_dirs dec tb fs (record fresh { started = true; cacheable = true }) w)
      unfolding after_dirs
      after_dirs-Ends (false, d) quiet = declined-Ends _ d refl quiet
      after_dirs-Ends (true, d) quiet =
          opened-Ends (fs.mktemp d (body_path ++ temp_suffix)) (temp_opened d quiet)

    -- Whatever calls on files fail and whatever buckets cannot be read, a whole response leaves its
    -- entry untorn: the header is as before, and the body as before or removed; or the header of
    -- this response is there with its whole body, the response was complete, and no read of a
    -- bucket that states a length failed; or, where the rename of the header failed and the removal
    -- of the body after it, such a whole body is left below the header as it was before. A bucket
    -- of no stated length that cannot be read counts as empty.
    pub output_filter-Untorn :
        (d : Disk) (bs : List Bucket)
        → All NoEnd bs
        → Untorn dec tb fs clock q fresh
            (content d header_path)
            (content d body_path)
            (body_of bs)
            (All NotLost bs)
            (output_filter dec tb fs clock q fresh d (bs ++ eos ∷ [])).1
    unfolding output_filter start
    output_filter-Untorn d bs r =
        let dirs = shard_dir_of (before_last b'/' body_path) in
        let header = content d header_path in
        let body = content d body_path in
        elim (Bool-cases (decide_cacheable dec tb fs q.r rule)) [
          | inl e ↦ rw e (
              after_dirs-Ends header body bs r (fs.make_dirs d dirs)
                (fs.make_dirs_content d dirs header_path, fs.make_dirs_content d dirs body_path))
          | inr e ↦ rw e (declined-Ends header body bs r _ d refl (refl, refl))
        ]
