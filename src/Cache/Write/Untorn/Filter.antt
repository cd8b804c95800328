-- ===== src/Cache/Write/Untorn/Filter.antt =====
-- `cacher_output_filter` of src/cacher_cache.c over a whole response, whatever calls fail.
use apache_cacher.Prelude.{
  ℕ, zero, suc, Bool, true, false, List, [], ◌∷◌, ◌++◌, append_assoc, append-nil, Option, some,
  Bytes, length, length-append, All, ◌≡◌, ◌≢◌, refl, ◌∙◌, ap, arith,
}
use apache_cacher.Apr.{Decimal, Tables}
use apache_cacher.Request.{Request}
use apache_cacher.Cache.FileSystem.{FileSystem}
use apache_cacher.Cache.Write.{
  CacherOutCtx, Bucket, eos, metadata, bytes, unreadable, Clock, abandon, after_capture,
  capture_bucket, bucket_step, bucket_loop,
}
use apache_cacher.Cache.Write.Publish.{PathsFit}
use apache_cacher.Cache.Write.Buckets.{body_of, loop}
use apache_cacher.Cache.Write.Untorn.{
  Quiet, dropped_temp-Quiet, Safe, Quiet-Safe, finalize_cache_entry-Untorn,
}

-- A bucket that does not end the response; it need not be readable.
abbrev pub NoEnd : Bucket → Type 0
NoEnd eos = ⊥
NoEnd metadata = Unit
NoEnd (bytes s) = Unit
NoEnd (unreadable n) = Unit

-- The bucket was read. The read of a bucket that states no length may fail unnoticed: the code
-- passes over such a bucket.
abbrev pub NotLost : Bucket → Type 0
NotLost eos = Unit
NotLost metadata = Unit
NotLost (bytes s) = Unit
NotLost (unreadable zero) = Unit
NotLost (unreadable (suc n)) = ⊥

by_length : (p q : Bytes) → length p ≢ length q → p ≢ q
by_length p q n e = n (ap length e)

module _ (dec : Decimal) (tb : Tables) (fs : FileSystem) (clock : Clock) (q : Request) where
  open fs use {Disk, content}

  module _ (ctx : CacherOutCtx) (fit : PathsFit ctx) (on : ctx.cacheable ≡ true)
      (header body : Option Bytes) (all_read : Type 0) where
    abbrev at : ℕ → CacherOutCtx
    at n = record ctx { body_len = n }

    abbrev IsQuiet : Disk → Type 0
    IsQuiet = Quiet dec tb fs clock q ctx fit header body

    -- Between two buckets: the bytes so far are in the temporary body, and all is read if the
    -- buckets that are left are; or the filter has stopped.
    pub data Going (acc : Bytes) (left : List Bucket) : CacherOutCtx × Disk → Type 0 where
      capturing :
          (d : Disk)
          → IsQuiet d
          → content d ctx.tmp_body_path ≡ some acc
          → (All NotLost left → all_read)
          → Going acc left (at (length acc), d)
      stopped :
          (c : CacherOutCtx) (d : Disk) → c.cacheable ≡ false → IsQuiet d → Going acc left (c, d)

    abandon-Going :
        (acc : Bytes) (left : List Bucket) (n : ℕ) (d : Disk)
        → IsQuiet d
        → Going acc left (abandon dec tb fs (at n) d)
    unfolding abandon
    abandon-Going acc left n d quiet =
        stopped (record (at n) { cacheable = false; removed = true }) _ refl
          (dropped_temp-Quiet dec tb fs clock q ctx fit header body ctx.tmp_body_path d
            (omega arith) quiet)

    record Wrote (acc : Bytes) (w : Bool × Disk) : Type 0 where
      quiet : IsQuiet w.1
      there : w.0 ≡ true → content w.1 ctx.tmp_body_path ≡ some acc

    after_capture-Going :
        (acc s : Bytes) (left : List Bucket) (w : Bool × Disk)
        → (All NotLost left → all_read)
        → Wrote (acc ++ s) w
        → Going (acc ++ s) left (after_capture dec tb fs (at (length acc)) (length s) w)
    unfolding after_capture
    after_capture-Going acc s left (true, d) rd w =
        rw (← length-append acc s) (capturing d w.quiet (w.there refl) rd)
    after_capture-Going acc s left (false, d) rd w =
        abandon-Going (acc ++ s) left (length acc) d w.quiet

    wrote :
        (d : Disk) (acc s : Bytes)
        → IsQuiet d
        → content d ctx.tmp_body_path ≡ some acc
        → Wrote (acc ++ s) (fs.write_full d ctx.tmp_body_path s)
    wrote d acc s (h, b) t = record {
      quiet = (
        fs.write_other d ctx.tmp_body_path ctx.header_path s (by_length _ _ (omega arith)) ∙ h,
        fs.write_other d ctx.tmp_body_path ctx.body_path s (by_length _ _ (omega arith)) ∙ b,
      );
      there = λ e. fs.write_appends d ctx.tmp_body_path acc s e t;
    }

    abbrev step : CacherOutCtx × Disk → Bucket → CacherOutCtx × Disk
    step = bucket_step dec tb fs clock q

    step_on :
        (n : ℕ) (d : Disk) (b : Bucket)
        → step (at n, d) b ≡ capture_bucket dec tb fs clock q (at n) d b
    unfolding bucket_step
    step_on n d b = simp on

    step_off :
        (c : CacherOutCtx) (d : Disk) (b : Bucket) → c.cacheable ≡ false → step (c, d) b ≡ (c, d)
    unfolding bucket_step
    step_off c d b off = simp off

    bytes_in : Bucket → Bytes
    bytes_in (bytes s) = s
    bytes_in eos = []
    bytes_in metadata = []
    bytes_in (unreadable n) = []

    step-Going :
        (acc : Bytes) (b : Bucket) (left : List Bucket) {st : CacherOutCtx × Disk}
        → NoEnd b
        → Going acc (b ∷ left) st
        → Going (acc ++ bytes_in b) left (step st b)
    unfolding capture_bucket bytes_in
    step-Going acc eos left r g = absurd r
    step-Going acc metadata left r (capturing d z t rd) =
        rw (step_on (length acc) d _, append-nil acc) (capturing d z t (λ h. rd (tt, h)))
    step-Going acc (bytes []) left r (capturing d z t rd) =
        rw (step_on (length acc) d _, append-nil acc) (capturing d z t (λ h. rd (tt, h)))
    step-Going acc (bytes (c ∷ s)) left r (capturing d z t rd) =
        rw (step_on (length acc) d _)
          (after_capture-Going acc (c ∷ s) left _ (λ h. rd (tt, h)) (wrote d acc (c ∷ s) z t))
    step-Going acc (unreadable zero) left r (capturing d z t rd) =
        rw (step_on (length acc) d _, append-nil acc) (capturing d z t (λ h. rd (tt, h)))
    step-Going acc (unreadable (suc n)) left r (capturing d z t rd) =
        rw (step_on (length acc) d _, append-nil acc) (abandon-Going acc left (length acc) d z)
    step-Going acc b left r (stopped c d off z) = rw (step_off c d b off) (stopped c d off z)

    end-Safe :
        (acc : Bytes) {st : CacherOutCtx × Disk}
        → Going acc [] st
        → Safe dec tb fs clock q ctx fit header body acc all_read
            (loop dec tb fs clock q st (eos ∷ [])).1
    unfolding bucket_loop capture_bucket
    end-Safe acc (capturing d z t rd) = rw (step_on (length acc) d eos) (
        finalize_cache_entry-Untorn dec tb fs clock q ctx fit header body acc all_read d (rd tt) z
          t)
    end-Safe acc (stopped c d off z) =
        rw (step_off c d eos off)
          (Quiet-Safe dec tb fs clock q ctx fit header body acc all_read d z)

    body_of_cons : (b : Bucket) (bs : List Bucket) → body_of (b ∷ bs) ≡ bytes_in b ++ body_of bs
    unfolding bytes_in
    body_of_cons eos bs = refl
    body_of_cons metadata bs = refl
    body_of_cons (bytes s) bs = refl
    body_of_cons (unreadable n) bs = refl

    pub loop-Safe :
        (bs : List Bucket) (acc : Bytes) {st : CacherOutCtx × Disk}
        → All NoEnd bs
        → Going acc bs st
        → Safe dec tb fs clock q ctx fit header body
            (acc ++ body_of bs)
            all_read
            (loop dec tb fs clock q st (bs ++ eos ∷ [])).1
    unfolding bucket_loop
    loop-Safe [] acc r g = rw (append-nil acc) (end-Safe acc g)
    loop-Safe (b ∷ bs) acc r g =
        rw (body_of_cons b bs, ← append_assoc acc (bytes_in b) (body_of bs))
          (loop-Safe bs (acc ++ bytes_in b) r.1 (step-Going acc b bs r.0 g))
