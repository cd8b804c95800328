-- ===== src/Cache/Write/Buckets.antt =====
-- The loop of `cacher_output_filter` in src/cacher_cache.c over the buckets of a response.
use apache_cacher.Prelude.{
  ℕ, ◌+◌, Bool, true, false, List, [], ◌∷◌, ◌++◌, append_assoc, append-nil, Option, some, Bytes,
  length, length-append, All, ◌≡◌, ◌≢◌, inl, inr, refl, ◌∙◌, ap, arith, Bool-cases,
}
use apache_cacher.Apr.{Decimal, Tables}
use apache_cacher.Request.{Request}
use apache_cacher.Cache.FileSystem.{FileSystem}
use apache_cacher.Cache.Write.{
  CacherOutCtx, Bucket, eos, metadata, bytes, unreadable, Clock, is_complete, entry_text,
  finalize_cache_entry, abandon, after_capture, capture_bucket, bucket_step, bucket_loop,
}
use apache_cacher.Cache.Write.Publish.{
  Failure, write_failed, PathsFit, finalize_cache_entry_complete, finalize_cache_entry_incomplete,
}

-- A bucket that can be read and does not end the response.
abbrev pub Readable : Bucket → Type 0
Readable eos = ⊥
Readable metadata = Unit
Readable (bytes s) = Unit
Readable (unreadable n) = ⊥

-- The bytes of the response.
abbrev pub body_of : List Bucket → Bytes
body_of [] = []
body_of (bytes s ∷ bs) = s ++ body_of bs
body_of (_ ∷ bs) = body_of bs

by_length : (p q : Bytes) → length p ≢ length q → p ≢ q
by_length p q n e = n (ap length e)

module _ (dec : Decimal) (tb : Tables) (fs : FileSystem) (clock : Clock) (q : Request) where
  open fs use {Disk, content}

  abbrev pub loop : CacherOutCtx × Disk → List Bucket → CacherOutCtx × Disk
  loop = bucket_loop dec tb fs clock q

  -- What the response has become: not complete, or given up, with the header as it was, or there.
  pub data Captured (ctx : CacherOutCtx) (before : Option Bytes) (body : Bytes) (d : Disk)
      : Type 0 where
    given_up : content d ctx.header_path ≡ before → Failure fs → Captured ctx before body d
    incomplete :
        content d ctx.header_path ≡ before
        → is_complete dec tb fs q.r (record ctx { body_len = length body }) ≡ false
        → Captured ctx before body d
    published :
        content d ctx.header_path ≡ some (entry_text dec tb fs clock q ctx)
        → content d ctx.body_path ≡ some body
        → is_complete dec tb fs q.r (record ctx { body_len = length body }) ≡ true
        → Captured ctx before body d

  -- Once the context is not cacheable the loop does nothing.
  pub loop_idle :
      (bs : List Bucket) (ctx : CacherOutCtx) (d : Disk)
      → ctx.cacheable ≡ false
      → loop (ctx, d) bs ≡ (ctx, d)
  unfolding bucket_loop bucket_step
  loop_idle [] ctx d h = refl
  loop_idle (b ∷ bs) ctx d h = simp h (loop_idle bs ctx d h)

  module _ (ctx : CacherOutCtx) (fit : PathsFit ctx) (on : ctx.cacheable ≡ true) where
    abbrev pub at : ℕ → CacherOutCtx
    at n = record ctx { body_len = n }

    abbrev pub Result : Option Bytes → Bytes → CacherOutCtx × Disk → Type 0
    Result before body st = Captured ctx before body st.1

    fit_at : (n : ℕ) → PathsFit (at n)
    fit_at n = record { header_length = fit.header_length; tmp_length = fit.tmp_length }

    finish-Captured :
        (d : Disk) (before : Option Bytes) (body : Bytes)
        → content d ctx.header_path ≡ before
        → content d ctx.tmp_body_path ≡ some body
        → Captured ctx before body (finalize_cache_entry dec tb fs clock q (at (length body)) d)
    finish-Captured d before body h b =
        elim (Bool-cases (is_complete dec tb fs q.r (at (length body)))) [
          | inl e ↦
              elim (finalize_cache_entry_complete dec tb fs clock q (at (length body)) d body
                (fit_at (length body)) b e) [
                  | inl (kept, f) ↦ given_up (kept ∙ h) f
                  | inr (head, there) ↦ published head there e
                ]
          | inr e ↦
              incomplete
                ((finalize_cache_entry_incomplete dec tb fs clock q (at (length body)) d
                    (fit_at (length body)) e).0
                  ∙ h)
                e
        ]

    loop_eos :
        (d : Disk) (n : ℕ)
        → loop (at n, d) (eos ∷ []) ≡ (at n, finalize_cache_entry dec tb fs clock q (at n) d)
    unfolding bucket_loop bucket_step capture_bucket
    loop_eos d n = simp on

    loop_metadata :
        (d : Disk) (n : ℕ) (bs : List Bucket) → loop (at n, d) (metadata ∷ bs) ≡ loop (at n, d) bs
    unfolding bucket_loop bucket_step capture_bucket
    loop_metadata d n bs = simp on

    loop_empty :
        (d : Disk) (n : ℕ) (bs : List Bucket) → loop (at n, d) (bytes [] ∷ bs) ≡ loop (at n, d) bs
    unfolding bucket_loop bucket_step capture_bucket
    loop_empty d n bs = simp on

    loop_bytes :
        (d : Disk) (n c : ℕ) (s : Bytes) (bs : List Bucket)
        → loop (at n, d) (bytes (c ∷ s) ∷ bs)
          ≡ loop
              (after_capture dec tb fs
                (at n)
                (length (c ∷ s))
                (fs.write_full d ctx.tmp_body_path (c ∷ s)))
              bs
    unfolding bucket_loop bucket_step capture_bucket
    loop_bytes d n c s bs = simp on

    -- What a write to the temporary body does, as a value and what is known of it.
    record Wrote (before : Option Bytes) (acc : Bytes) (w : Bool × Disk) : Type 0 where
      header_kept : content w.1 ctx.header_path ≡ before
      done : w.0 ≡ true → content w.1 ctx.tmp_body_path ≡ some acc
      failed : w.0 ≡ false → Failure fs

    written :
        (d : Disk) (before : Option Bytes) (acc s : Bytes)
        → content d ctx.header_path ≡ before
        → content d ctx.tmp_body_path ≡ some acc
        → Wrote before (acc ++ s) (fs.write_full d ctx.tmp_body_path s)
    written d before acc s h b = record {
      header_kept =
          fs.write_other d ctx.tmp_body_path ctx.header_path s (by_length _ _ (omega arith)) ∙ h;
      done = λ e. fs.write_appends d ctx.tmp_body_path acc s e b;
      failed = λ e. write_failed d ctx.tmp_body_path s e;
    }

    after_capture_given_up :
        (before : Option Bytes) (body : Bytes) (n len : ℕ) (d : Disk) (bs : List Bucket)
        → content d ctx.header_path ≡ before
        → Failure fs
        → Result before body (loop (after_capture dec tb fs (at n) len (false, d)) bs)
    unfolding after_capture abandon
    after_capture_given_up before body n len d bs h f =
        rw (loop_idle bs (record (at n) { cacheable = false; removed = true }) _ refl) (
          given_up
            (fs.remove_other d ctx.tmp_body_path ctx.header_path (by_length _ _ (omega arith)) ∙ h)
            f)

    after_capture_done :
        (n len : ℕ) (d : Disk) → after_capture dec tb fs (at n) len (true, d) ≡ (at (n + len), d)
    unfolding after_capture
    after_capture_done n len d = refl

    loop_written :
        (w : Bool × Disk) (before : Option Bytes) (acc : Bytes) (c : ℕ) (s : Bytes)
        (bs : List Bucket)
        → Wrote before (acc ++ c ∷ s) w
        → ((d : Disk)
            → content d ctx.header_path ≡ before
            → content d ctx.tmp_body_path ≡ some (acc ++ c ∷ s)
            → Result before
                ((acc ++ c ∷ s) ++ body_of bs)
                (loop (at (length (acc ++ c ∷ s)), d) (bs ++ eos ∷ [])))
        → Result before
            (acc ++ (c ∷ s ++ body_of bs))
            (loop (after_capture dec tb fs (at (length acc)) (length (c ∷ s)) w) (bs ++ eos ∷ []))
    loop_written (false, d) before acc c s bs w next =
        after_capture_given_up before _ (length acc) (length (c ∷ s)) d (bs ++ eos ∷ [])
          w.header_kept (w.failed refl)
    loop_written (true, d) before acc c s bs w next =
        rw
          (
            after_capture_done (length acc) (length (c ∷ s)) d,
            ← length-append acc (c ∷ s),
            ← append_assoc acc (c ∷ s) (body_of bs),
          )
          (next d w.header_kept (w.done refl))

    -- The rest of a response, behind the bytes `acc` that are captured.
    pub loop_captured :
        (bs : List Bucket) (d : Disk) (before : Option Bytes) (acc : Bytes)
        → All Readable bs
        → content d ctx.header_path ≡ before
        → content d ctx.tmp_body_path ≡ some acc
        → Result before (acc ++ body_of bs) (loop (at (length acc), d) (bs ++ eos ∷ []))
    loop_captured [] d before acc r h b =
        rw (loop_eos d (length acc), append-nil acc) (finish-Captured d before acc h b)
    loop_captured (eos ∷ bs) d before acc r h b = absurd r.0
    loop_captured (unreadable n ∷ bs) d before acc r h b = absurd r.0
    loop_captured (metadata ∷ bs) d before acc r h b =
        rw (loop_metadata d (length acc) (bs ++ eos ∷ [])) (loop_captured bs d before acc r.1 h b)
    loop_captured (bytes [] ∷ bs) d before acc r h b =
        rw (loop_empty d (length acc) (bs ++ eos ∷ [])) (loop_captured bs d before acc r.1 h b)
    loop_captured (bytes (c ∷ s) ∷ bs) d before acc r h b =
        rw (loop_bytes d (length acc) c s (bs ++ eos ∷ [])) (
          loop_written (fs.write_full d ctx.tmp_body_path (c ∷ s)) before acc c s bs
            (written d before acc (c ∷ s) h b)
            (λ d' h' b'. loop_captured bs d' before (acc ++ c ∷ s) r.1 h' b'))
