-- ===== src/Cache/Write/Brigades.antt =====
-- The calls of `cacher_output_filter` of src/cacher_cache.c for one response, brigade by brigade.
use apache_cacher.Prelude.{
  Bool, true, false, List, [], ◌∷◌, ◌++◌, ◌≡◌, refl, sym, ◌∙◌, ap, if◌then◌else◌, Bool-cases, inl,
  inr, ℕ, zero, suc, Bytes, Option, none, some,
}
use apache_cacher.Apr.{Decimal, Tables}
use apache_cacher.Request.{Request}
use apache_cacher.Cache.FileSystem.{FileSystem}
use apache_cacher.Cache.Write.{
  CacherOutCtx, Bucket, eos, metadata, bytes, unreadable, Clock, abandon, after_capture,
  capture_bucket, bucket_step, bucket_loop, decide_cacheable, opened, after_dirs, start,
  output_filter,
}
use apache_cacher.Cache.Write.Buckets.{loop, loop_idle}

abbrev pub joined : List (List Bucket) → List Bucket
joined [] = []
joined (b ∷ bs) = b ++ joined bs

module _ (dec : Decimal) (tb : Tables) (fs : FileSystem) (clock : Clock) (q : Request) where
  open fs use {Disk}

  -- One call for each brigade of the response, until the filter is removed.
  unfoldable pub filter_brigades : CacherOutCtx × Disk → List (List Bucket) → CacherOutCtx × Disk
  unfolding output_filter
  filter_brigades st [] = st
  filter_brigades (ctx, d) (b ∷ bs) =
      if ctx.removed then (ctx, d) else filter_brigades (output_filter dec tb fs clock q ctx d b) bs

  -- The context after a first call: a filter that was removed captures nothing.
  record Begun (ctx : CacherOutCtx) : Type 0 where
    started : ctx.started ≡ true
    idle : ctx.removed ≡ true → ctx.cacheable ≡ false

  after_capture-Begun :
      (ctx : CacherOutCtx) (len : ℕ) (w : Bool × Disk)
      → Begun ctx
      → Begun (after_capture dec tb fs ctx len w).0
  unfolding after_capture abandon
  after_capture-Begun ctx len (true, d) g = record { started = g.started; idle = g.idle }
  after_capture-Begun ctx len (false, d) g = record { started = g.started; idle = λ e. refl }

  capture_bucket-Begun :
      (ctx : CacherOutCtx) (d : Disk) (b : Bucket)
      → Begun ctx
      → Begun (capture_bucket dec tb fs clock q ctx d b).0
  unfolding capture_bucket abandon
  capture_bucket-Begun ctx d eos g = g
  capture_bucket-Begun ctx d metadata g = g
  capture_bucket-Begun ctx d (bytes []) g = g
  capture_bucket-Begun ctx d (bytes (c ∷ s)) g = after_capture-Begun ctx _ _ g
  capture_bucket-Begun ctx d (unreadable zero) g = g
  capture_bucket-Begun ctx d (unreadable (suc n)) g = record {
    started = g.started;
    idle = λ e. refl;
  }

  step-Begun :
      (ctx : CacherOutCtx) (d : Disk) (b : Bucket)
      → Begun ctx
      → Begun (bucket_step dec tb fs clock q (ctx, d) b).0
  unfolding bucket_step
  step-Begun ctx d b g = elim (Bool-cases ctx.cacheable) [
    | inl e ↦ simp e (capture_bucket-Begun ctx d b g)
    | inr e ↦ simp e g
  ]

  loop-Begun :
      (bs : List Bucket) (st : CacherOutCtx × Disk)
      → Begun st.0
      → Begun (loop dec tb fs clock q st bs).0
  unfolding bucket_loop
  loop-Begun [] st g = g
  loop-Begun (b ∷ bs) (ctx, d) g = loop-Begun bs _ (step-Begun ctx d b g)

  opened-Begun :
      (ctx : CacherOutCtx) (m : Option Bytes × Disk) → Begun ctx → Begun (opened dec tb fs ctx m).0
  unfolding opened
  opened-Begun ctx (none, d) g = record { started = g.started; idle = λ e. refl }
  opened-Begun ctx (some tmp, d) g = record { started = g.started; idle = g.idle }

  after_dirs-Begun :
      (ctx : CacherOutCtx) (w : Bool × Disk) → Begun ctx → Begun (after_dirs dec tb fs ctx w).0
  unfolding after_dirs
  after_dirs-Begun ctx (false, d) g = record { started = g.started; idle = λ e. refl }
  after_dirs-Begun ctx (true, d) g = opened-Begun ctx _ g

  start-Begun :
      (ctx : CacherOutCtx) (d : Disk) → ctx.removed ≡ false → Begun (start dec tb fs q ctx d).0
  unfolding start
  start-Begun ctx d r = elim (Bool-cases (decide_cacheable dec tb fs q.r ctx.rule)) [
    | inl e ↦ rw e (
        after_dirs-Begun (record ctx { started = true; cacheable = true }) _
          (record { started = refl; idle = λ f. absurd (cc (r, f)) }))
    | inr e ↦ rw e (record { started = refl; idle = λ f. refl })
  ]

  loop_append :
      (xs ys : List Bucket) (st : CacherOutCtx × Disk)
      → loop dec tb fs clock q st (xs ++ ys)
        ≡ loop dec tb fs clock q (loop dec tb fs clock q st xs) ys
  unfolding bucket_loop
  loop_append [] ys st = refl
  loop_append (x ∷ xs) ys st = loop_append xs ys (bucket_step dec tb fs clock q st x)

  filter_brigades-Begun :
      (bs : List (List Bucket)) (st : CacherOutCtx × Disk)
      → Begun st.0
      → filter_brigades st bs ≡ loop dec tb fs clock q st (joined bs)
  unfolding filter_brigades output_filter
  filter_brigades-Begun [] st g = refl
  filter_brigades-Begun (b ∷ bs) (ctx, d) g = elim (Bool-cases ctx.removed) [
    | inl e ↦ simp e (sym (loop_idle dec tb fs clock q (b ++ joined bs) ctx d (g.idle e)))
    | inr e ↦
        simp (e, g.started)
          (filter_brigades-Begun bs (loop dec tb fs clock q (ctx, d) b) (loop-Begun b (ctx, d) g)
            ∙ sym (loop_append b (joined bs) (ctx, d)))
  ]

  filter_brigades_on :
      (ctx : CacherOutCtx) (d : Disk) (b : List Bucket) (bs : List (List Bucket))
      → ctx.removed ≡ false
      → filter_brigades (ctx, d) (b ∷ bs)
        ≡ filter_brigades (output_filter dec tb fs clock q ctx d b) bs
  unfolding filter_brigades
  filter_brigades_on ctx d b bs r =
      ap (λ x. if x then (ctx, d) else filter_brigades (output_filter dec tb fs clock q ctx d b) bs)
        r

  output_filter_new :
      (ctx : CacherOutCtx) (d : Disk) (bs : List Bucket)
      → ctx.started ≡ false
      → output_filter dec tb fs clock q ctx d bs
        ≡ loop dec tb fs clock q (start dec tb fs q ctx d) bs
  unfolding output_filter
  output_filter_new ctx d bs s =
      ap (λ x. loop dec tb fs clock q (if x then (ctx, d) else start dec tb fs q ctx d) bs) s

  -- How the server cuts a response into brigades makes no difference to what a new filter does,
  -- to its context or to the disk: the calls together are one call on all the buckets.
  pub filter_brigades-joined :
      (ctx : CacherOutCtx) (d : Disk) (b : List Bucket) (bs : List (List Bucket))
      → ctx.started ≡ false
      → ctx.removed ≡ false
      → filter_brigades (ctx, d) (b ∷ bs) ≡ output_filter dec tb fs clock q ctx d (b ++ joined bs)
  filter_brigades-joined ctx d b bs s r =
      let st = start dec tb fs q ctx d in
      filter_brigades_on ctx d b bs r
      ∙ ap (λ st. filter_brigades st bs) (output_filter_new ctx d b s)
      ∙ filter_brigades-Begun bs (loop dec tb fs clock q st b)
          (loop-Begun b st (start-Begun ctx d r))
      ∙ sym (loop_append b (joined bs) st)
      ∙ sym (output_filter_new ctx d (b ++ joined bs) s)
