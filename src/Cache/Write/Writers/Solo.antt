-- ===== src/Cache/Write/Writers/Solo.antt =====
-- One request alone takes the turns that make up `cacher_output_filter` of src/cacher_cache.c.
use apache_cacher.Prelude.{
  ℕ, zero, suc, ◌+◌, Bool, true, false, List, [], ◌∷◌, ◌++◌, Option, none, some, Bytes, length, All,
  ◌≡◌, refl, sym, ap, subst, Bool-cases, inl, inr,
}
use apache_cacher.Apr.{Decimal, Tables}
use apache_cacher.Cache.FileSystem.{FileSystem}
use apache_cacher.Cache.Write.{
  CacherOutCtx, Bucket, eos, metadata, bytes, unreadable, temp_suffix, before_last, shard_dir_of,
  fresh_ctx, is_complete, withdraw, rename_header, rename_body, after_write, after_mktemp,
  entry_text, finalize_cache_entry, abandon, after_capture, capture_bucket, bucket_step,
  bucket_loop, decide_cacheable, opened, after_dirs, start, output_filter,
}
use apache_cacher.Cache.Write.Buckets.{loop, loop_idle}
use apache_cacher.Cache.Write.Untorn.Filter.{NoEnd}
use apache_cacher.Cache.Write.Writers.{
  Job, Phase, waiting, with_dirs, capturing, header_open, header_written, body_moved, removing,
  finished, ctx_of, Turn, when, with_temp, bucket_turn, turn,
}

module _ (dec : Decimal) (tb : Tables) (fs : FileSystem) (job : Job) where
  open fs use {Disk}

  -- A request that takes its turns alone, from a phase and a disk to the disk at its end.
  pub data Runs : Phase → Disk → Disk → Type 0 where
    ends : {d : Disk} → Runs finished d d
    more :
        {p : Phase} {d d' : Disk}
        → Runs (turn dec tb fs job p d).phase (turn dec tb fs job p d).disk d'
        → Runs p d d'

  abbrev RunsOn : Turn dec tb fs → Disk → Type 0
  RunsOn t d' = Runs t.phase t.disk d'

  removes_none : (d : Disk) → Runs (removing []) d d
  unfolding turn
  removes_none d = more ends

  removes :
      (p : Bytes) (ps : List Bytes) (d d' : Disk)
      → Runs (removing ps) (fs.remove d p) d'
      → Runs (removing (p ∷ ps)) d d'
  unfolding turn
  removes p ps d d' r = more r

  module _ (tmp : Bytes) (len : ℕ) where
    abbrev ctx : CacherOutCtx
    ctx = ctx_of job tmp len

    withdraw-Runs :
        (header : Bytes) (d : Disk)
        → Runs (removing (tmp ∷ header ∷ job.body_path ∷ [])) d (withdraw dec tb fs ctx header d)
    unfolding withdraw
    withdraw-Runs header d = removes _ _ _ _ (removes _ _ _ _ (removes _ _ _ _ (removes_none _)))

    rename_header-Runs :
        (header : Bytes) (w : Bool × Disk)
        → RunsOn
            (when dec tb fs finished (removing (tmp ∷ header ∷ job.body_path ∷ [])) w)
            (rename_header dec tb fs ctx header w)
    unfolding rename_header
    rename_header-Runs header (true, d) = ends
    rename_header-Runs header (false, d) = withdraw-Runs header d

    rename_body-Runs :
        (header : Bytes) (w : Bool × Disk)
        → RunsOn
            (when dec tb fs
              (body_moved tmp header)
              (removing (tmp ∷ header ∷ job.body_path ∷ []))
              w)
            (rename_body dec tb fs ctx header w)
    unfolding rename_body turn
    rename_body-Runs header (true, d) =
        more (rename_header-Runs header (fs.rename d header job.header_path))
    rename_body-Runs header (false, d) = withdraw-Runs header d

    after_write-Runs :
        (header : Bytes) (w : Bool × Disk)
        → RunsOn
            (when dec tb fs (header_written tmp header) (removing (header ∷ tmp ∷ [])) w)
            (after_write dec tb fs ctx header w)
    unfolding after_write turn
    after_write-Runs header (true, d) =
        more (rename_body-Runs header (fs.rename d tmp job.body_path))
    after_write-Runs header (false, d) = removes _ _ _ _ (removes _ _ _ _ (removes_none _))

    after_mktemp-Runs :
        (m : Option Bytes × Disk)
        → RunsOn
            (with_temp dec tb fs (header_open tmp) (removing (tmp ∷ [])) m)
            (after_mktemp dec tb fs ctx (entry_text dec tb fs job.clock job.request ctx) m)
    unfolding after_mktemp turn
    after_mktemp-Runs (some header, d) = more (
        after_write-Runs header
          (fs.write_full d header (entry_text dec tb fs job.clock job.request ctx)))
    after_mktemp-Runs (none, d) = removes _ _ _ _ (removes_none _)

    finalize-Runs :
        (d : Disk) (bs : List Bucket)
        → RunsOn
            (bucket_turn dec tb fs job tmp len bs eos d)
            (finalize_cache_entry dec tb fs job.clock job.request ctx d)
    unfolding bucket_turn finalize_cache_entry
    finalize-Runs d bs = elim (Bool-cases (is_complete dec tb fs job.request.r ctx)) [
      | inl e ↦ rw e (after_mktemp-Runs (fs.mktemp d (job.header_path ++ temp_suffix)))
      | inr e ↦ rw e (removes _ _ _ _ (removes_none _))
    ]

  abbrev looped : CacherOutCtx × Disk → List Bucket → Disk
  looped st bs = (loop dec tb fs job.clock job.request st bs).1

  loop_on :
      (tmp : Bytes) (len : ℕ) (d : Disk) (b : Bucket) (bs : List Bucket)
      → looped (ctx_of job tmp len, d) (b ∷ bs)
        ≡ looped (capture_bucket dec tb fs job.clock job.request (ctx_of job tmp len) d b) bs
  unfolding bucket_loop bucket_step
  loop_on tmp len d b bs = refl

  loop_nil : (st : CacherOutCtx × Disk) → looped st [] ≡ st.1
  unfolding bucket_loop
  loop_nil st = refl

  looped_idle :
      (c : CacherOutCtx) (d : Disk) (bs : List Bucket) → c.cacheable ≡ false → looped (c, d) bs ≡ d
  looped_idle c d bs off = ap (λ st. st.1) (loop_idle dec tb fs job.clock job.request bs c d off)

  abandoned-Runs :
      (tmp : Bytes) (len : ℕ) (d : Disk) (bs : List Bucket)
      → Runs (removing (tmp ∷ [])) d (looped (abandon dec tb fs (ctx_of job tmp len) d) bs)
  unfolding abandon
  abandoned-Runs tmp len d bs =
      subst (λ x. Runs (removing (tmp ∷ [])) d x)
        (sym (
          looped_idle (record (ctx_of job tmp len) { cacheable = false; removed = true })
            (fs.remove d tmp) bs refl))
        (removes _ _ _ _ (removes_none _))

  wrote-Runs :
      (tmp : Bytes) (len n : ℕ) (w : Bool × Disk) (bs : List Bucket)
      → ((d : Disk) → Runs (capturing tmp (len + n) bs) d (looped (ctx_of job tmp (len + n), d) bs))
      → RunsOn
          (when dec tb fs (capturing tmp (len + n) bs) (removing (tmp ∷ [])) w)
          (looped (after_capture dec tb fs (ctx_of job tmp len) n w) bs)
  unfolding after_capture
  wrote-Runs tmp len n (true, d) bs next = next d
  wrote-Runs tmp len n (false, d) bs next = abandoned-Runs tmp len d bs

  loop-Runs :
      (bs : List Bucket) (tmp : Bytes) (len : ℕ) (d : Disk)
      → All NoEnd bs
      → Runs
          (capturing tmp len (bs ++ eos ∷ []))
          d
          (looped (ctx_of job tmp len, d) (bs ++ eos ∷ []))
  unfolding turn bucket_turn capture_bucket
  loop-Runs [] tmp len d r =
      rw (loop_on tmp len d eos [], loop_nil) (more (finalize-Runs tmp len d []))
  loop-Runs (eos ∷ bs) tmp len d r = absurd r.0
  loop-Runs (metadata ∷ bs) tmp len d r =
      rw (loop_on tmp len d metadata (bs ++ eos ∷ [])) (more (loop-Runs bs tmp len d r.1))
  loop-Runs (bytes [] ∷ bs) tmp len d r =
      rw (loop_on tmp len d (bytes []) (bs ++ eos ∷ [])) (more (loop-Runs bs tmp len d r.1))
  loop-Runs (unreadable zero ∷ bs) tmp len d r =
      rw (loop_on tmp len d (unreadable zero) (bs ++ eos ∷ [])) (more (loop-Runs bs tmp len d r.1))
  loop-Runs (unreadable (suc n) ∷ bs) tmp len d r =
      rw (loop_on tmp len d (unreadable (suc n)) (bs ++ eos ∷ []))
        (more (abandoned-Runs tmp len d (bs ++ eos ∷ [])))
  loop-Runs (bytes (c ∷ s) ∷ bs) tmp len d r =
      rw (loop_on tmp len d (bytes (c ∷ s)) (bs ++ eos ∷ [])) (
        more (
          wrote-Runs tmp len (length (c ∷ s)) (fs.write_full d tmp (c ∷ s)) (bs ++ eos ∷ [])
            (λ d'. loop-Runs bs tmp (len + length (c ∷ s)) d' r.1)))

  module _ (bs : List Bucket) (r : All NoEnd bs) (sends : job.buckets ≡ bs ++ eos ∷ []) where
    abbrev fresh : CacherOutCtx
    fresh = fresh_ctx job.rule (job.header_path, job.body_path)

    abbrev begun : CacherOutCtx
    begun = record fresh { started = true; cacheable = true }

    declined-Runs :
        (c : CacherOutCtx) (d : Disk)
        → c.cacheable ≡ false
        → Runs finished d (looped (c, d) (bs ++ eos ∷ []))
    declined-Runs c d off =
        subst (λ x. Runs finished d x) (sym (looped_idle c d (bs ++ eos ∷ []) off)) ends

    opened-Runs :
        (m : Option Bytes × Disk)
        → RunsOn
            (with_temp dec tb fs (λ tmp. capturing tmp 0 job.buckets) finished m)
            (looped (opened dec tb fs begun m) (bs ++ eos ∷ []))
    unfolding opened
    opened-Runs (none, d) = declined-Runs _ d refl
    opened-Runs (some tmp, d) =
        subst (λ x. Runs (capturing tmp 0 x) d (looped (ctx_of job tmp 0, d) (bs ++ eos ∷ [])))
          (sym sends) (loop-Runs bs tmp 0 d r)

    after_dirs-Runs :
        (w : Bool × Disk)
        → RunsOn
            (when dec tb fs with_dirs finished w)
            (looped (after_dirs dec tb fs begun w) (bs ++ eos ∷ []))
    unfolding after_dirs turn
    after_dirs-Runs (true, d) = more (opened-Runs (fs.mktemp d (job.body_path ++ temp_suffix)))
    after_dirs-Runs (false, d) = declined-Runs _ d refl

    -- A request that takes its turns alone comes to its end, and leaves the disk as one call of the
    -- filter on all of its buckets does, of which only the last ends the response.
    pub output_filter-Runs :
        (d : Disk)
        → Runs waiting d (output_filter dec tb fs job.clock job.request fresh d (bs ++ eos ∷ [])).1
    unfolding output_filter start turn
    output_filter-Runs d = elim (Bool-cases (decide_cacheable dec tb fs job.request.r job.rule)) [
      | inl e ↦
          more (
            rw e (after_dirs-Runs (fs.make_dirs d (shard_dir_of (before_last b'/' job.body_path)))))
      | inr e ↦ more (rw e (declined-Runs _ d refl))
    ]
