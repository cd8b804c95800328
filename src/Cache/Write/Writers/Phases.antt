-- ===== src/Cache/Write/Writers/Phases.antt =====
-- Every turn of a request in the filter of src/cacher_cache.c does what it is allowed to do.
use apache_cacher.Prelude.{
  ℕ, zero, suc, ◌+◌, Bool, true, false, List, [], ◌∷◌, ◌++◌, append_assoc, append-nil, Option, some,
  Bytes, length, length-append, ◌≡◌, ◌≢◌, inl, inr, refl, sym, ◌∙◌, ap, arith, Bool-cases,
}
use apache_cacher.Apr.{Decimal, Tables}
use apache_cacher.Cache.FileSystem.{FileSystem}
use apache_cacher.Cache.Write.{
  Bucket, eos, metadata, bytes, unreadable, temp_suffix, before_last, shard_dir_of, is_complete,
  decide_cacheable,
}
use apache_cacher.Cache.Write.Writers.{
  Job, Phase, waiting, with_dirs, capturing, header_open, header_written, body_moved, removing,
  finished, ctx_of, sent, Turn, when, bucket_turn, turn,
}
use apache_cacher.Cache.Write.Writers.Invariant.{
  text_of, header_of, body_of_job, Whole_by, Capturing, Stands,
}
use apache_cacher.Cache.Write.Writers.Turns.{
  Sound, on-Sound, write-Sound, mktemp-Sound, rename-Sound, remove-Sound, claimed, claim_kept,
}

by_length : (p q : Bytes) → length p ≢ length q → p ≢ q
by_length p q n e = n (ap length e)

module _ (dec : Decimal) (tb : Tables) (fs : FileSystem) (jobs : ℕ → Job) (size : ℕ) (d₀ : fs.Disk)
    (owner : Bytes → Option ℕ) (i : ℕ) (header_long : length (jobs i).header_path ≡ size + 2)
    (body_long : length (jobs i).body_path ≡ size) where
  open fs use {Disk, content}

  abbrev job : Job
  job = jobs i

  abbrev IsSound : (d : Disk) → Turn dec tb fs → Type 0
  IsSound = Sound dec tb fs jobs size d₀ owner i

  abbrev StandsIn : Disk → Phase → Type 0
  StandsIn d = Stands dec tb fs jobs size d₀ d owner i

  kept-Sound :
      (d : Disk) (w : Bool × Disk)
      → ((x : Bytes) → content w.1 x ≡ content d x)
      → IsSound d (when dec tb fs with_dirs finished w)
  kept-Sound d (true, d') kept = record {
    entries = λ x small. Whole_by dec tb fs jobs size d₀ x (kept x);
    others = λ x large o _. kept x;
    stands = tt;
  }
  kept-Sound d (false, d') kept = record {
    entries = λ x small. Whole_by dec tb fs jobs size d₀ x (kept x);
    others = λ x large o _. kept x;
    stands = tt;
  }

  waiting-Sound : (d : Disk) → IsSound d (turn dec tb fs job waiting d)
  unfolding turn
  waiting-Sound d = elim (Bool-cases (decide_cacheable dec tb fs job.request.r job.rule)) [
    | inl e ↦
        let p = shard_dir_of (before_last b'/' job.body_path) in
        rw e (kept-Sound d (fs.make_dirs d p) (λ x. fs.make_dirs_content d p x))
    | inr e ↦ rw e (on-Sound dec tb fs jobs size d₀ owner i d finished tt)
  ]

  with_dirs-Sound : (d : Disk) → IsSound d (turn dec tb fs job with_dirs d)
  unfolding turn
  with_dirs-Sound d =
      let t = job.body_path ++ temp_suffix in
      let long = length-append job.body_path temp_suffix in
      mktemp-Sound dec tb fs jobs size d₀ owner i d 7 (fs.mktemp d t)
        (λ tmp. capturing tmp 0 job.buckets) finished (fs.mktemp_other d t)
        (λ x e. (omega (arith, fs.mktemp_length d t x e), fs.mktemp_empty d t x e)) (omega arith)
        (λ tmp e tmp_long empty. record {
          acc = [];
          mine = record { owned = claimed dec tb fs jobs size d₀ owner i tmp; long = tmp_long };
          there = empty;
          counted = refl;
          rest = refl;
          reads_rest = λ h. h;
        })
        tt

  header_template_long : length (job.header_path ++ temp_suffix) ≡ size + 9
  header_template_long = omega (arith, length-append job.header_path temp_suffix, header_long)

  is_complete_at :
      (tmp : Bytes) (len : ℕ)
      → is_complete dec tb fs job.request.r (ctx_of job tmp len)
        ≡ is_complete dec tb fs job.request.r (ctx_of job [] len)
  unfolding is_complete
  is_complete_at tmp len = refl

  module _ (d : Disk) (tmp : Bytes) (len : ℕ) (bs : List Bucket) where
    abbrev Stays : Type 0
    Stays = Capturing dec tb fs jobs size d₀ d owner i tmp len bs

    eos-Sound :
        Capturing dec tb fs jobs size d₀ d owner i tmp len (eos ∷ bs)
        → IsSound d (bucket_turn dec tb fs job tmp len bs eos d)
    unfolding bucket_turn
    eos-Sound c = elim (Bool-cases (is_complete dec tb fs job.request.r (ctx_of job tmp len))) [
      | inl e ↦
          let t = job.header_path ++ temp_suffix in
          let long = header_template_long in
          let all = sym (append-nil c.acc) ∙ c.rest in
          rw e (
            mktemp-Sound dec tb fs jobs size d₀ owner i d 9 (fs.mktemp d t) (header_open tmp)
              (removing (tmp ∷ [])) (fs.mktemp_other d t)
              (λ x h. (omega (arith, fs.mktemp_length d t x h, long), fs.mktemp_empty d t x h))
              (omega arith)
              (λ header h header_long empty. record {
                mine = record {
                  owned = claim_kept dec tb fs jobs size d₀ owner i header tmp c.mine.owned;
                  long = c.mine.long;
                };
                there =
                    fs.mktemp_other d t tmp
                      (λ j. absurd (omega (arith, fs.mktemp_length d t tmp j, c.mine.long, long)))
                    ∙ (c.there ∙ ap (λ s. some s) all);
                complete = (
                  ap (λ n. is_complete dec tb fs job.request.r (ctx_of job [] n))
                        (sym (c.counted ∙ ap length all))
                      ∙ (sym (is_complete_at tmp len) ∙ e),
                  c.reads_rest tt,
                );
                header_mine = record {
                  owned = claimed dec tb fs jobs size d₀ owner i header;
                  long = header_long;
                };
                header_there = empty;
              })
              (inl c.mine, tt))
      | inr e ↦
          rw e (on-Sound dec tb fs jobs size d₀ owner i d (removing (tmp ∷ [])) (inl c.mine, tt))
    ]

    bytes-Sound :
        (b : ℕ) (s : Bytes)
        → Capturing dec tb fs jobs size d₀ d owner i tmp len (bytes (b ∷ s) ∷ bs)
        → IsSound d (bucket_turn dec tb fs job tmp len bs (bytes (b ∷ s)) d)
    unfolding bucket_turn
    bytes-Sound b s c =
        write-Sound dec tb fs jobs size d₀ owner i d tmp 7 (fs.write_full d tmp (b ∷ s))
          (capturing tmp (len + length (b ∷ s)) bs) (removing (tmp ∷ []))
          (λ x n. fs.write_other d tmp x (b ∷ s) n) (omega arith) c.mine
          (λ e. record {
            acc = c.acc ++ (b ∷ s);
            mine = c.mine;
            there = fs.write_appends d tmp c.acc (b ∷ s) e c.there;
            counted = omega (arith, c.counted, length-append c.acc (b ∷ s));
            rest = append_assoc c.acc (b ∷ s) (sent bs) ∙ c.rest;
            reads_rest = c.reads_rest;
          })
          (λ e. (inl c.mine, tt))

  bucket_turn-Sound :
      (b : Bucket) (d : Disk) (tmp : Bytes) (len : ℕ) (bs : List Bucket)
      → Capturing dec tb fs jobs size d₀ d owner i tmp len (b ∷ bs)
      → IsSound d (bucket_turn dec tb fs job tmp len bs b d)
  unfolding bucket_turn
  bucket_turn-Sound eos d tmp len bs c = eos-Sound d tmp len bs c
  bucket_turn-Sound (bytes (b ∷ s)) d tmp len bs c = bytes-Sound d tmp len bs b s c
  bucket_turn-Sound metadata d tmp len bs c =
      on-Sound dec tb fs jobs size d₀ owner i d (capturing tmp len bs) (record {
        acc = c.acc;
        mine = c.mine;
        there = c.there;
        counted = c.counted;
        rest = c.rest;
        reads_rest = c.reads_rest;
      })
  bucket_turn-Sound (bytes []) d tmp len bs c =
      on-Sound dec tb fs jobs size d₀ owner i d (capturing tmp len bs) (record {
        acc = c.acc;
        mine = c.mine;
        there = c.there;
        counted = c.counted;
        rest = c.rest;
        reads_rest = c.reads_rest;
      })
  bucket_turn-Sound (unreadable zero) d tmp len bs c =
      on-Sound dec tb fs jobs size d₀ owner i d (capturing tmp len bs) (record {
        acc = c.acc;
        mine = c.mine;
        there = c.there;
        counted = c.counted;
        rest = c.rest;
        reads_rest = c.reads_rest;
      })
  bucket_turn-Sound (unreadable (suc n)) d tmp len bs c =
      on-Sound dec tb fs jobs size d₀ owner i d (removing (tmp ∷ [])) (inl c.mine, tt)

  text_written-Sound :
      (d : Disk) (tmp header : Bytes)
      → StandsIn d (header_open tmp header)
      → IsSound d (turn dec tb fs job (header_open tmp header) d)
  unfolding turn
  text_written-Sound d tmp header p =
      let text = text_of dec tb fs jobs size d₀ i in
      write-Sound dec tb fs jobs size d₀ owner i d header 9 (fs.write_full d header text)
        (header_written tmp header) (removing (header ∷ tmp ∷ []))
        (λ x n. fs.write_other d header x text n) (omega arith) p.header_mine
        (λ e. record {
          mine = p.mine;
          there =
              fs.write_other d header tmp text
                (by_length _ _ (omega (arith, p.mine.long, p.header_mine.long)))
              ∙ p.there;
          complete = p.complete;
          header_mine = p.header_mine;
          header_there = fs.write_appends d header [] text e p.header_there;
        })
        (λ e. (inr (inl p.header_mine), (inl p.mine, tt)))

  body_moved-Sound :
      (d : Disk) (tmp header : Bytes)
      → StandsIn d (header_written tmp header)
      → IsSound d (turn dec tb fs job (header_written tmp header) d)
  unfolding turn
  body_moved-Sound d tmp header p =
      rename-Sound dec tb fs jobs size d₀ owner i d tmp job.body_path 7 (body_moved tmp header)
        (removing (tmp ∷ header ∷ job.body_path ∷ [])) (omega arith) p.mine
        (omega (arith, body_long)) (λ e. body_of_job i refl (e ∙ p.there) p.complete)
        (λ e. record {
          mine = p.mine;
          complete = p.complete;
          header_mine = p.header_mine;
          header_there =
              fs.rename_other d tmp job.body_path header
                (by_length _ _ (omega (arith, p.mine.long, p.header_mine.long)))
                (by_length _ _ (omega (arith, body_long, p.header_mine.long)))
              ∙ p.header_there;
        })
        (λ e. (inl p.mine, (inr (inl p.header_mine), (inr (inr body_long), tt))))

  header_moved-Sound :
      (d : Disk) (tmp header : Bytes)
      → StandsIn d (body_moved tmp header)
      → IsSound d (turn dec tb fs job (body_moved tmp header) d)
  unfolding turn
  header_moved-Sound d tmp header p =
      rename-Sound dec tb fs jobs size d₀ owner i d header job.header_path 9 finished
        (removing (tmp ∷ header ∷ job.body_path ∷ [])) (omega arith) p.header_mine
        (omega (arith, header_long)) (λ e. header_of i refl (e ∙ p.header_there) p.complete)
        (λ e. tt) (λ e. (inl p.mine, (inr (inl p.header_mine), (inr (inr body_long), tt))))

  -- Whatever a request's phase is, its turn changes the files of entries, its own temporary files
  -- and nothing else, and it leaves it where it stands.
  pub turn-Sound : (p : Phase) (d : Disk) → StandsIn d p → IsSound d (turn dec tb fs job p d)
  unfolding turn
  turn-Sound waiting d s = waiting-Sound d
  turn-Sound with_dirs d s = with_dirs-Sound d
  turn-Sound (capturing tmp len []) d s = on-Sound dec tb fs jobs size d₀ owner i d finished tt
  turn-Sound (capturing tmp len (b ∷ bs)) d s = bucket_turn-Sound b d tmp len bs s
  turn-Sound (header_open tmp header) d s = text_written-Sound d tmp header s
  turn-Sound (header_written tmp header) d s = body_moved-Sound d tmp header s
  turn-Sound (body_moved tmp header) d s = header_moved-Sound d tmp header s
  turn-Sound (removing []) d s = on-Sound dec tb fs jobs size d₀ owner i d finished tt
  turn-Sound (removing (p ∷ ps)) d s = remove-Sound dec tb fs jobs size d₀ owner i d p ps s.0 s.1
  turn-Sound finished d s = on-Sound dec tb fs jobs size d₀ owner i d finished tt
