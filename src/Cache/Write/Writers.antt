-- ===== src/Cache/Write/Writers.antt =====
-- `cacher_output_filter` and `finalize_cache_entry` of src/cacher_cache.c in many requests at once,
-- which share one disk: each turn of a request is one call on a file.
pub mod Invariant
pub mod Turns
pub mod Phases
pub mod Safety
pub mod Solo
use apache_cacher.Prelude.{
  ℕ, zero, suc, ◌+◌, Bool, true, false, List, [], ◌∷◌, ◌++◌, Option, none, some, ◌==◌,
  if◌then◌else◌, Bytes, length, str_eq, ◌≡◌, ◌⊎◌,
}
use apache_cacher.Apr.{Decimal, Tables}
use apache_cacher.Request.{Request}
use apache_cacher.Rules.{CacherRule}
use apache_cacher.Cache.FileSystem.{FileSystem}
use apache_cacher.Cache.Write.{
  CacherOutCtx, Bucket, eos, metadata, bytes, unreadable, Clock, temp_suffix, before_last,
  shard_dir_of, fresh_ctx, is_complete, entry_text, decide_cacheable,
}

-- A response under way: the request, its rule, the files of its entry, and its buckets.
pub record Job : Type 0 where
  pub clock : Clock
  pub request : Request
  pub rule : CacherRule
  pub header_path : Bytes
  pub body_path : Bytes
  pub buckets : List Bucket

-- Where a request stands in the filter: the temporary body comes first, then the temporary header.
pub data Phase : Type 0 where
  waiting : Phase
  with_dirs : Phase
  capturing : Bytes → ℕ → List Bucket → Phase
  header_open : Bytes → Bytes → Phase
  header_written : Bytes → Bytes → Phase
  body_moved : Bytes → Bytes → Phase
  removing : List Bytes → Phase
  finished : Phase

abbrev pub ctx_of : Job → Bytes → ℕ → CacherOutCtx
ctx_of job tmp len = record (fresh_ctx job.rule (job.header_path, job.body_path)) {
  started = true;
  cacheable = true;
  tmp_body_path = tmp;
  body_len = len;
}

-- The bytes of a response, up to its end.
abbrev pub sent : List Bucket → Bytes
sent [] = []
sent (eos ∷ bs) = []
sent (metadata ∷ bs) = sent bs
sent (bytes s ∷ bs) = s ++ sent bs
sent (unreadable n ∷ bs) = sent bs

module _ (dec : Decimal) (tb : Tables) (fs : FileSystem) where
  open fs use {Disk}

  -- What a turn leaves: the name that mktemp made in it, if it did, the phase and the disk.
  pub record Turn : Type 0 where
    pub made : Option Bytes
    pub phase : Phase
    pub disk : Disk

  abbrev pub on : Phase → Disk → Turn
  on p d = record { made = none; phase = p; disk = d }

  abbrev pub when : Phase → Phase → Bool × Disk → Turn
  when good bad (true, d) = on good d
  when good bad (false, d) = on bad d

  abbrev pub with_temp : (Bytes → Phase) → Phase → Option Bytes × Disk → Turn
  with_temp good bad (some tmp, d) = record { made = some tmp; phase = good tmp; disk = d }
  with_temp good bad (none, d) = on bad d

  unfoldable pub bucket_turn : Job → Bytes → ℕ → List Bucket → Bucket → Disk → Turn
  bucket_turn job tmp len bs eos d =
      if is_complete dec tb fs job.request.r (ctx_of job tmp len)
      then with_temp (header_open tmp) (removing (tmp ∷ []))
          (fs.mktemp d (job.header_path ++ temp_suffix))
      else on (removing (tmp ∷ [])) d
  bucket_turn job tmp len bs metadata d = on (capturing tmp len bs) d
  bucket_turn job tmp len bs (bytes []) d = on (capturing tmp len bs) d
  bucket_turn job tmp len bs (bytes (c ∷ s)) d =
      when (capturing tmp (len + length (c ∷ s)) bs) (removing (tmp ∷ []))
        (fs.write_full d tmp (c ∷ s))
  bucket_turn job tmp len bs (unreadable zero) d = on (capturing tmp len bs) d
  bucket_turn job tmp len bs (unreadable (suc n)) d = on (removing (tmp ∷ [])) d

  unfoldable pub turn : Job → Phase → Disk → Turn
  unfolding bucket_turn
  turn job waiting d =
      if decide_cacheable dec tb fs job.request.r job.rule
      then when with_dirs finished (fs.make_dirs d (shard_dir_of (before_last b'/' job.body_path)))
      else on finished d
  turn job with_dirs d =
      with_temp (λ tmp. capturing tmp 0 job.buckets) finished
        (fs.mktemp d (job.body_path ++ temp_suffix))
  turn job (capturing tmp len []) d = on finished d
  turn job (capturing tmp len (b ∷ bs)) d = bucket_turn job tmp len bs b d
  turn job (header_open tmp header) d =
      when (header_written tmp header) (removing (header ∷ tmp ∷ []))
        (fs.write_full d header (entry_text dec tb fs job.clock job.request (ctx_of job tmp 0)))
  turn job (header_written tmp header) d =
      when (body_moved tmp header) (removing (tmp ∷ header ∷ job.body_path ∷ []))
        (fs.rename d tmp job.body_path)
  turn job (body_moved tmp header) d =
      when finished (removing (tmp ∷ header ∷ job.body_path ∷ []))
        (fs.rename d header job.header_path)
  turn job (removing []) d = on finished d
  turn job (removing (p ∷ ps)) d = on (removing ps) (fs.remove d p)
  turn job finished d = on finished d

  -- The disk, where each request stands, and which request made a temporary name.
  pub record World : Type 0 where
    pub disk : Disk
    pub phases : ℕ → Phase
    pub owner : Bytes → Option ℕ

  abbrev pub claim : (Bytes → Option ℕ) → ℕ → Option Bytes → Bytes → Option ℕ
  claim owner i none x = owner x
  claim owner i (some t) x = if str_eq x t then some i else owner x

  abbrev pub after : Job → ℕ → World → World
  after job i w =
      let t = turn job (w.phases i) w.disk in
      record {
        disk = t.disk;
        phases = λ j. if j == i then t.phase else w.phases j;
        owner = claim w.owner i t.made;
      }

  -- Requests take turns in any order, and the files of entries are removed at any time. A name that
  -- mktemp makes was not made before. The paths of bodies have the length `size`, those of headers
  -- two more.
  pub data Step (jobs : ℕ → Job) (size : ℕ) (w : World) : World → Type 0 where
    takes_turn :
        (i : ℕ)
        → ((t : Bytes) → (turn (jobs i) (w.phases i) w.disk).made ≡ some t → w.owner t ≡ none)
        → Step jobs size w (after (jobs i) i w)
    removed :
        (p : Bytes)
        → (length p ≡ size) ⊎ (length p ≡ size + 2)
        → Step jobs size w (record w { disk = fs.remove w.disk p })

  pub data Reach (jobs : ℕ → Job) (size : ℕ) (d : Disk) : World → Type 0 where
    begins : Reach jobs size d (record { disk = d; phases = λ i. waiting; owner = λ t. none })
    goes : {w v : World} → Reach jobs size d w → Step jobs size w v → Reach jobs size d v
