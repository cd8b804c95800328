-- ===== src/Cache/Lookup/Hit.antt =====
-- `cacher_cache_lookup` of src/cacher_cache.c: what a hit is.
use apache_cacher.Prelude.{
  ℕ, false, [], Option, none, some, Bytes, All, Lacks, length, ◌≡◌, inl, inr, refl, sym, ◌∙◌, ap,
  arith, Bool-cases, some_inj,
}
use apache_cacher.Prelude.Int.{ℤ, leb_ℤ, ◌<ℤ◌}
use apache_cacher.Apr.{Strtok, Decimal, Digest, Tables}
use apache_cacher.Request.{Request}
use apache_cacher.Rules.{CacherRule}
use apache_cacher.Cache.Key.{cache_key_paths}
use apache_cacher.Cache.Headers.{dump_headers, replay_each, replay_headers}
use apache_cacher.Cache.Headers.Replay.{IsHeader, cacheable, block_headers-dump_headers}
use apache_cacher.Cache.Meta.{CacherEntryMeta, read_meta, file_text}
use apache_cacher.Cache.Meta.RoundTrip.{IsStorable, stored_meta, read_meta-file_text}
use apache_cacher.Cache.FileSystem.{FileSystem}
use apache_cacher.Cache.Lookup.{
  CacheHit, entry_age, hit_of_size, lookup_meta, lookup_paths, cache_lookup,
}

module _ (tk : Strtok) (tb : Tables) (dec : Decimal) (dg : Digest) (fs : FileSystem) where
  open fs use {Disk, content}

  -- What stands behind a hit: a readable header file that has not expired, and its body.
  pub record Backed (q : Request) (d : Disk) (now later : ℤ) (paths : Bytes × Bytes)
      (hit : CacheHit) : Type 0 where
    pub meta : CacherEntryMeta
    pub headers_at : Bytes
    pub read : read_meta tk dec (fs.file_read d paths.0) ≡ some (meta, headers_at)
    pub fresh : now <ℤ meta.expires
    pub status : hit.status ≡ meta.status
    pub age : hit.age ≡ entry_age meta later
    pub body : hit.body_path ≡ paths.1
    pub body_there : (s : Bytes) × (content d paths.1 ≡ some s) × (length s ≡ hit.length)

  hit_of_size_inv :
      (meta : CacherEntryMeta) (later : ℤ) (body_path : Bytes) (size : Option ℕ) (hit : CacheHit)
      → hit_of_size meta later body_path size ≡ some hit
      → (size ≡ some hit.length)
        × (hit.status ≡ meta.status)
        × (hit.age ≡ entry_age meta later)
        × (hit.body_path ≡ body_path)
  unfolding hit_of_size
  hit_of_size_inv meta later body_path none hit h = absurd (cc)
  hit_of_size_inv meta later body_path (some n) hit h =
      let e = some_inj _ _ h in
      (
        ap (λ x. some x.length) e,
        sym (ap (λ x. x.status) e),
        sym (ap (λ x. x.age) e),
        sym (ap (λ x. x.body_path) e),
      )

  lookup_meta_inv :
      (q : Request) (d : Disk) (now later : ℤ) (paths : Bytes × Bytes) (hit : CacheHit)
      (entry : Option (CacherEntryMeta × Bytes))
      → read_meta tk dec (fs.file_read d paths.0) ≡ entry
      → (lookup_meta tk tb dec dg fs q d now later paths.1 entry).1 ≡ some hit
      → Backed q d now later paths hit
  unfolding lookup_meta
  lookup_meta_inv q d now later paths hit none r h = absurd (cc)
  lookup_meta_inv q d now later paths hit (some (meta, headers_at)) r h =
      elim (Bool-cases (leb_ℤ meta.expires now)) [
        | inl e ↦ absurd (cc (simp e at h))
        | inr e ↦
            let inv =
              hit_of_size_inv meta later paths.1 (fs.file_open d paths.1) hit (simp e at h) in
            record {
              meta = meta;
              headers_at = headers_at;
              read = r;
              fresh = ground arith;
              status = inv.1;
              age = inv.2;
              body = inv.3;
              body_there = fs.file_open_content d paths.1 hit.length inv.0;
            }
      ]

  lookup_paths_inv :
      (q : Request) (d : Disk) (now later : ℤ) (paths : Option (Bytes × Bytes)) (hit : CacheHit)
      → (lookup_paths tk tb dec dg fs q d now later paths).1 ≡ some hit
      → (ps : Bytes × Bytes) × (paths ≡ some ps) × Backed q d now later ps hit
  unfolding lookup_paths
  lookup_paths_inv q d now later none hit h = absurd (cc)
  lookup_paths_inv q d now later (some ps) hit h = (
    ps,
    refl,
    lookup_meta_inv q d now later ps hit (read_meta tk dec (fs.file_read d ps.0)) refl h,
  )

  -- A lookup hits only where the key's header file was read and expires later than now; its status
  -- and age are those of that file, and its body is there, of the length reported.
  pub cache_lookup_hit :
      (q : Request) (d : Disk) (now later : ℤ) (root : Option Bytes) (rule : CacherRule)
      (hit : CacheHit)
      → (cache_lookup tk tb dec dg fs q d now later root rule).1 ≡ some hit
      → (ps : Bytes × Bytes) × (cache_key_paths tk tb dg q root rule ≡ some ps)
        × Backed q d now later ps hit
  unfolding cache_lookup
  cache_lookup_hit q d now later root rule hit h =
      lookup_paths_inv q d now later (cache_key_paths tk tb dg q root rule) hit h

  not_expired : (now expires : ℤ) → now <ℤ expires → leb_ℤ expires now ≡ false
  not_expired now expires h = ground arith

  lookup_meta_stored :
      (q q₀ : Request) (d : Disk) (now later created expires : ℤ) (size : ℕ) (body_path : Bytes)
      → fs.file_open d body_path ≡ some size
      → All IsHeader q₀.r.headers_out
      → now <ℤ expires
      → lookup_meta tk tb dec dg fs q d now later body_path
          (some (stored_meta created expires q₀, dump_headers [] q₀.r.headers_out))
        ≡ (
          record q { r = replay_each tk tb q.r (cacheable q₀.r.headers_out) },
          some (record {
            body_path = body_path;
            status = q₀.r.status;
            length = size;
            age = entry_age (stored_meta created expires q₀) later;
          }),
        )
  unfolding lookup_meta replay_headers hit_of_size
  lookup_meta_stored q q₀ d now later created expires size body_path o hs fresh =
      let meta = stored_meta created expires q₀ in
      rw (not_expired now expires fresh) (λ i. (
        record q {
          r = replay_each tk tb q.r (block_headers-dump_headers tk tb q₀.r.headers_out hs i);
        },
        hit_of_size meta later body_path (o i),
      ))

  -- An entry as the filter writes it for a storable `q₀` is a hit until it expires, with the
  -- status and the cacheable headers of that response, for every request that has its key.
  pub cache_lookup_stored :
      (q q₀ : Request) (d : Disk) (now later created expires : ℤ) (code size : ℕ)
      (root : Option Bytes) (rule : CacherRule) (header_path body_path : Bytes)
      → cache_key_paths tk tb dg q root rule ≡ some (header_path, body_path)
      → fs.file_read d header_path
        ≡ some (file_text dec created expires q₀ (dump_headers [] q₀.r.headers_out))
      → fs.file_open d body_path ≡ some size
      → IsStorable created expires code q₀
      → All IsHeader q₀.r.headers_out
      → Lacks 0 (dump_headers [] q₀.r.headers_out)
      → now <ℤ expires
      → cache_lookup tk tb dec dg fs q d now later root rule ≡ (
        record q { r = replay_each tk tb q.r (cacheable q₀.r.headers_out) },
        some (record {
          body_path = body_path;
          status = q₀.r.status;
          length = size;
          age = entry_age (stored_meta created expires q₀) later;
        }),
      )
  unfolding cache_lookup lookup_paths
  cache_lookup_stored q q₀ d now later created expires code size root rule header_path body_path k f
        o st hs z fresh =
      let dumped = dump_headers [] q₀.r.headers_out in
      ap (lookup_paths tk tb dec dg fs q d now later) k
      ∙ ap (lookup_meta tk tb dec dg fs q d now later body_path)
          (ap (read_meta tk dec) f ∙ read_meta-file_text tk dec created expires code q₀ dumped st z)
      ∙ lookup_meta_stored q q₀ d now later created expires size body_path o hs fresh
