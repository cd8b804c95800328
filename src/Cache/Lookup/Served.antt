-- ===== src/Cache/Lookup/Served.antt =====
-- `cacher_output_filter` and then `cacher_cache_lookup` of src/cacher_cache.c: what a client is
-- served of a response that another client was sent.
use apache_cacher.Prelude.{
  ℕ, ◌+◌, true, false, List, [], ◌∷◌, ◌++◌, Option, none, some, some_inj, Bytes, codes, All, Lacks,
  length, take, drop, length-append, ◌≡◌, subst, refl, sym, ◌∙◌, ap, arith, if◌then◌else◌,
}
use apache_cacher.Prelude.Int.{ℤ, leb_ℤ, ◌<ℤ◌, ◌+ℤ◌}
use apache_cacher.Apr.{Strtok, Decimal, Digest, Tables}
use apache_cacher.Request.{Request}
use apache_cacher.Rules.{CacherRule}
use apache_cacher.Cache.Key.{cache_key_paths, build_cache_key_string, hex_encode_md5}
use apache_cacher.Cache.Headers.{dump_headers, replay_each, replay_headers}
use apache_cacher.Cache.Headers.Replay.{IsHeader, cacheable, block_headers-dump_headers}
use apache_cacher.Cache.Headers.Carried.{Carries, replay_each-Carries}
use apache_cacher.Cache.Meta.{CacherEntryMeta, read_meta, file_text}
use apache_cacher.Cache.Meta.RoundTrip.{IsStorable, stored_meta, read_meta-file_text}
use apache_cacher.Cache.FileSystem.{FileSystem}
use apache_cacher.Cache.Lookup.{
  CacheHit, entry_age, hit_of_size, lookup_meta, lookup_paths, cache_lookup,
}
use apache_cacher.Cache.Lookup.Hit.{Backed, cache_lookup_hit}
use apache_cacher.Cache.Write.{Bucket, eos, Clock, fresh_ctx, is_complete, output_filter}
use apache_cacher.Cache.Write.Buckets.{body_of}
use apache_cacher.Cache.Write.Untorn.{Untorn, kept, published, stuck}
use apache_cacher.Cache.Write.Untorn.Filter.{NoEnd, NotLost}
use apache_cacher.Cache.Write.Untorn.Response.{output_filter-Untorn}

module _ (tk : Strtok) (tb : Tables) (dec : Decimal) (dg : Digest) (fs : FileSystem) where
  open fs use {Disk, content}

  pub cache_key_paths-length :
      (q : Request) (root : Option Bytes) (rule : CacherRule) (header_path body_path : Bytes)
      → cache_key_paths tk tb dg q root rule ≡ some (header_path, body_path)
      → length header_path ≡ length body_path + 2
  unfolding cache_key_paths
  cache_key_paths-length q none rule header_path body_path k = absurd (cc)
  cache_key_paths-length q (some root) rule header_path body_path k =
      let hex = hex_encode_md5 (dg.md5 (build_cache_key_string tk tb q rule)) in
      let shard = root ++ (b'/' ∷ (take 2 hex ++ (b'/' ∷ take 2 (drop 2 hex)))) in
      let e = some_inj _ _ k in
      omega (
        arith,
        ap (λ p. length p.0) e,
        ap (λ p. length p.1) e,
        length-append shard (b'/' ∷ (hex ++ codes ".header")),
        length-append hex (codes ".header"),
        length-append shard (b'/' ∷ (hex ++ codes ".body")),
        length-append hex (codes ".body"),
      )

  pub read_file :
      (o : Option Bytes) (m : CacherEntryMeta × Bytes)
      → read_meta tk dec o ≡ some m
      → (s : Bytes) × (o ≡ some s)
  unfolding read_meta
  read_file none m h = absurd (cc)
  read_file (some s) m h = (s, refl)

  replayed_request :
      (q : Request) (d : Disk) (now later : ℤ) (body_path : Bytes) (meta : CacherEntryMeta)
      (headers_at : Bytes)
      → now <ℤ meta.expires
      → (lookup_meta tk tb dec dg fs q d now later body_path (some (meta, headers_at))).0
        ≡ record q { r = replay_headers tk tb q.r headers_at }
  unfolding lookup_meta
  replayed_request q d now later body_path meta headers_at fresh =
      ap
        (λ b.
          (if◌then◌else◌ {A = Request × Option CacheHit} b (q, none)
            (
              record q { r = replay_headers tk tb q.r headers_at },
              hit_of_size meta later body_path (fs.file_open d body_path),
            )).0)
        (not_expired now meta.expires fresh)
    where
      not_expired : (now expires : ℤ) → now <ℤ expires → leb_ℤ expires now ≡ false
      not_expired now expires h = ground arith

  -- What a hit on the entry of the response `q₀` with the body `body` serves.
  pub record Serves (q q₀ : Request) (d : Disk) (now later created expires : ℤ)
      (body_path body : Bytes) (hit : CacheHit) (replayed : Request) : Type 0 where
    pub status : hit.status ≡ q₀.r.status
    pub age : hit.age ≡ entry_age (stored_meta created expires q₀) later
    pub fresh : now <ℤ expires
    pub body_path_is : hit.body_path ≡ body_path
    pub body_there : content d body_path ≡ some body
    pub length_is : hit.length ≡ length body
    pub headers : replayed ≡ record q { r = replay_each tk tb q.r (cacheable q₀.r.headers_out) }
    pub carried : Carries tb q₀.r.headers_out replayed.r

  module _ (q q₀ : Request) (d : Disk) (now later created expires : ℤ) (code : ℕ)
      (root : Option Bytes) (rule : CacherRule) (header_path body_path body : Bytes)
      (keyed : cache_key_paths tk tb dg q root rule ≡ some (header_path, body_path))
      (storable : IsStorable created expires code q₀) (hs : All IsHeader q₀.r.headers_out)
      (z : Lacks 0 (dump_headers [] q₀.r.headers_out)) where
    abbrev text : Bytes
    text = file_text dec created expires q₀ (dump_headers [] q₀.r.headers_out)

    module _ (hit : CacheHit) (head : content d header_path ≡ some text)
        (there : content d body_path ≡ some body)
        (backed : Backed tk tb dec dg fs q d now later (header_path, body_path) hit) where
      file_is_text : fs.file_read d header_path ≡ some text
      file_is_text =
          let (s, e) =
            read_file (fs.file_read d header_path) (backed.meta, backed.headers_at) backed.read in
          e ∙ sym (fs.file_read_content d header_path s e) ∙ head

      entry_read :
          read_meta tk dec (fs.file_read d header_path)
          ≡ some (stored_meta created expires q₀, dump_headers [] q₀.r.headers_out)
      entry_read =
          ap (read_meta tk dec) file_is_text
          ∙ read_meta-file_text tk dec created expires code q₀ (dump_headers [] q₀.r.headers_out)
              storable z

      meta_is : backed.meta ≡ stored_meta created expires q₀
      meta_is = ap (λ x. x.0) (some_inj _ _ (sym backed.read ∙ entry_read))

      fresh_entry : now <ℤ expires
      fresh_entry = rw (ap (λ m. m.expires) meta_is) at backed.fresh

      request_is :
          (cache_lookup tk tb dec dg fs q d now later root rule).0
          ≡ record q { r = replay_each tk tb q.r (cacheable q₀.r.headers_out) }
      unfolding cache_lookup lookup_paths replay_headers
      request_is =
          ap (λ k. (lookup_paths tk tb dec dg fs q d now later k).0) keyed
          ∙ ap (λ m. (lookup_meta tk tb dec dg fs q d now later body_path m).0) entry_read
          ∙ replayed_request q d now later body_path (stored_meta created expires q₀)
              (dump_headers [] q₀.r.headers_out) fresh_entry
          ∙ ap (λ b. record q { r = replay_each tk tb q.r b })
              (block_headers-dump_headers tk tb q₀.r.headers_out hs)

      pub Backed-Serves :
          Serves q q₀ d now later created expires body_path body hit
            (cache_lookup tk tb dec dg fs q d now later root rule).0
      Backed-Serves =
          let (s, c, n) = backed.body_there in
          record {
            status = backed.status ∙ ap (λ m. m.status) meta_is;
            age = backed.age ∙ ap (λ m. entry_age m later) meta_is;
            fresh = fresh_entry;
            body_path_is = backed.body;
            body_there = there;
            length_is = sym n ∙ ap length (some_inj s body (sym c ∙ there));
            headers = request_is;
            carried =
                subst (λ x. Carries tb q₀.r.headers_out x.r) (sym request_is)
                  (replay_each-Carries tk tb q₀.r.headers_out q.r);
          }

  no_header :
      {A : Type 0} (d : Disk) (header_path : Bytes) (meta : CacherEntryMeta) (headers_at : Bytes)
      → read_meta tk dec (fs.file_read d header_path) ≡ some (meta, headers_at)
      → content d header_path ≡ none
      → A
  no_header d header_path meta headers_at e h =
      let (s, r) = read_file (fs.file_read d header_path) (meta, headers_at) e in
      absurd (cc (fs.file_read_content d header_path s r, h))

  Untorn-Serves :
      (q q₀ : Request) (d : Disk) (clock : Clock) (now later : ℤ) (code : ℕ) (root : Option Bytes)
      (rule : CacherRule) (header_path body_path body : Bytes) (old : Option Bytes)
      (all_read : Type 0) (hit : CacheHit)
      → cache_key_paths tk tb dg q root rule ≡ some (header_path, body_path)
      → IsStorable clock.created (clock.before_expiry +ℤ rule.ttl_seconds) code q₀
      → All IsHeader q₀.r.headers_out
      → Lacks 0 (dump_headers [] q₀.r.headers_out)
      → Backed tk tb dec dg fs q d now later (header_path, body_path) hit
      → Untorn dec tb fs clock q₀ (fresh_ctx rule (header_path, body_path)) none old body all_read d
      → (is_complete dec tb fs q₀.r
            (record (fresh_ctx rule (header_path, body_path)) { body_len = length body })
          ≡ true)
        × all_read
        × Serves q q₀ d now later clock.created
            (clock.before_expiry +ℤ rule.ttl_seconds)
            body_path
            body
            hit
            (cache_lookup tk tb dec dg fs q d now later root rule).0
  Untorn-Serves q q₀ d clock now later code root rule header_path body_path body old all_read hit k
        st hs z b (kept h _) =
      no_header d header_path b.meta b.headers_at b.read h
  Untorn-Serves q q₀ d clock now later code root rule header_path body_path body old all_read hit k
        st hs z b (stuck _ _ _ _ _ h _ _ _) =
      no_header d header_path b.meta b.headers_at b.read h
  Untorn-Serves q q₀ d clock now later code root rule header_path body_path body old all_read hit k
        st hs z b (published h there e a) =
      (
        e,
        a,
        Backed-Serves q q₀ d now later clock.created (clock.before_expiry +ℤ rule.ttl_seconds) code
            root rule header_path body_path body k st hs z hit h there b,
      )

  -- Where no entry was, a whole response passes the filter, whatever calls fail; then a lookup
  -- under the key of its files hits only if that response was complete and no read of a bucket that
  -- states a length failed, until its time to live has passed, with its status and its headers that
  -- are not private, a Content-Type among them as the content type, and the body's file holds its
  -- whole body. A bucket of no stated length that cannot be read counts as empty. Its date, status,
  -- method, host and address can be written to a header file, and its headers are lines without a
  -- zero byte.
  pub cache_lookup-output_filter :
      (q q₀ : Request) (d : Disk) (bs : List Bucket) (clock : Clock) (now later : ℤ) (code : ℕ)
      (root : Option Bytes) (rule : CacherRule) (header_path body_path : Bytes) (hit : CacheHit)
      → All NoEnd bs
      → content d header_path ≡ none
      → cache_key_paths tk tb dg q root rule ≡ some (header_path, body_path)
      → IsStorable clock.created (clock.before_expiry +ℤ rule.ttl_seconds) code q₀
      → All IsHeader q₀.r.headers_out
      → Lacks 0 (dump_headers [] q₀.r.headers_out)
      → (cache_lookup tk tb dec dg fs q
          (output_filter dec tb fs clock q₀
            (fresh_ctx rule (header_path, body_path))
            d
            (bs ++ eos ∷ [])).1
          now
          later
          root
          rule).1
        ≡ some hit
      → (is_complete dec tb fs q₀.r
            (record (fresh_ctx rule (header_path, body_path)) { body_len = length (body_of bs) })
          ≡ true)
        × All NotLost bs
        × Serves q q₀
            (output_filter dec tb fs clock q₀
              (fresh_ctx rule (header_path, body_path))
              d
              (bs ++ eos ∷ [])).1
            now
            later
            clock.created
            (clock.before_expiry +ℤ rule.ttl_seconds)
            body_path
            (body_of bs)
            hit
            (cache_lookup tk tb dec dg fs q
              (output_filter dec tb fs clock q₀
                (fresh_ctx rule (header_path, body_path))
                d
                (bs ++ eos ∷ [])).1
              now
              later
              root
              rule).0
  cache_lookup-output_filter q q₀ d bs clock now later code root rule header_path body_path hit r
        empty k st hs z h =
      let fresh = fresh_ctx rule (header_path, body_path) in
      let after = (output_filter dec tb fs clock q₀ fresh d (bs ++ eos ∷ [])).1 in
      let (ps, kp, b) = cache_lookup_hit tk tb dec dg fs q after now later root rule hit h in
      Untorn-Serves q q₀ after clock now later code root rule header_path body_path (body_of bs)
        (content d body_path) (All NotLost bs) hit k st hs z
        (subst (λ x. Backed tk tb dec dg fs q after now later x hit) (some_inj _ _ (sym kp ∙ k)) b)
        (subst
          (λ o.
            Untorn dec tb fs clock q₀ fresh o (content d body_path) (body_of bs) (All NotLost bs)
              after)
          empty
          (output_filter-Untorn dec tb fs clock q₀ rule header_path body_path
            (cache_key_paths-length q root rule header_path body_path k) d bs r))
