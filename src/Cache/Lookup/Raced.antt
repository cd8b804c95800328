-- ===== src/Cache/Lookup/Raced.antt =====
-- `cacher_cache_lookup` of src/cacher_cache.c between the turns of requests that pass the filter.
use apache_cacher.Prelude.{
  ℕ, ◌+◌, [], Option, none, some, some_inj, Bytes, Lacks, length, ◌≡◌, sym, ◌∙◌, ap, subst, arith,
}
use apache_cacher.Prelude.Int.{ℤ, ◌+ℤ◌}
use apache_cacher.Apr.{Strtok, Decimal, Digest, Tables}
use apache_cacher.Request.{Request}
use apache_cacher.Rules.{CacherRule}
use apache_cacher.Cache.Key.{cache_key_paths}
use apache_cacher.Cache.Headers.{dump_headers}
use apache_cacher.Cache.Meta.{read_meta}
use apache_cacher.Cache.Meta.RoundTrip.{IsStorable, read_meta-file_text}
use apache_cacher.Cache.FileSystem.{FileSystem}
use apache_cacher.Cache.Lookup.{CacheHit, cache_lookup}
use apache_cacher.Cache.Lookup.Hit.{Backed, cache_lookup_hit}
use apache_cacher.Cache.Lookup.Served.{read_file}
use apache_cacher.Cache.Write.Writers.{Job, World, Reach}
use apache_cacher.Cache.Write.Writers.Invariant.{
  body_sent, text_of, Complete, Whole, as_before, gone, header_of, body_of_job,
}
use apache_cacher.Cache.Write.Writers.Safety.{Reach-Whole}

module _ (tk : Strtok) (tb : Tables) (dec : Decimal) (dg : Digest) (fs : FileSystem)
    (jobs : ℕ → Job) (size : ℕ) (d₀ : fs.Disk) where
  open fs use {Disk, content}

  -- A hit with the header of the response `i` and the body of the response `j`, both of this entry
  -- and both complete.
  pub record HitOf (d : Disk) (header_path body_path : Bytes) (hit : CacheHit) : Type 0 where
    pub i : ℕ
    pub j : ℕ
    pub header_of_entry : (jobs i).header_path ≡ header_path
    pub body_of_entry : (jobs j).body_path ≡ body_path
    pub header_complete : Complete dec tb fs jobs size d₀ i
    pub body_complete : Complete dec tb fs jobs size d₀ j
    pub status : hit.status ≡ (jobs i).request.r.status
    pub body_there : content d body_path ≡ some (body_sent dec tb fs jobs size d₀ j)
    pub length_is : hit.length ≡ length (body_sent dec tb fs jobs size d₀ j)

  -- Response `i` can be written to a header file.
  pub record Printable (i : ℕ) : Type 0 where
    pub code : ℕ
    pub storable :
        IsStorable
          (jobs i).clock.created
          ((jobs i).clock.before_expiry +ℤ (jobs i).rule.ttl_seconds)
          code
          (jobs i).request
    pub no_zero : Lacks 0 (dump_headers [] (jobs i).request.r.headers_out)

  module _ (header_long : (i : ℕ) → length (jobs i).header_path ≡ size + 2)
      (body_long : (i : ℕ) → length (jobs i).body_path ≡ size) (d : Disk) where
    abbrev IsWhole : Bytes → Type 0
    IsWhole = Whole dec tb fs jobs size d₀ d

    -- The response whose header stands at the path of a header.
    record HeaderFrom (x : Bytes) : Type 0 where
      who : ℕ
      whose : (jobs who).header_path ≡ x
      text : content d x ≡ some (text_of dec tb fs jobs size d₀ who)
      complete : Complete dec tb fs jobs size d₀ who

    record BodyFrom (x : Bytes) : Type 0 where
      who : ℕ
      whose : (jobs who).body_path ≡ x
      bytes_there : content d x ≡ some (body_sent dec tb fs jobs size d₀ who)
      complete : Complete dec tb fs jobs size d₀ who

    header_from :
        (x s : Bytes)
        → content d₀ x ≡ none
        → content d x ≡ some s
        → length x ≡ size + 2
        → IsWhole x
        → HeaderFrom x
    header_from x s empty at long (as_before e) = absurd (cc)
    header_from x s empty at long (gone e) = absurd (cc)
    header_from x s empty at long (header_of i p e c) = record {
      who = i;
      whose = p;
      text = e;
      complete = c;
    }
    header_from x s empty at long (body_of_job i p e c) =
        absurd (omega (arith, ap length p, body_long i))

    body_from :
        (x s : Bytes)
        → content d₀ x ≡ none
        → content d x ≡ some s
        → length x ≡ size
        → IsWhole x
        → BodyFrom x
    body_from x s empty at long (as_before e) = absurd (cc)
    body_from x s empty at long (gone e) = absurd (cc)
    body_from x s empty at long (header_of i p e c) =
        absurd (omega (arith, ap length p, header_long i))
    body_from x s empty at long (body_of_job i p e c) = record {
      who = i;
      whose = p;
      bytes_there = e;
      complete = c;
    }

    Backed-HitOf :
        (q : Request) (now later : ℤ) (header_path body_path : Bytes) (hit : CacheHit)
        → ((i : ℕ) → Printable i)
        → content d₀ header_path ≡ none
        → content d₀ body_path ≡ none
        → length header_path ≡ size + 2
        → length body_path ≡ size
        → IsWhole header_path
        → IsWhole body_path
        → Backed tk tb dec dg fs q d now later (header_path, body_path) hit
        → HitOf d header_path body_path hit
    Backed-HitOf q now later header_path body_path hit ok no_header no_body hl bl wh wb b =
        let (s, e) =
          read_file tk tb dec dg fs (fs.file_read d header_path) (b.meta, b.headers_at) b.read in
        let at = fs.file_read_content d header_path s e in
        let head = header_from header_path s no_header at hl wh in
        let (t, there, n) = b.body_there in
        let body = body_from body_path t no_body there bl wb in
        let i = head.who in
        let printed =
          read_meta-file_text tk dec (jobs i).clock.created
            ((jobs i).clock.before_expiry +ℤ (jobs i).rule.ttl_seconds) (ok i).code (jobs i).request
            (dump_headers [] (jobs i).request.r.headers_out) (ok i).storable (ok i).no_zero in
        let read = sym b.read ∙ ap (read_meta tk dec) (e ∙ sym at ∙ head.text) ∙ printed in
        record {
          i = i;
          j = body.who;
          header_of_entry = head.whose;
          body_of_entry = body.whose;
          header_complete = head.complete;
          body_complete = body.complete;
          status = b.status ∙ ap (λ m. m.0.status) (some_inj _ _ read);
          body_there = body.bytes_there;
          length_is = sym n ∙ ap length (some_inj t _ (sym there ∙ body.bytes_there));
        }

  -- Wherever a lookup falls between the turns of the requests, on a disk that held no entry for its
  -- key at first: a hit has the status that one complete response of this entry was stored with,
  -- and its body is the whole body of one, maybe another, complete response of this entry; of both
  -- no read of a bucket failed, where one of no stated length that cannot be read counts as empty.
  -- All responses can be written to header files; paths have their lengths.
  pub Reach-HitOf :
      {w : World dec tb fs} (header_long : (i : ℕ) → length (jobs i).header_path ≡ size + 2)
      (body_long : (i : ℕ) → length (jobs i).body_path ≡ size) (q : Request) (now later : ℤ)
      (root : Option Bytes) (rule : CacherRule) (header_path body_path : Bytes) (hit : CacheHit)
      → Reach dec tb fs jobs size d₀ w
      → ((i : ℕ) → Printable i)
      → cache_key_paths tk tb dg q root rule ≡ some (header_path, body_path)
      → content d₀ header_path ≡ none
      → content d₀ body_path ≡ none
      → length header_path ≡ size + 2
      → length body_path ≡ size
      → (cache_lookup tk tb dec dg fs q w.disk now later root rule).1 ≡ some hit
      → HitOf w.disk header_path body_path hit
  Reach-HitOf {w = w} header_long body_long q now later root rule header_path body_path hit r ok k
        no_header no_body hl bl h =
      let (ps, kp, b) = cache_lookup_hit tk tb dec dg fs q w.disk now later root rule hit h in
      Backed-HitOf header_long body_long w.disk q now later header_path body_path hit ok no_header
        no_body hl bl
        (Reach-Whole dec tb fs jobs size d₀ header_long body_long header_path r (omega arith))
        (Reach-Whole dec tb fs jobs size d₀ header_long body_long body_path r (omega arith))
        (subst (λ x. Backed tk tb dec dg fs q w.disk now later x hit) (some_inj _ _ (sym kp ∙ k)) b)
