-- ===== src/Cache/Lookup/Found.antt =====
-- `cacher_output_filter` and then `cacher_cache_lookup` of src/cacher_cache.c, on a disk whose calls
-- succeed.
use apache_cacher.Prelude.{
  ℕ, true, List, [], ◌∷◌, ◌++◌, Option, some, Bytes, All, Lacks, length, ◌≡◌, sym, subst,
}
use apache_cacher.Prelude.Int.{ℤ, ◌<ℤ◌, ◌+ℤ◌}
use apache_cacher.Apr.{Strtok, Decimal, Digest, Tables}
use apache_cacher.Request.{Request}
use apache_cacher.Rules.{CacherRule}
use apache_cacher.Cache.Key.{cache_key_paths}
use apache_cacher.Cache.Headers.{dump_headers, replay_each}
use apache_cacher.Cache.Headers.Replay.{IsHeader, cacheable}
use apache_cacher.Cache.Headers.Carried.{Carries, replay_each-Carries}
use apache_cacher.Cache.Meta.RoundTrip.{IsStorable, stored_meta}
use apache_cacher.Cache.FileSystem.{FileSystem}
use apache_cacher.Cache.Lookup.{entry_age, cache_lookup}
use apache_cacher.Cache.Lookup.Hit.{cache_lookup_stored}
use apache_cacher.Cache.Lookup.Served.{cache_key_paths-length}
use apache_cacher.Cache.Write.{
  Bucket, eos, Clock, fresh_ctx, is_complete, decide_cacheable, output_filter,
}
use apache_cacher.Cache.Write.Buckets.{Readable, body_of}
use apache_cacher.Cache.Write.Working.{Working}
use apache_cacher.Cache.Write.Working.Response.{output_filter_stores}

-- Files that are there can be read.
pub record ReadableFiles (fs : FileSystem) : Type 0 where
  pub reads : (d : fs.Disk) (p s : Bytes) → fs.content d p ≡ some s → fs.file_read d p ≡ some s
  pub opens :
      (d : fs.Disk) (p s : Bytes) → fs.content d p ≡ some s → fs.file_open d p ≡ some (length s)

module _ (tk : Strtok) (tb : Tables) (dec : Decimal) (dg : Digest) (fs : FileSystem) where
  open fs use {Disk, content}

  pub cache_lookup_after_filter :
      (readable : ReadableFiles fs) (q q₀ : Request) (d : Disk) (bs : List Bucket) (clock : Clock)
      (now later : ℤ) (code : ℕ) (root : Option Bytes) (rule : CacherRule)
      (header_path body_path : Bytes) (wk : Working fs header_path body_path)
      → wk.Idle d
      → decide_cacheable dec tb fs q₀.r rule ≡ true
      → All Readable bs
      → is_complete dec tb fs q₀.r
          (record (fresh_ctx rule (header_path, body_path)) { body_len = length (body_of bs) })
        ≡ true
      → cache_key_paths tk tb dg q root rule ≡ some (header_path, body_path)
      → IsStorable clock.created (clock.before_expiry +ℤ rule.ttl_seconds) code q₀
      → All IsHeader q₀.r.headers_out
      → Lacks 0 (dump_headers [] q₀.r.headers_out)
      → now <ℤ (clock.before_expiry +ℤ rule.ttl_seconds)
      → (cache_lookup tk tb dec dg fs q
            (output_filter dec tb fs clock q₀
              (fresh_ctx rule (header_path, body_path))
              d
              (bs ++ eos ∷ [])).1
            now
            later
            root
            rule
          ≡ (
            record q { r = replay_each tk tb q.r (cacheable q₀.r.headers_out) },
            some (record {
              body_path = body_path;
              status = q₀.r.status;
              length = length (body_of bs);
              age =
                  entry_age
                    (stored_meta clock.created (clock.before_expiry +ℤ rule.ttl_seconds) q₀)
                    later;
            }),
          ))
        × (content
              (output_filter dec tb fs clock q₀
                (fresh_ctx rule (header_path, body_path))
                d
                (bs ++ eos ∷ [])).1
              body_path
            ≡ some (body_of bs))
        × Carries tb q₀.r.headers_out
            (cache_lookup tk tb dec dg fs q
              (output_filter dec tb fs clock q₀
                (fresh_ctx rule (header_path, body_path))
                d
                (bs ++ eos ∷ [])).1
              now
              later
              root
              rule).0.r
  cache_lookup_after_filter readable q q₀ d bs clock now later code root rule header_path body_path
        wk idle e r whole k st hs z fresh =
      let after =
        (output_filter dec tb fs clock q₀ (fresh_ctx rule (header_path, body_path)) d
          (bs ++ eos ∷ [])).1 in
      let (head, body) =
        output_filter_stores dec tb fs clock q₀ rule header_path body_path
          (cache_key_paths-length tk tb dec dg fs q root rule header_path body_path k) wk d bs idle
          e r whole in
      let found =
        cache_lookup_stored tk tb dec dg fs q q₀ after now later clock.created
          (clock.before_expiry +ℤ rule.ttl_seconds) code (length (body_of bs)) root rule header_path
          body_path k (readable.reads after header_path _ head)
          (readable.opens after body_path (body_of bs) body) st hs z fresh in
      (
        found,
        body,
        subst (λ x. Carries tb q₀.r.headers_out x.0.r) (sym found)
            (replay_each-Carries tk tb q₀.r.headers_out q.r),
      )
