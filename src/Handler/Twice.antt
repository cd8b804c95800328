-- ===== src/Handler/Twice.antt =====
-- `cacher_handler` of src/mod_cacher.c on two requests, with the response to the first in between.
use apache_cacher.Prelude.{
  ℕ, Bool, true, false, List, [], ◌∷◌, ◌++◌, Option, none, some, some_inj, Bytes, All, Lacks,
  length, sym, ◌≡◌, refl, subst, ◌∙◌, ap, if◌then◌else◌,
}
use apache_cacher.Prelude.Int.{pos, leb_ℤ, ◌<ℤ◌, ◌+ℤ◌}
use apache_cacher.Apr.{Strtok, Decimal, Digest, Tables}
use apache_cacher.Cjson.{Cjson}
use apache_cacher.Request.{Request}
use apache_cacher.Rules.{CacherRule}
use apache_cacher.Cache.FileSystem.{FileSystem}
use apache_cacher.Cache.Key.{cache_key_paths}
use apache_cacher.Cache.Headers.{dump_headers}
use apache_cacher.Cache.Headers.Replay.{IsHeader}
use apache_cacher.Cache.Headers.Carried.{Carries}
use apache_cacher.Cache.Meta.RoundTrip.{IsStorable, stored_meta}
use apache_cacher.Cache.Lookup.{entry_age, cache_lookup}
use apache_cacher.Cache.Lookup.Found.{ReadableFiles, cache_lookup_after_filter}
use apache_cacher.Cache.Write.{
  CacherOutCtx, Bucket, eos, Clock, fresh_ctx, ctx_of_paths, insert_filter, is_complete,
  decide_cacheable, output_filter,
}
use apache_cacher.Cache.Write.Buckets.{Readable, body_of}
use apache_cacher.Cache.Write.Working.{Working}
use apache_cacher.Handler.{State, Env, served, cacher_handler}
use apache_cacher.Handler.Hits.{LookedUp, LookedUp-served}
use apache_cacher.Handler.Capture.{cacher_handler-filter}

module _ (tk : Strtok) (tb : Tables) (dec : Decimal) (dg : Digest) (j : Cjson)
    (fs : FileSystem) where
  abbrev St : Type 0
  St = State tk tb dec dg j fs

  abbrev En : Type 0
  En = Env tk tb dec dg j fs

  abbrev anew : CacherOutCtx → CacherOutCtx
  anew ctx = fresh_ctx ctx.rule (ctx.header_path, ctx.body_path)

  ctx_of_paths-anew :
      (rule : CacherRule) (paths : Option (Bytes × Bytes)) (ctx : CacherOutCtx)
      → ctx_of_paths rule paths ≡ some ctx
      → ctx ≡ anew ctx
  ctx_of_paths-anew rule none ctx e = absurd (cc)
  ctx_of_paths-anew rule (some ps) ctx e = subst (λ c. c ≡ anew c) (some_inj _ _ e) refl

  -- The filter is inserted where two tests fail.
  behind_tests :
      (a b : Bool) (o : Option CacherOutCtx) (ctx : CacherOutCtx)
      → (if a then none else if b then none else o) ≡ some ctx
      → o ≡ some ctx
  behind_tests true b o ctx e = absurd (cc)
  behind_tests false true o ctx e = absurd (cc)
  behind_tests false false o ctx e = e

  insert_filter-anew :
      (q : Request) (root : Option Bytes) (rule : CacherRule) (ctx : CacherOutCtx)
      → insert_filter tk tb dg q root rule ≡ some ctx
      → ctx ≡ anew ctx
  unfolding insert_filter
  insert_filter-anew q none rule ctx e = absurd (cc)
  insert_filter-anew q (some root) rule ctx e =
      ctx_of_paths-anew rule (cache_key_paths tk tb dg q (some root) rule) ctx (
        behind_tests (leb_ℤ rule.ttl_seconds (pos 0)) q.r.header_only
          (ctx_of_paths rule (cache_key_paths tk tb dg q (some root) rule)) ctx e)

  -- A response to pass the filter, on a disk whose calls succeed from `d` on.
  pub record Passes (ctx : CacherOutCtx) (q₀ : Request) (clock : Clock) (d : fs.Disk)
      (bs : List Bucket) : Type 1 where
    pub readable : ReadableFiles fs
    pub wk : Working fs ctx.header_path ctx.body_path
    pub idle : wk.Idle d
    pub may_store : decide_cacheable dec tb fs q₀.r ctx.rule ≡ true
    pub can_read : All Readable bs
    pub whole : is_complete dec tb fs q₀.r (record ctx { body_len = length (body_of bs) }) ≡ true
    pub code : ℕ
    pub storable : IsStorable clock.created (clock.before_expiry +ℤ ctx.rule.ttl_seconds) code q₀
    pub lines : All IsHeader q₀.r.headers_out
    pub no_zero : Lacks 0 (dump_headers [] q₀.r.headers_out)

  -- The module from one request to the next: if the handler adds the filter to a first request, and
  -- the response to it passes that filter on a disk whose calls succeed, then a second request that
  -- is looked up under the same rule and key, before the time to live has passed, is served by the
  -- handler with the status, the length and the age of that response, from the file of its body,
  -- which holds the bytes of that response; and the reply carries each header of that response that
  -- is not private (Set-Cookie, Age, the status header and those of the connection are), the last
  -- value of a name, and a Content-Type among them as its content type.
  pub cacher_handler_twice :
      (env env₂ : En) (st st₂ : St) (ctx : CacherOutCtx) (q₀ : Request) (clock : Clock)
      (d : fs.Disk) (bs : List Bucket)
      → st.filter ≡ none
      → (cacher_handler tk tb dec dg j fs env st).0.filter ≡ some ctx
      → (passes : Passes ctx q₀ clock d bs)
      → st₂.disk ≡ (output_filter dec tb fs clock q₀ ctx d (bs ++ eos ∷ [])).1
      → LookedUp tk tb dec dg j fs env₂ st₂ ctx.rule
      → cache_key_paths tk tb dg st₂.request env₂.cache_root ctx.rule
        ≡ some (ctx.header_path, ctx.body_path)
      → env₂.now <ℤ (clock.before_expiry +ℤ ctx.rule.ttl_seconds)
      → ((cacher_handler tk tb dec dg j fs env₂ st₂).1
          ≡ served (record {
            body_path = ctx.body_path;
            status = q₀.r.status;
            length = length (body_of bs);
            age =
                entry_age
                  (stored_meta clock.created (clock.before_expiry +ℤ ctx.rule.ttl_seconds) q₀)
                  env₂.later;
          }))
        × (fs.content st₂.disk ctx.body_path ≡ some (body_of bs))
        × Carries tb q₀.r.headers_out (cacher_handler tk tb dec dg j fs env₂ st₂).0.request.r
  cacher_handler_twice env env₂ st st₂ ctx q₀ clock d bs n e p at l k fresh =
      let (dconf, conf, (on, filter)) = cacher_handler-filter tk tb dec dg j fs env st ctx n e in
      let own = insert_filter-anew _ env.cache_root filter.rule ctx filter.inserted in
      let (found, body, carried) =
        cache_lookup_after_filter tk tb dec dg fs p.readable st₂.request q₀ d bs clock env₂.now
          env₂.later p.code env₂.cache_root ctx.rule ctx.header_path ctx.body_path p.wk p.idle
          p.may_store p.can_read
          (subst
            (λ c. is_complete dec tb fs q₀.r (record c { body_len = length (body_of bs) }) ≡ true)
            own p.whole)
          k p.storable p.lines p.no_zero fresh in
      let same = at ∙ ap (λ c. (output_filter dec tb fs clock q₀ c d (bs ++ eos ∷ [])).1) own in
      let on_disk =
        ap
          (λ x.
            cache_lookup tk tb dec dg fs st₂.request x env₂.now env₂.later env₂.cache_root ctx.rule)
          same in
      let reply =
        LookedUp-served tk tb dec dg j fs env₂ st₂ ctx.rule _ l (ap (λ x. x.1) (on_disk ∙ found)) in
      let in_lookup = subst (λ x. Carries tb q₀.r.headers_out x.0.r) (sym on_disk) carried in
      (
        reply.reply_is,
        ap (λ x. fs.content x ctx.body_path) same ∙ body,
        record {
          header = λ name value private type last.
              reply.headers_kept name private ∙ in_lookup.header name value private type last;
          content_type = λ value last. reply.type_kept ∙ in_lookup.content_type value last;
        },
      )
