-- ===== src/Handler/Hits.antt =====
-- `cacher_handler` of src/mod_cacher.c on a request that is looked up and hits.
use apache_cacher.Prelude.{
  true, false, Option, none, some, some_inj, Bytes, codes, inl, inr, Bool-cases, sym, ◌≡◌, refl,
  subst, ◌∙◌, ap, if◌then◌else◌,
}
use apache_cacher.Prelude.Int.{ℤ, pos, eq_ℤ, eq_ℤ_iff, leb_ℤ}
use apache_cacher.Apr.{Strtok, Decimal, Digest, Tables, Headers}
use apache_cacher.Cjson.{Cjson}
use apache_cacher.Request.{RequestRec, Request}
use apache_cacher.Rules.{CacherRule, CacherRuleset}
use apache_cacher.Util.{request_bypasses}
use apache_cacher.Config.{CacherDirConf}
use apache_cacher.Config.RulesCache.{RulesCacheState, config_get_ruleset}
use apache_cacher.Cache.FileSystem.{FileSystem}
use apache_cacher.Cache.Headers.{status_header_name}
use apache_cacher.Cache.Headers.Replay.{Private, content_length, status_name, age, Private-same}
use apache_cacher.Cache.Lookup.{CacheHit, cache_lookup}
use apache_cacher.Handler.{
  State, Env, Reply, served, declined, set_status, set_age, with_status, after_lookup, with_rule,
  after_match, after_rules, cache_phase, with_config, cacher_handler,
}
use apache_cacher.Handler.Status.{selected, OutsideAdmin, outside-cache_phase}

module _ (tk : Strtok) (tb : Tables) (dec : Decimal) (dg : Digest) (j : Cjson)
    (fs : FileSystem) where
  abbrev St : Type 0
  St = State tk tb dec dg j fs

  abbrev En : Type 0
  En = Env tk tb dec dg j fs

  abbrev pub lookup : En → St → CacherRule → Request × Option CacheHit
  lookup env st rule =
      cache_lookup tk tb dec dg fs st.request st.disk env.now env.later env.cache_root rule

  -- The request is looked up under the rule.
  pub record LookedUp (env : En) (st : St) (rule : CacherRule) : Type 0 where
    pub dconf : CacherDirConf
    pub rules : CacherRuleset
    pub main_request : st.request.r.is_subrequest ≡ false
    pub configured : env.dconf ≡ some dconf
    pub outside_admin : OutsideAdmin tk tb dec dg j fs dconf st.request
    pub module_on : dconf.enabled ≡ pos 1
    pub rules_loaded : (config_get_ruleset j env.files st.rules_cache (some dconf)).1 ≡ some rules
    pub matched : selected tk tb dec dg j fs st rules ≡ some rule
    pub rule_on : rule.enabled ≡ true
    pub not_bypassed : request_bypasses tk tb st.request (some rule) ≡ false

  -- The reply is the hit, and what the request `q` held stays but for private headers.
  pub record ServedWith (q : Request) (hit : CacheHit) (reply : St × Reply) : Type 0 where
    pub reply_is : reply.1 ≡ served hit
    pub headers_kept :
        (name : Bytes)
        → ¬ Private name
        → tb.table_get reply.0.request.r.headers_out name ≡ tb.table_get q.r.headers_out name
    pub type_kept : reply.0.request.r.content_type ≡ q.r.content_type

  setn-Private :
      (t : Headers) (key value name : Bytes)
      → Private key
      → ¬ Private name
      → tb.table_get (tb.table_setn t key value) name ≡ tb.table_get t name
  setn-Private t key value name p n =
      tb.get-setn_other t key name value (λ same. n (Private-same (sym same) p))

  set_status-kept :
      (dconf : CacherDirConf) (text name : Bytes) (r : RequestRec)
      → ¬ Private name
      → tb.table_get (set_status tk tb dec dg j fs dconf text r).headers_out name
        ≡ tb.table_get r.headers_out name
  unfolding set_status
  set_status-kept dconf text name r n = elim (Bool-cases (eq_ℤ dconf.status_header (pos 0))) [
    | inl e ↦ simp e
    | inr e ↦ simp e (setn-Private r.headers_out status_header_name text name (status_name refl) n)
  ]

  set_status-type :
      (dconf : CacherDirConf) (text : Bytes) (r : RequestRec)
      → (set_status tk tb dec dg j fs dconf text r).content_type ≡ r.content_type
  unfolding set_status
  set_status-type dconf text r = elim (Bool-cases (eq_ℤ dconf.status_header (pos 0))) [
    | inl e ↦ simp e
    | inr e ↦ simp e
  ]

  set_age-kept :
      (years : ℤ) (name : Bytes) (r : RequestRec)
      → ¬ Private name
      → tb.table_get (set_age tk tb dec dg j fs years r).headers_out name
        ≡ tb.table_get r.headers_out name
  unfolding set_age
  set_age-kept years name r n = elim (Bool-cases (leb_ℤ (pos 0) years)) [
    | inl e ↦ simp e (setn-Private r.headers_out (codes "Age") (dec.print years) name (age refl) n)
    | inr e ↦ simp e
  ]

  set_age-type :
      (years : ℤ) (r : RequestRec)
      → (set_age tk tb dec dg j fs years r).content_type ≡ r.content_type
  unfolding set_age
  set_age-type years r = elim (Bool-cases (leb_ℤ (pos 0) years)) [ inl e ↦ simp e | inr e ↦ simp e ]

  after_lookup-hit :
      (env : En) (dconf : CacherDirConf) (rule : CacherRule) (st : St)
      (found : Request × Option CacheHit) (hit : CacheHit)
      → found.1 ≡ some hit
      → ServedWith found.0 hit (after_lookup tk tb dec dg j fs env dconf rule st found)
  unfolding after_lookup
  after_lookup-hit env dconf rule st (q, none) hit e = absurd (cc)
  after_lookup-hit env dconf rule st (q, some h) hit e = record {
    reply_is = ap (λ x. served x) (some_inj h hit e);
    headers_kept = λ name n.
        set_age-kept h.age name _ n
        ∙ set_status-kept dconf (codes "HIT") name _ n
        ∙ setn-Private q.r.headers_out (codes "Content-Length") (dec.print (pos h.length)) name
            (content_length refl) n;
    type_kept = set_age-type h.age _ ∙ set_status-type dconf (codes "HIT") _;
  }

  abbrev pub Hits : En → St → CacherRule → CacheHit → St × Reply → Type 0
  Hits env st rule hit = ServedWith (lookup env st rule).0 hit

  with_rule-hit :
      (env : En) (dconf : CacherDirConf) (rule : CacherRule) (st : St) (hit : CacheHit)
      → request_bypasses tk tb st.request (some rule) ≡ false
      → (lookup env st rule).1 ≡ some hit
      → Hits env st rule hit (with_rule tk tb dec dg j fs env dconf rule st)
  unfolding with_rule
  with_rule-hit env dconf rule st hit b e =
      subst
        (λ t. Hits env st rule hit (
          if t
          then (with_status tk tb dec dg j fs dconf (codes "BYPASS") st, declined)
          else after_lookup tk tb dec dg j fs env dconf rule st (lookup env st rule)))
        (sym b) (after_lookup-hit env dconf rule st (lookup env st rule) hit e)

  after_match-hit :
      (env : En) (dconf : CacherDirConf) (rule : CacherRule) (st : St) (hit : CacheHit)
      → rule.enabled ≡ true
      → request_bypasses tk tb st.request (some rule) ≡ false
      → (lookup env st rule).1 ≡ some hit
      → Hits env st rule hit (after_match tk tb dec dg j fs env dconf (some rule) st)
  unfolding after_match
  after_match-hit env dconf rule st hit on b e =
      subst
        (λ t. Hits env st rule hit (
          if t
          then with_rule tk tb dec dg j fs env dconf rule st
          else (with_status tk tb dec dg j fs dconf (codes "EXCLUDED") st, declined)))
        (sym on) (with_rule-hit env dconf rule st hit b e)

  after_rules-hit :
      (env : En) (dconf : CacherDirConf) (rules : CacherRuleset) (rule : CacherRule) (st : St)
      (found : RulesCacheState × Option CacherRuleset) (hit : CacheHit)
      → found.1 ≡ some rules
      → selected tk tb dec dg j fs st rules ≡ some rule
      → rule.enabled ≡ true
      → request_bypasses tk tb st.request (some rule) ≡ false
      → (lookup env st rule).1 ≡ some hit
      → Hits env st rule hit (after_rules tk tb dec dg j fs env dconf st found)
  unfolding after_rules
  after_rules-hit env dconf rules rule st (cache, none) hit f m on b e = absurd (cc)
  after_rules-hit env dconf rules rule st (cache, some rs) hit f m on b e =
      subst
        (λ x.
          Hits env st rule hit
            (after_match tk tb dec dg j fs env dconf x (record st { rules_cache = cache })))
        (sym (ap (λ x. selected tk tb dec dg j fs st x) (some_inj rs rules f) ∙ m))
        (after_match-hit env dconf rule (record st { rules_cache = cache }) hit on b e)

  LookedUp-cache_phase :
      (env : En) (st : St) (rule : CacherRule) (hit : CacheHit)
      → (l : LookedUp env st rule) → (lookup env st rule).1 ≡ some hit
      → Hits env st rule hit (cache_phase tk tb dec dg j fs env l.dconf st)
  unfolding cache_phase
  LookedUp-cache_phase env st rule hit l e =
      let loaded = config_get_ruleset j env.files st.rules_cache (some l.dconf) in
      subst
        (λ t.
          Hits env st rule hit
            (if t then after_rules tk tb dec dg j fs env l.dconf st loaded else (st, declined)))
        (sym ((eq_ℤ_iff l.dconf.enabled (pos 1)).1 l.module_on))
        (after_rules-hit env l.dconf l.rules rule st loaded hit l.rules_loaded l.matched l.rule_on
          l.not_bypassed e)

  -- A request that is looked up is served what the lookup finds.
  pub LookedUp-served :
      (env : En) (st : St) (rule : CacherRule) (hit : CacheHit)
      → LookedUp env st rule
      → (lookup env st rule).1 ≡ some hit
      → Hits env st rule hit (cacher_handler tk tb dec dg j fs env st)
  unfolding cacher_handler with_config
  LookedUp-served env st rule hit l e =
      subst
        (λ t.
          Hits env st rule hit
            (if t then (st, declined) else with_config tk tb dec dg j fs env env.dconf st))
        (sym l.main_request)
        (subst (λ c. Hits env st rule hit (with_config tk tb dec dg j fs env c st))
          (sym l.configured)
          (subst (λ s. Hits env st rule hit s)
            (sym (outside-cache_phase tk tb dec dg j fs env l.dconf st l.outside_admin))
            (LookedUp-cache_phase env st rule hit l e)))
