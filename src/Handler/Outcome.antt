-- ===== src/Handler/Outcome.antt =====
-- `cacher_handler` of src/mod_cacher.c: what stands behind a served response.
use apache_cacher.Prelude.{
  true, false, ◌&&◌, not, Option, none, some, Bytes, ◌≡◌, ◌≢◌, inl, inr, refl, ap, Bool-cases,
}
use apache_cacher.Prelude.Int.{pos, eq_ℤ, eq_ℤ_iff}
use apache_cacher.Apr.{Strtok, Decimal, Digest, Tables}
use apache_cacher.Cjson.{Cjson}
use apache_cacher.Request.{Request}
use apache_cacher.Rules.{CacherRule, CacherRuleset}
use apache_cacher.Rules.Select.{ruleset_match}
use apache_cacher.Util.{original_request, request_bypasses}
use apache_cacher.Config.{CacherDirConf}
use apache_cacher.Config.RulesCache.{RulesCacheState, config_get_ruleset}
use apache_cacher.Cache.FileSystem.{FileSystem}
use apache_cacher.Cache.Lookup.{CacheHit, cache_lookup}
use apache_cacher.Handler.{
  Reply, served, is_null, State, Env, match_path, after_lookup, with_rule, after_match, after_rules,
  cache_phase, admin_phase, rewritten_admin, below_admin, with_admin_path, with_config,
  cacher_handler,
}

abbrev hit_of : Reply → Option CacheHit
hit_of (served hit) = some hit
hit_of _ = none

module _ (tk : Strtok) (tb : Tables) (dec : Decimal) (dg : Digest) (j : Cjson)
    (fs : FileSystem) where
  abbrev St : Type 0
  St = State tk tb dec dg j fs

  abbrev En : Type 0
  En = Env tk tb dec dg j fs

  -- The answer of `cacher_cache_lookup` for the rule, on the state that the handler was given.
  abbrev looked_up : En → St → CacherRule → Option CacheHit
  looked_up env st rule =
      (cache_lookup tk tb dec dg fs st.request st.disk env.now env.later env.cache_root rule).1

  -- The rule under which the request may be cached, found by the configuration's ruleset.
  pub record ServedBy (env : En) (st : St) (hit : CacheHit) : Type 0 where
    pub dconf : CacherDirConf
    pub rules : CacherRuleset
    pub rule : CacherRule
    pub main_request : st.request.r.is_subrequest ≡ false
    pub configured : env.dconf ≡ some dconf
    pub module_on : dconf.enabled ≡ pos 1
    pub rules_loaded : (config_get_ruleset j env.files st.rules_cache (some dconf)).1 ≡ some rules
    pub matched :
        ruleset_match
          (some rules)
          (some (match_path tk tb dec dg j fs (original_request st.request)))
          (original_request st.request).args
          (some st.request.r.method)
        ≡ some rule
    pub rule_on : rule.enabled ≡ true
    pub not_bypassed : request_bypasses tk tb st.request (some rule) ≡ false
    pub found : looked_up env st rule ≡ some hit

  after_lookup-served :
      (env : En) (dconf : CacherDirConf) (rule : CacherRule) (st : St)
      (found : Request × Option CacheHit) (hit : CacheHit)
      → hit_of (after_lookup tk tb dec dg j fs env dconf rule st found).1 ≡ some hit
      → found.1 ≡ some hit
  unfolding after_lookup
  after_lookup-served env dconf rule st (q, some h) hit e = e
  after_lookup-served env dconf rule st (q, none) hit e = e

  with_rule-served :
      (env : En) (dconf : CacherDirConf) (rule : CacherRule) (st : St) (hit : CacheHit)
      → hit_of (with_rule tk tb dec dg j fs env dconf rule st).1 ≡ some hit
      → (request_bypasses tk tb st.request (some rule) ≡ false) × (looked_up env st rule ≡ some hit)
  unfolding with_rule
  with_rule-served env dconf rule st hit e =
      elim (Bool-cases (request_bypasses tk tb st.request (some rule))) [
        | inl b ↦ absurd (cc (simp b at e))
        | inr b ↦ (b, after_lookup-served env dconf rule st _ hit (simp b at e))
      ]

  -- What `after_match` has found where it serves.
  record MatchServed (env : En) (st : St) (found : Option CacherRule) (hit : CacheHit)
      : Type 0 where
    rule : CacherRule
    matched : found ≡ some rule
    rule_on : rule.enabled ≡ true
    passed :
        (request_bypasses tk tb st.request (some rule) ≡ false) × (looked_up env st rule ≡ some hit)

  after_match-served :
      (env : En) (dconf : CacherDirConf) (found : Option CacherRule) (st : St) (hit : CacheHit)
      → hit_of (after_match tk tb dec dg j fs env dconf found st).1 ≡ some hit
      → MatchServed env st found hit
  unfolding after_match
  after_match-served env dconf none st hit e = absurd (cc)
  after_match-served env dconf (some rule) st hit e = elim (Bool-cases rule.enabled) [
    | inl on ↦ record {
      rule = rule;
      matched = refl;
      rule_on = on;
      passed = with_rule-served env dconf rule st hit (simp on at e);
    }
    | inr off ↦ absurd (cc (simp off at e))
  ]

  -- What `after_rules` has found where it serves.
  record RulesServed (env : En) (st : St) (found : Option CacherRuleset) (hit : CacheHit)
      : Type 0 where
    rules : CacherRuleset
    rules_loaded : found ≡ some rules
    by_rule :
        MatchServed env st
          (ruleset_match
            (some rules)
            (some (match_path tk tb dec dg j fs (original_request st.request)))
            (original_request st.request).args
            (some st.request.r.method))
          hit

  after_rules-served :
      (env : En) (dconf : CacherDirConf) (st : St) (found : RulesCacheState × Option CacherRuleset)
      (hit : CacheHit)
      → hit_of (after_rules tk tb dec dg j fs env dconf st found).1 ≡ some hit
      → RulesServed env st found.1 hit
  unfolding after_rules
  after_rules-served env dconf st (cache, none) hit e = absurd (cc)
  after_rules-served env dconf st (cache, some rules) hit e =
      let m = after_match-served env dconf _ (record st { rules_cache = cache }) hit e in
      record {
        rules = rules;
        rules_loaded = refl;
        by_rule = record {
          rule = m.rule;
          matched = m.matched;
          rule_on = m.rule_on;
          passed = m.passed;
        };
      }

  -- What the part behind the admin endpoints has found where it serves.
  abbrev CacheServed : En → CacherDirConf → St → CacheHit → Type 0
  CacheServed env dconf st hit =
      (dconf.enabled ≡ pos 1)
      × RulesServed env st (config_get_ruleset j env.files st.rules_cache (some dconf)).1 hit

  cache_phase-served :
      (env : En) (dconf : CacherDirConf) (st : St) (hit : CacheHit)
      → hit_of (cache_phase tk tb dec dg j fs env dconf st).1 ≡ some hit
      → CacheServed env dconf st hit
  unfolding cache_phase
  cache_phase-served env dconf st hit e = elim (Bool-cases (eq_ℤ dconf.enabled (pos 1))) [
    | inl on ↦ (
      (eq_ℤ_iff dconf.enabled (pos 1)).0 on,
      after_rules-served env dconf st _ hit (simp on at e),
    )
    | inr off ↦ absurd (cc (simp off at e))
  ]

  admin_phase-served :
      (env : En) (dconf : CacherDirConf) (action : Bytes) (st : St) (hit : CacheHit)
      → hit_of (admin_phase tk tb dec dg j fs env dconf action st).1 ≢ some hit
  unfolding admin_phase
  admin_phase-served env dconf action st hit e =
      elim (Bool-cases (not (eq_ℤ dconf.admin_require_user (pos 0)) && is_null st.request.r.user)) [
        | inl b ↦ cc (simp b at e)
        | inr b ↦ cc (simp b at e)
      ]

  below_admin-served :
      (env : En) (dconf : CacherDirConf) (admin_path : Bytes) (action : Option Bytes) (st : St)
      (hit : CacheHit)
      → hit_of (below_admin tk tb dec dg j fs env dconf admin_path action st).1 ≡ some hit
      → CacheServed env dconf st hit
  unfolding below_admin
  below_admin-served env dconf admin_path (some action) st hit e =
      absurd (admin_phase-served env dconf action st hit e)
  below_admin-served env dconf admin_path none st hit e =
      elim (Bool-cases (rewritten_admin tk tb dec dg j fs admin_path st.request)) [
        | inl b ↦ absurd (cc (simp b at e))
        | inr b ↦ cache_phase-served env dconf st hit (simp b at e)
      ]

  with_admin_path-served :
      (env : En) (dconf : CacherDirConf) (admin_path : Option Bytes) (st : St) (hit : CacheHit)
      → hit_of (with_admin_path tk tb dec dg j fs env dconf admin_path st).1 ≡ some hit
      → CacheServed env dconf st hit
  unfolding with_admin_path
  with_admin_path-served env dconf none st hit e = cache_phase-served env dconf st hit e
  with_admin_path-served env dconf (some p) st hit e = below_admin-served env dconf p _ st hit e

  with_config-served :
      (env : En) (conf : Option CacherDirConf) (st : St) (hit : CacheHit)
      → hit_of (with_config tk tb dec dg j fs env conf st).1 ≡ some hit
      → (dconf : CacherDirConf) × (conf ≡ some dconf) × CacheServed env dconf st hit
  unfolding with_config
  with_config-served env none st hit e = absurd (cc)
  with_config-served env (some dconf) st hit e =
      (dconf, refl, with_admin_path-served env dconf dconf.admin_path st hit e)

  -- The handler serves a response from the cache only for a main request of a directory where the
  -- module is on, under the rule that its ruleset selects, if that rule is enabled and no cookie of
  -- the request bypasses it, and then what is served is the hit of the lookup under that rule.
  pub cacher_handler-served :
      (env : En) (st : St) (hit : CacheHit)
      → (cacher_handler tk tb dec dg j fs env st).1 ≡ served hit
      → ServedBy env st hit
  unfolding cacher_handler
  cacher_handler-served env st hit e = elim (Bool-cases st.request.r.is_subrequest) [
    | inl b ↦ absurd (cc (simp b at e))
    | inr b ↦
        let (dconf, conf, (on, r)) =
          with_config-served env env.dconf st hit (ap hit_of (simp b at e)) in
        record {
          dconf = dconf;
          rules = r.rules;
          rule = r.by_rule.rule;
          main_request = b;
          configured = conf;
          module_on = on;
          rules_loaded = r.rules_loaded;
          matched = r.by_rule.matched;
          rule_on = r.by_rule.rule_on;
          not_bypassed = r.by_rule.passed.0;
          found = r.by_rule.passed.1;
        }
  ]
