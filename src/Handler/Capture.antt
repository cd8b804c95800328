-- ===== src/Handler/Capture.antt =====
-- `cacher_handler` of src/mod_cacher.c: when it adds the capture filter.
use apache_cacher.Prelude.{
  true, false, ◌&&◌, not, Option, none, some, Bytes, ◌≡◌, inl, inr, refl, Bool-cases, ap, sym, ◌∙◌,
  codes,
}
use apache_cacher.Prelude.Int.{pos, eq_ℤ, eq_ℤ_iff}
use apache_cacher.Apr.{Strtok, Decimal, Digest, Tables}
use apache_cacher.Cjson.{Cjson}
use apache_cacher.Request.{Request}
use apache_cacher.Rules.{CacherRule, CacherRuleset}
use apache_cacher.Util.{request_bypasses}
use apache_cacher.Config.{CacherDirConf, or_else}
use apache_cacher.Config.RulesCache.{RulesCacheState}
use apache_cacher.Cache.FileSystem.{FileSystem}
use apache_cacher.Cache.Lookup.{CacheHit, cache_lookup}
use apache_cacher.Cache.Write.{CacherOutCtx, insert_filter}
use apache_cacher.Handler.{
  set_status, is_null, State, Env, after_lookup, with_rule, after_match, after_rules, cache_phase,
  admin_phase, rewritten_admin, below_admin, with_admin_path, with_config, cacher_handler,
}

module _ (tk : Strtok) (tb : Tables) (dec : Decimal) (dg : Digest) (j : Cjson)
    (fs : FileSystem) where
  abbrev St : Type 0
  St = State tk tb dec dg j fs

  abbrev En : Type 0
  En = Env tk tb dec dg j fs

  abbrev lookup : En → St → CacherRule → Request × Option CacheHit
  lookup env st rule =
      cache_lookup tk tb dec dg fs st.request st.disk env.now env.later env.cache_root rule

  -- The lookup under an enabled rule that nothing bypasses was a miss, and the filter's context is
  -- the one for the request that the lookup leaves.
  pub record FilterFor (env : En) (st : St) (dconf : CacherDirConf) (ctx : CacherOutCtx)
      : Type 0 where
    pub rule : CacherRule
    pub rule_on : rule.enabled ≡ true
    pub not_bypassed : request_bypasses tk tb st.request (some rule) ≡ false
    pub missed : (lookup env st rule).1 ≡ none
    pub inserted :
        insert_filter tk tb dg
          (record (lookup env st rule).0 {
            r = set_status tk tb dec dg j fs dconf (codes "MISS") (lookup env st rule).0.r;
          })
          env.cache_root
          rule
        ≡ some ctx

  after_lookup-filter :
      (env : En) (dconf : CacherDirConf) (rule : CacherRule) (st : St)
      (found : Request × Option CacheHit) (ctx : CacherOutCtx)
      → st.filter ≡ none
      → (after_lookup tk tb dec dg j fs env dconf rule st found).0.filter ≡ some ctx
      → (found.1 ≡ none)
        × (insert_filter tk tb dg
              (record found.0 { r = set_status tk tb dec dg j fs dconf (codes "MISS") found.0.r })
              env.cache_root
              rule
            ≡ some ctx)
  unfolding after_lookup
  after_lookup-filter env dconf rule st (q, some h) ctx n e = absurd (cc (n, e))
  after_lookup-filter env dconf rule st (q, none) ctx n e =
      (refl, without_old _ ctx (ap (or_else _) (sym n) ∙ e))
    where
      without_old :
          (o : Option CacherOutCtx) (ctx : CacherOutCtx) → or_else o none ≡ some ctx → o ≡ some ctx
      without_old none ctx e = e
      without_old (some x) ctx e = e

  with_rule-filter :
      (env : En) (dconf : CacherDirConf) (rule : CacherRule) (st : St) (ctx : CacherOutCtx)
      → rule.enabled ≡ true
      → st.filter ≡ none
      → (with_rule tk tb dec dg j fs env dconf rule st).0.filter ≡ some ctx
      → FilterFor env st dconf ctx
  unfolding with_rule
  with_rule-filter env dconf rule st ctx on n e =
      elim (Bool-cases (request_bypasses tk tb st.request (some rule))) [
        | inl b ↦ absurd (cc (n, simp b at e))
        | inr b ↦
            let (missed, inserted) = after_lookup-filter env dconf rule st _ ctx n (simp b at e) in
            record {
              rule = rule;
              rule_on = on;
              not_bypassed = b;
              missed = missed;
              inserted = inserted;
            }
      ]

  after_match-filter :
      (env : En) (dconf : CacherDirConf) (found : Option CacherRule) (st : St) (ctx : CacherOutCtx)
      → st.filter ≡ none
      → (after_match tk tb dec dg j fs env dconf found st).0.filter ≡ some ctx
      → FilterFor env st dconf ctx
  unfolding after_match
  after_match-filter env dconf none st ctx n e = absurd (cc (n, e))
  after_match-filter env dconf (some rule) st ctx n e = elim (Bool-cases rule.enabled) [
    | inl on ↦ with_rule-filter env dconf rule st ctx on n (simp on at e)
    | inr off ↦ absurd (cc (n, simp off at e))
  ]

  after_rules-filter :
      (env : En) (dconf : CacherDirConf) (st : St) (found : RulesCacheState × Option CacherRuleset)
      (ctx : CacherOutCtx)
      → st.filter ≡ none
      → (after_rules tk tb dec dg j fs env dconf st found).0.filter ≡ some ctx
      → FilterFor env st dconf ctx
  unfolding after_rules
  after_rules-filter env dconf st (cache, none) ctx n e = absurd (cc (n, e))
  after_rules-filter env dconf st (cache, some rules) ctx n e =
      let f = after_match-filter env dconf _ (record st { rules_cache = cache }) ctx n e in
      record {
        rule = f.rule;
        rule_on = f.rule_on;
        not_bypassed = f.not_bypassed;
        missed = f.missed;
        inserted = f.inserted;
      }

  -- The filter stands where the module is on.
  abbrev pub FilterOn : En → CacherDirConf → St → CacherOutCtx → Type 0
  FilterOn env dconf st ctx = (dconf.enabled ≡ pos 1) × FilterFor env st dconf ctx

  cache_phase-filter :
      (env : En) (dconf : CacherDirConf) (st : St) (ctx : CacherOutCtx)
      → st.filter ≡ none
      → (cache_phase tk tb dec dg j fs env dconf st).0.filter ≡ some ctx
      → FilterOn env dconf st ctx
  unfolding cache_phase
  cache_phase-filter env dconf st ctx n e = elim (Bool-cases (eq_ℤ dconf.enabled (pos 1))) [
    | inl on ↦ (
      (eq_ℤ_iff dconf.enabled (pos 1)).0 on,
      after_rules-filter env dconf st _ ctx n (simp on at e),
    )
    | inr off ↦ absurd (cc (n, simp off at e))
  ]

  admin_phase-filter :
      (env : En) (dconf : CacherDirConf) (action : Bytes) (st : St)
      → (admin_phase tk tb dec dg j fs env dconf action st).0.filter ≡ st.filter
  unfolding admin_phase
  admin_phase-filter env dconf action st =
      elim (Bool-cases (not (eq_ℤ dconf.admin_require_user (pos 0)) && is_null st.request.r.user)) [
        | inl b ↦ simp b
        | inr b ↦ simp b
      ]

  below_admin-filter :
      (env : En) (dconf : CacherDirConf) (admin_path : Bytes) (action : Option Bytes) (st : St)
      (ctx : CacherOutCtx)
      → st.filter ≡ none
      → (below_admin tk tb dec dg j fs env dconf admin_path action st).0.filter ≡ some ctx
      → FilterOn env dconf st ctx
  unfolding below_admin
  below_admin-filter env dconf admin_path (some action) st ctx n e =
      absurd (cc (n, e, admin_phase-filter env dconf action st))
  below_admin-filter env dconf admin_path none st ctx n e =
      elim (Bool-cases (rewritten_admin tk tb dec dg j fs admin_path st.request)) [
        | inl b ↦ absurd (cc (n, simp b at e))
        | inr b ↦ cache_phase-filter env dconf st ctx n (simp b at e)
      ]

  with_admin_path-filter :
      (env : En) (dconf : CacherDirConf) (admin_path : Option Bytes) (st : St) (ctx : CacherOutCtx)
      → st.filter ≡ none
      → (with_admin_path tk tb dec dg j fs env dconf admin_path st).0.filter ≡ some ctx
      → FilterOn env dconf st ctx
  unfolding with_admin_path
  with_admin_path-filter env dconf none st ctx n e = cache_phase-filter env dconf st ctx n e
  with_admin_path-filter env dconf (some p) st ctx n e = below_admin-filter env dconf p _ st ctx n e

  with_config-filter :
      (env : En) (conf : Option CacherDirConf) (st : St) (ctx : CacherOutCtx)
      → st.filter ≡ none
      → (with_config tk tb dec dg j fs env conf st).0.filter ≡ some ctx
      → (dconf : CacherDirConf) × (conf ≡ some dconf) × FilterOn env dconf st ctx
  unfolding with_config
  with_config-filter env none st ctx n e = absurd (cc (n, e))
  with_config-filter env (some dconf) st ctx n e =
      (dconf, refl, with_admin_path-filter env dconf dconf.admin_path st ctx n e)

  -- The handler adds the capture filter only where the module is on, after a miss of the lookup
  -- under an enabled rule that no cookie of the request bypasses, and the filter is the one for that
  -- rule and the request as the lookup and the status header left it.
  pub cacher_handler-filter :
      (env : En) (st : St) (ctx : CacherOutCtx)
      → st.filter ≡ none
      → (cacher_handler tk tb dec dg j fs env st).0.filter ≡ some ctx
      → (dconf : CacherDirConf) × (env.dconf ≡ some dconf) × FilterOn env dconf st ctx
  unfolding cacher_handler
  cacher_handler-filter env st ctx n e = elim (Bool-cases st.request.r.is_subrequest) [
    | inl b ↦ absurd (cc (n, simp b at e))
    | inr b ↦ with_config-filter env env.dconf st ctx n (simp b at e)
  ]
