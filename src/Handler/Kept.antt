-- ===== src/Handler/Kept.antt =====
-- `cacher_handler` of src/mod_cacher.c: the disk, and requests to the admin path.
use apache_cacher.Prelude.{
  Bool, true, false, ◌&&◌, not, Option, none, some, Bytes, ◌≡◌, ◌≢◌, inl, inr, refl, Bool-cases,
}
use apache_cacher.Prelude.Int.{pos, eq_ℤ, eq_ℤ_iff}
use apache_cacher.Apr.{Strtok, Decimal, Digest, Tables}
use apache_cacher.Cjson.{Cjson}
use apache_cacher.Request.{Request}
use apache_cacher.Rules.{CacherRule, CacherRuleset}
use apache_cacher.Util.{request_bypasses}
use apache_cacher.Config.{CacherDirConf}
use apache_cacher.Config.RulesCache.{RulesCacheState}
use apache_cacher.Cache.FileSystem.{FileSystem}
use apache_cacher.Cache.Lookup.{CacheHit}
use apache_cacher.Handler.{
  Reply, forbidden, admin, admin_action, is_null, State, Env, after_lookup, with_rule, after_match,
  after_rules, cache_phase, admin_phase, rewritten_admin, below_admin, with_admin_path, with_config,
  cacher_handler,
}

-- The answer is the admin endpoint's.
abbrev pub is_admin : Reply → Bool
is_admin (admin code answer) = true
is_admin _ = false

module _ (tk : Strtok) (tb : Tables) (dec : Decimal) (dg : Digest) (j : Cjson)
    (fs : FileSystem) where
  abbrev St : Type 0
  St = State tk tb dec dg j fs

  abbrev En : Type 0
  En = Env tk tb dec dg j fs

  after_lookup_disk :
      (env : En) (dconf : CacherDirConf) (rule : CacherRule) (st : St)
      (found : Request × Option CacheHit)
      → (after_lookup tk tb dec dg j fs env dconf rule st found).0.disk ≡ st.disk
  unfolding after_lookup
  after_lookup_disk env dconf rule st (q, some h) = refl
  after_lookup_disk env dconf rule st (q, none) = refl

  with_rule_disk :
      (env : En) (dconf : CacherDirConf) (rule : CacherRule) (st : St)
      → (with_rule tk tb dec dg j fs env dconf rule st).0.disk ≡ st.disk
  unfolding with_rule
  with_rule_disk env dconf rule st =
      elim (Bool-cases (request_bypasses tk tb st.request (some rule))) [
        | inl b ↦ simp b
        | inr b ↦ simp (b, after_lookup_disk env dconf rule st)
      ]

  after_match_disk :
      (env : En) (dconf : CacherDirConf) (found : Option CacherRule) (st : St)
      → (after_match tk tb dec dg j fs env dconf found st).0.disk ≡ st.disk
  unfolding after_match
  after_match_disk env dconf none st = refl
  after_match_disk env dconf (some rule) st = elim (Bool-cases rule.enabled) [
    | inl on ↦ simp (on, with_rule_disk env dconf rule st)
    | inr off ↦ simp off
  ]

  after_rules_disk :
      (env : En) (dconf : CacherDirConf) (st : St) (found : RulesCacheState × Option CacherRuleset)
      → (after_rules tk tb dec dg j fs env dconf st found).0.disk ≡ st.disk
  unfolding after_rules
  after_rules_disk env dconf st (cache, none) = refl
  after_rules_disk env dconf st (cache, some rules) =
      after_match_disk env dconf _ (record st { rules_cache = cache })

  cache_phase_disk :
      (env : En) (dconf : CacherDirConf) (st : St)
      → (cache_phase tk tb dec dg j fs env dconf st).0.disk ≡ st.disk
  unfolding cache_phase
  cache_phase_disk env dconf st = elim (Bool-cases (eq_ℤ dconf.enabled (pos 1))) [
    | inl on ↦ simp (on, after_rules_disk env dconf st)
    | inr off ↦ simp off
  ]

  admin_phase_disk :
      (env : En) (dconf : CacherDirConf) (action : Bytes) (st : St)
      → is_admin (admin_phase tk tb dec dg j fs env dconf action st).1 ≡ false
      → (admin_phase tk tb dec dg j fs env dconf action st).0.disk ≡ st.disk
  unfolding admin_phase
  admin_phase_disk env dconf action st e =
      elim (Bool-cases (not (eq_ℤ dconf.admin_require_user (pos 0)) && is_null st.request.r.user)) [
        | inl b ↦ simp b
        | inr b ↦ absurd (cc (simp b at e))
      ]

  below_admin_disk :
      (env : En) (dconf : CacherDirConf) (admin_path : Bytes) (action : Option Bytes) (st : St)
      → is_admin (below_admin tk tb dec dg j fs env dconf admin_path action st).1 ≡ false
      → (below_admin tk tb dec dg j fs env dconf admin_path action st).0.disk ≡ st.disk
  unfolding below_admin
  below_admin_disk env dconf admin_path (some action) st e = admin_phase_disk env dconf action st e
  below_admin_disk env dconf admin_path none st e =
      elim (Bool-cases (rewritten_admin tk tb dec dg j fs admin_path st.request)) [
        | inl b ↦ simp b
        | inr b ↦ simp (b, cache_phase_disk env dconf st)
      ]

  with_admin_path_disk :
      (env : En) (dconf : CacherDirConf) (admin_path : Option Bytes) (st : St)
      → is_admin (with_admin_path tk tb dec dg j fs env dconf admin_path st).1 ≡ false
      → (with_admin_path tk tb dec dg j fs env dconf admin_path st).0.disk ≡ st.disk
  unfolding with_admin_path
  with_admin_path_disk env dconf none st e = cache_phase_disk env dconf st
  with_admin_path_disk env dconf (some p) st e = below_admin_disk env dconf p _ st e

  with_config_disk :
      (env : En) (conf : Option CacherDirConf) (st : St)
      → is_admin (with_config tk tb dec dg j fs env conf st).1 ≡ false
      → (with_config tk tb dec dg j fs env conf st).0.disk ≡ st.disk
  unfolding with_config
  with_config_disk env none st e = refl
  with_config_disk env (some dconf) st e = with_admin_path_disk env dconf dconf.admin_path st e

  -- The handler itself changes the disk only where the admin endpoint answers.
  pub cacher_handler_disk :
      (env : En) (st : St)
      → is_admin (cacher_handler tk tb dec dg j fs env st).1 ≡ false
      → (cacher_handler tk tb dec dg j fs env st).0.disk ≡ st.disk
  unfolding cacher_handler
  cacher_handler_disk env st e = elim (Bool-cases st.request.r.is_subrequest) [
    | inl b ↦ simp b
    | inr b ↦ simp b (with_config_disk env env.dconf st (simp b at e))
  ]

  -- Where the admin endpoints want a user and the request has none, a main request below the admin
  -- path is forbidden and changes nothing.
  pub cacher_handler-admin_phase :
      (env : En) (st : St) (dconf : CacherDirConf) (admin_path action : Bytes)
      → st.request.r.is_subrequest ≡ false
      → env.dconf ≡ some dconf
      → dconf.admin_path ≡ some admin_path
      → admin_action admin_path st.request.r.uri ≡ some action
      → dconf.admin_require_user ≢ pos 0
      → st.request.r.user ≡ none
      → cacher_handler tk tb dec dg j fs env st ≡ (st, forbidden)
  unfolding cacher_handler with_config with_admin_path below_admin admin_phase
  cacher_handler-admin_phase env st dconf admin_path action m c p a w u =
      elim (Bool-cases (eq_ℤ dconf.admin_require_user (pos 0))) [
        | inl b ↦ absurd (w ((eq_ℤ_iff dconf.admin_require_user (pos 0)).0 b))
        | inr b ↦ simp (m, c, p, a, u, b)
      ]
