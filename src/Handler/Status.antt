-- ===== src/Handler/Status.antt =====
-- The status header that `cacher_handler` of src/mod_cacher.c leaves on the response.
use apache_cacher.Prelude.{
  true, false, Option, none, some, some_inj, Bytes, codes, length, ◌≡◌, ◌≢◌, inl, inr, refl, ◌∙◌,
  ap, arith, if◌then◌else◌, Bool-cases,
}
use apache_cacher.Prelude.Int.{ℤ, pos, leb_ℤ, eq_ℤ, eq_ℤ_iff}
use apache_cacher.Apr.{Strtok, Decimal, Digest, Tables}
use apache_cacher.Cjson.{Cjson}
use apache_cacher.Request.{RequestRec, Request}
use apache_cacher.Rules.{CacherRule, CacherRuleset}
use apache_cacher.Rules.Select.{ruleset_match}
use apache_cacher.Util.{original_request, request_bypasses}
use apache_cacher.Config.{CacherDirConf}
use apache_cacher.Config.RulesCache.{RulesCacheState, config_get_ruleset}
use apache_cacher.Cache.FileSystem.{FileSystem}
use apache_cacher.Cache.Headers.{status_header_name}
use apache_cacher.Cache.Lookup.{CacheHit, cache_lookup}
use apache_cacher.Handler.{
  State, Env, declined, admin_action, match_path, set_status, set_age, set_length, after_lookup,
  with_rule, after_match, after_rules, cache_phase, rewritten_admin, below_admin, with_admin_path,
  with_config, cacher_handler,
}

module _ (tk : Strtok) (tb : Tables) (dec : Decimal) (dg : Digest) (j : Cjson)
    (fs : FileSystem) where
  abbrev St : Type 0
  St = State tk tb dec dg j fs

  abbrev En : Type 0
  En = Env tk tb dec dg j fs

  abbrev pub status_of : St → Option Bytes
  status_of st = tb.table_get st.request.r.headers_out status_header_name

  -- HIT or MISS
  abbrev pub lookup_label : Option CacheHit → Bytes
  lookup_label (some hit) = codes "HIT"
  lookup_label none = codes "MISS"

  -- What the header is to say of a request: no rule covers it, its rule is off, a cookie bypasses
  -- the rule, or what the lookup found.
  abbrev pub label : En → St → Option CacherRule → Bytes
  label env st none = codes "DYNAMIC"
  label env st (some rule) =
      if rule.enabled
      then if request_bypasses tk tb st.request (some rule)
        then codes "BYPASS"
        else lookup_label
            (cache_lookup tk tb dec dg fs st.request st.disk env.now env.later env.cache_root
              rule).1
      else codes "EXCLUDED"

  -- The rule that covers the request.
  abbrev pub selected : St → CacherRuleset → Option CacherRule
  selected st rules =
      ruleset_match (some rules) (some (match_path tk tb dec dg j fs (original_request st.request)))
        (original_request st.request).args (some st.request.r.method)

  -- The request is not for the admin endpoints.
  pub data OutsideAdmin (dconf : CacherDirConf) (q : Request) : Type 0 where
    no_admin_path : dconf.admin_path ≡ none → OutsideAdmin dconf q
    other_path :
        (p : Bytes)
        → dconf.admin_path ≡ some p
        → admin_action p q.r.uri ≡ none
        → rewritten_admin tk tb dec dg j fs p q ≡ false
        → OutsideAdmin dconf q

  module _ (env : En) (dconf : CacherDirConf) where
    set_status_label :
        (text : Bytes) (r : RequestRec)
        → eq_ℤ dconf.status_header (pos 0) ≡ false
        → tb.table_get (set_status tk tb dec dg j fs dconf text r).headers_out status_header_name
          ≡ some text
    unfolding set_status
    set_status_label text r on =
        simp on (tb.get-setn_same r.headers_out status_header_name status_header_name text refl)

    pub set_status_off :
        (text : Bytes) (r : RequestRec)
        → eq_ℤ dconf.status_header (pos 0) ≡ true
        → set_status tk tb dec dg j fs dconf text r ≡ r
    unfolding set_status
    set_status_off text r off = simp off

    pub set_age_status :
        (age : ℤ) (r : RequestRec)
        → tb.table_get (set_age tk tb dec dg j fs age r).headers_out status_header_name
          ≡ tb.table_get r.headers_out status_header_name
    unfolding set_age
    set_age_status age r = elim (Bool-cases (leb_ℤ (pos 0) age)) [
      | inl e ↦ simp e (
          tb.get-setn_other r.headers_out (codes "Age") status_header_name (dec.print age)
            (λ h. absurd (omega (arith, ap length h))))
      | inr e ↦ simp e
    ]

    pub set_length_status :
        (hit : CacheHit) (r : RequestRec)
        → tb.table_get (set_length tk tb dec dg j fs hit r).headers_out status_header_name
          ≡ tb.table_get r.headers_out status_header_name
    set_length_status hit r =
        tb.get-setn_other r.headers_out (codes "Content-Length") status_header_name
          (dec.print (pos hit.length)) (λ h. absurd (omega (arith, ap length h)))

    module _ (on : eq_ℤ dconf.status_header (pos 0) ≡ false) where
      after_lookup_label :
          (rule : CacherRule) (st : St) (found : Request × Option CacheHit)
          → status_of (after_lookup tk tb dec dg j fs env dconf rule st found).0
            ≡ some (lookup_label found.1)
      unfolding after_lookup
      after_lookup_label rule st (q, some hit) =
          set_age_status hit.age _ ∙ set_status_label (codes "HIT") _ on
      after_lookup_label rule st (q, none) = set_status_label (codes "MISS") q.r on

      after_match-label :
          (found : Option CacherRule) (st : St)
          → status_of (after_match tk tb dec dg j fs env dconf found st).0
            ≡ some (label env st found)
      unfolding after_match with_rule
      after_match-label none st = set_status_label (codes "DYNAMIC") st.request.r on
      after_match-label (some rule) st = elim (Bool-cases rule.enabled) [
        | inr off ↦ simp off (set_status_label (codes "EXCLUDED") st.request.r on)
        | inl enabled ↦ elim (Bool-cases (request_bypasses tk tb st.request (some rule))) [
          | inl b ↦ simp (enabled, b) (set_status_label (codes "BYPASS") st.request.r on)
          | inr b ↦ simp (enabled, b) (after_lookup_label rule st _)
        ]
      ]

      cache_phase-label :
          (st : St) (rules : CacherRuleset)
          → dconf.enabled ≡ pos 1
          → (config_get_ruleset j env.files st.rules_cache (some dconf)).1 ≡ some rules
          → status_of (cache_phase tk tb dec dg j fs env dconf st).0
            ≡ some (label env st (selected st rules))
      unfolding cache_phase
      cache_phase-label st rules enabled loaded =
          simp ((eq_ℤ_iff dconf.enabled (pos 1)).1 enabled)
            (by_rules (config_get_ruleset j env.files st.rules_cache (some dconf)) loaded)
        where
          by_rules :
              (found : RulesCacheState × Option CacherRuleset)
              → found.1 ≡ some rules
              → status_of (after_rules tk tb dec dg j fs env dconf st found).0
                ≡ some (label env st (selected st rules))
          by_rules (cache, none) e = absurd (cc)
          by_rules (cache, some rs) e =
              after_match-label (selected st rs) (record st { rules_cache = cache })
              ∙ ap (λ x. some (label env st (selected st x))) (some_inj rs rules e)

    not_off : dconf.status_header ≢ pos 0 → eq_ℤ dconf.status_header (pos 0) ≡ false
    not_off n = elim (Bool-cases (eq_ℤ dconf.status_header (pos 0))) [
      | inl e ↦ absurd (n ((eq_ℤ_iff dconf.status_header (pos 0)).0 e))
      | inr e ↦ e
    ]

    pub outside-cache_phase :
        (st : St)
        → OutsideAdmin dconf st.request
        → with_admin_path tk tb dec dg j fs env dconf dconf.admin_path st
          ≡ cache_phase tk tb dec dg j fs env dconf st
    unfolding with_admin_path below_admin
    outside-cache_phase st (no_admin_path e) =
        ap (λ p. with_admin_path tk tb dec dg j fs env dconf p st) e
    outside-cache_phase st (other_path p e a w) =
        ap (λ p. with_admin_path tk tb dec dg j fs env dconf p st) e
        ∙ ap (λ a. below_admin tk tb dec dg j fs env dconf p a st) a
        ∙ ap (λ b. if b then (st, declined) else cache_phase tk tb dec dg j fs env dconf st) w

  -- The status header says what became of a main request that is not for the admin endpoints,
  -- where the module is on with its rules: DYNAMIC if no rule covers it, EXCLUDED if its rule is
  -- off, BYPASS if a cookie bypasses the rule, else HIT or MISS as the lookup found; unless the
  -- directory turns that header off.
  pub cacher_handler-label :
      (env : En) (dconf : CacherDirConf) (rules : CacherRuleset) (st : St)
      → st.request.r.is_subrequest ≡ false
      → env.dconf ≡ some dconf
      → OutsideAdmin dconf st.request
      → dconf.enabled ≡ pos 1
      → dconf.status_header ≢ pos 0
      → (config_get_ruleset j env.files st.rules_cache (some dconf)).1 ≡ some rules
      → status_of (cacher_handler tk tb dec dg j fs env st).0
        ≡ some (label env st (selected st rules))
  unfolding cacher_handler with_config
  cacher_handler-label env dconf rules st main conf outside enabled header loaded = simp main (
      ap (λ c. status_of (with_config tk tb dec dg j fs env c st).0) conf
      ∙ ap (λ s. status_of s.0) (outside-cache_phase env dconf st outside)
      ∙ cache_phase-label env dconf (not_off env dconf header) st rules enabled loaded)
