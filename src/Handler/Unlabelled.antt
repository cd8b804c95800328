-- ===== src/Handler/Unlabelled.antt =====
-- `cacher_handler` of src/mod_cacher.c in a directory that turns the status header off.
use apache_cacher.Prelude.{
  true, not, ◌&&◌, Option, none, some, Bytes, codes, ◌≡◌, inl, inr, refl, ◌∙◌, ap, Bool-cases,
}
use apache_cacher.Prelude.Int.{ℤ, pos, leb_ℤ, eq_ℤ, eq_ℤ_iff}
use apache_cacher.Apr.{Strtok, Decimal, Digest, Tables}
use apache_cacher.Cjson.{Cjson}
use apache_cacher.Request.{RequestRec, Request}
use apache_cacher.Rules.{CacherRule, CacherRuleset}
use apache_cacher.Util.{request_bypasses}
use apache_cacher.Config.{CacherDirConf}
use apache_cacher.Config.RulesCache.{RulesCacheState}
use apache_cacher.Cache.FileSystem.{FileSystem}
use apache_cacher.Cache.Key.{cache_key_paths}
use apache_cacher.Cache.Headers.{status_header_name}
use apache_cacher.Cache.Headers.Replay.{status_name, replay_headers-Private}
use apache_cacher.Cache.Meta.{CacherEntryMeta}
use apache_cacher.Cache.Lookup.{CacheHit, lookup_meta, lookup_paths, cache_lookup}
use apache_cacher.Handler.{
  State, Env, is_null, set_status, after_lookup, with_rule, after_match, after_rules, cache_phase,
  admin_phase, rewritten_admin, below_admin, with_admin_path, with_config, cacher_handler,
}
use apache_cacher.Handler.Status.{status_of, set_status_off, set_age_status, set_length_status}

module _ (tk : Strtok) (tb : Tables) (dec : Decimal) (dg : Digest) (j : Cjson)
    (fs : FileSystem) where
  open fs use {Disk}

  abbrev St : Type 0
  St = State tk tb dec dg j fs

  abbrev En : Type 0
  En = Env tk tb dec dg j fs

  abbrev header_of : Request → Option Bytes
  header_of q = tb.table_get q.r.headers_out status_header_name

  lookup_meta_status :
      (q : Request) (d : Disk) (now later : ℤ) (body_path : Bytes)
      (entry : Option (CacherEntryMeta × Bytes))
      → header_of (lookup_meta tk tb dec dg fs q d now later body_path entry).0 ≡ header_of q
  unfolding lookup_meta
  lookup_meta_status q d now later body_path none = refl
  lookup_meta_status q d now later body_path (some (meta, headers_at)) =
      elim (Bool-cases (leb_ℤ meta.expires now)) [
        | inl e ↦ simp e
        | inr e ↦
            simp e
              (replay_headers-Private tk tb q.r headers_at status_header_name (status_name refl))
      ]

  lookup_paths_status :
      (q : Request) (d : Disk) (now later : ℤ) (paths : Option (Bytes × Bytes))
      → header_of (lookup_paths tk tb dec dg fs q d now later paths).0 ≡ header_of q
  unfolding lookup_paths
  lookup_paths_status q d now later none = refl
  lookup_paths_status q d now later (some ps) = lookup_meta_status q d now later ps.1 _

  cache_lookup_status :
      (q : Request) (d : Disk) (now later : ℤ) (root : Option Bytes) (rule : CacherRule)
      → header_of (cache_lookup tk tb dec dg fs q d now later root rule).0 ≡ header_of q
  unfolding cache_lookup
  cache_lookup_status q d now later root rule =
      lookup_paths_status q d now later (cache_key_paths tk tb dg q root rule)

  module _ (env : En) (dconf : CacherDirConf) (off : eq_ℤ dconf.status_header (pos 0) ≡ true) where
    abbrev Same : St → St → Type 0
    Same st st' = status_of tk tb dec dg j fs st' ≡ status_of tk tb dec dg j fs st

    set_status_same :
        (text : Bytes) (r : RequestRec)
        → tb.table_get (set_status tk tb dec dg j fs dconf text r).headers_out status_header_name
          ≡ tb.table_get r.headers_out status_header_name
    set_status_same text r =
        ap (λ r. tb.table_get r.headers_out status_header_name)
          (set_status_off tk tb dec dg j fs env dconf text r off)

    after_lookup-Same :
        (rule : CacherRule) (st : St) (found : Request × Option CacheHit)
        → header_of found.0 ≡ header_of st.request
        → Same st (after_lookup tk tb dec dg j fs env dconf rule st found).0
    unfolding after_lookup
    after_lookup-Same rule st (q, some hit) e =
        set_age_status tk tb dec dg j fs env dconf hit.age _
        ∙ set_status_same (codes "HIT") _
        ∙ set_length_status tk tb dec dg j fs env dconf hit (record q.r { status = hit.status })
        ∙ e
    after_lookup-Same rule st (q, none) e = set_status_same (codes "MISS") q.r ∙ e

    after_match-Same :
        (found : Option CacherRule) (st : St)
        → Same st (after_match tk tb dec dg j fs env dconf found st).0
    unfolding after_match with_rule
    after_match-Same none st = set_status_same (codes "DYNAMIC") st.request.r
    after_match-Same (some rule) st = elim (Bool-cases rule.enabled) [
      | inr e ↦ simp e (set_status_same (codes "EXCLUDED") st.request.r)
      | inl e ↦ elim (Bool-cases (request_bypasses tk tb st.request (some rule))) [
        | inl b ↦ simp (e, b) (set_status_same (codes "BYPASS") st.request.r)
        | inr b ↦
            simp (e, b)
              (after_lookup-Same rule st
                (cache_lookup tk tb dec dg fs st.request st.disk env.now env.later env.cache_root
                  rule)
                (cache_lookup_status st.request st.disk env.now env.later env.cache_root rule))
      ]
    ]

    after_rules-Same :
        (st : St) (found : RulesCacheState × Option CacherRuleset)
        → Same st (after_rules tk tb dec dg j fs env dconf st found).0
    unfolding after_rules
    after_rules-Same st (cache, none) = refl
    after_rules-Same st (cache, some rules) = after_match-Same _ (record st { rules_cache = cache })

    cache_phase-Same : (st : St) → Same st (cache_phase tk tb dec dg j fs env dconf st).0
    unfolding cache_phase
    cache_phase-Same st = elim (Bool-cases (eq_ℤ dconf.enabled (pos 1))) [
      | inl e ↦ simp e (after_rules-Same st _)
      | inr e ↦ simp e
    ]

    admin_phase-Same :
        (action : Bytes) (st : St) → Same st (admin_phase tk tb dec dg j fs env dconf action st).0
    unfolding admin_phase
    admin_phase-Same action st =
        elim (Bool-cases
          (not (eq_ℤ dconf.admin_require_user (pos 0)) && is_null st.request.r.user)) [
            | inl e ↦ simp e
            | inr e ↦ simp e
          ]

    below_admin-Same :
        (p : Bytes) (action : Option Bytes) (st : St)
        → Same st (below_admin tk tb dec dg j fs env dconf p action st).0
    unfolding below_admin
    below_admin-Same p (some action) st = admin_phase-Same action st
    below_admin-Same p none st =
        elim (Bool-cases (rewritten_admin tk tb dec dg j fs p st.request)) [
          | inl e ↦ simp e
          | inr e ↦ simp e (cache_phase-Same st)
        ]

    with_admin_path-Same :
        (p : Option Bytes) (st : St) → Same st (with_admin_path tk tb dec dg j fs env dconf p st).0
    unfolding with_admin_path
    with_admin_path-Same none st = cache_phase-Same st
    with_admin_path-Same (some p) st = below_admin-Same p _ st

  -- In a directory that turns the status header off, the handler leaves that header as it was on
  -- every branch, also where a stored header block that it replays holds such a line.
  pub cacher_handler_unlabelled :
      (env : En) (dconf : CacherDirConf) (st : St)
      → env.dconf ≡ some dconf
      → dconf.status_header ≡ pos 0
      → status_of tk tb dec dg j fs (cacher_handler tk tb dec dg j fs env st).0
        ≡ status_of tk tb dec dg j fs st
  unfolding cacher_handler with_config
  cacher_handler_unlabelled env dconf st conf off = elim (Bool-cases st.request.r.is_subrequest) [
    | inl e ↦ simp e
    | inr e ↦ simp e (
        ap (λ c. status_of tk tb dec dg j fs (with_config tk tb dec dg j fs env c st).0) conf
        ∙ with_admin_path-Same env dconf ((eq_ℤ_iff dconf.status_header (pos 0)).1 off)
            dconf.admin_path st)
  ]
