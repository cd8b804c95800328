-- ===== src/Handler.antt =====
-- `cacher_handler` of src/mod_cacher.c. The state is what the handler reads and leaves: the disk, the
-- cache of rules files, the request, and the context of the capture filter, if it adds one.
pub mod Outcome
pub mod Kept
pub mod Capture
pub mod Status
pub mod Unlabelled
pub mod Hits
pub mod Twice
use apache_cacher.Prelude.{
  ℕ, Bool, true, false, ◌&&◌, ◌||◌, not, List, [], ◌∷◌, ◌++◌, Option, none, some, ◌==◌,
  if◌then◌else◌, Bytes, codes, strip_prefix, get_or,
}
use apache_cacher.Prelude.Int.{ℤ, pos, leb_ℤ, eq_ℤ}
use apache_cacher.Apr.{Strtok, Decimal, Digest, Tables}
use apache_cacher.Cjson.{Cjson}
use apache_cacher.Request.{RequestRec, Request}
use apache_cacher.Rules.{CacherRule, CacherRuleset}
use apache_cacher.Rules.Select.{ruleset_match}
use apache_cacher.Util.{original_request, request_bypasses}
use apache_cacher.Config.{CacherDirConf, or_else}
use apache_cacher.Config.RulesCache.{Files, RulesCacheState, config_get_ruleset}
use apache_cacher.Cache.FileSystem.{FileSystem}
use apache_cacher.Cache.Headers.{status_header_name}
use apache_cacher.Cache.Lookup.{CacheHit, cache_lookup}
use apache_cacher.Cache.Write.{CacherOutCtx, insert_filter}
use apache_cacher.Admin.{Answer, admin_handle}

-- What the handler returns: DECLINED, HTTP_FORBIDDEN, the status of the admin endpoint with its
-- answer, or OK after the body of a hit was sent.
pub data Reply : Type 0 where
  declined : Reply
  forbidden : Reply
  admin : ℤ → Answer → Reply
  served : CacheHit → Reply

-- Where the URI behind the admin path starts, if the URI lies below that path.
abbrev pub below_path : Option Bytes → Option Bytes
below_path none = none
below_path (some []) = some []
below_path (some (c ∷ rest)) = if c == b'/' then some (c ∷ rest) else none

-- strncmp(uri, admin_path, admin_len) == 0 && (uri[admin_len] == '\0' || uri[admin_len] == '/')
unfoldable pub admin_action : Bytes → Bytes → Option Bytes
admin_action admin_path uri = below_path (strip_prefix admin_path uri)

abbrev pub is_null : {A : Type 0} → Option A → Bool
is_null none = true
is_null (some _) = false

abbrev pub has_prev : List RequestRec → Bool
has_prev [] = false
has_prev (_ ∷ _) = true

module _ (tk : Strtok) (tb : Tables) (dec : Decimal) (dg : Digest) (j : Cjson)
    (fs : FileSystem) where
  open fs use {Disk}

  pub record State : Type 0 where
    pub disk : Disk
    pub rules_cache : RulesCacheState
    pub request : Request
    -- the context of the CACHER_OUT filter, once it is inserted
    pub filter : Option CacherOutCtx

  -- What the handler is called with: both configurations, the answers about rules files, and the
  -- seconds that apr_time_now returns.
  pub record Env : Type 0 where
    pub dconf : Option CacherDirConf
    pub cache_root : Option Bytes
    pub files : Files
    pub now : ℤ
    pub later : ℤ

  unfoldable pub set_status : CacherDirConf → Bytes → RequestRec → RequestRec
  unfolding eq_ℤ
  set_status dconf text r =
      if eq_ℤ dconf.status_header (pos 0)
      then r
      else record r { headers_out = tb.table_setn r.headers_out status_header_name text }

  abbrev pub with_status : CacherDirConf → Bytes → State → State
  with_status dconf text st = record st {
    request = record st.request { r = set_status dconf text st.request.r };
  }

  -- if (age >= 0) apr_table_setn(…, "Age", …)
  unfoldable pub set_age : ℤ → RequestRec → RequestRec
  set_age age r =
      if leb_ℤ (pos 0) age
      then record r { headers_out = tb.table_setn r.headers_out (codes "Age") (dec.print age) }
      else r

  -- ap_set_content_length, which sets the header
  abbrev pub set_length : CacheHit → RequestRec → RequestRec
  set_length hit r = record r {
    headers_out = tb.table_setn r.headers_out (codes "Content-Length") (dec.print (pos hit.length));
  }

  -- what follows cacher_cache_lookup
  unfoldable pub after_lookup :
      Env → CacherDirConf → CacherRule → State → Request × Option CacheHit → State × Reply
  unfolding set_status set_age
  after_lookup env dconf rule st (q, some hit) =
      let replied = set_length hit (record q.r { status = hit.status }) in
      let headed = set_age hit.age (set_status dconf (codes "HIT") replied) in
      (record st { request = record q { r = headed } }, served hit)
  after_lookup env dconf rule st (q, none) =
      let missed = record q { r = set_status dconf (codes "MISS") q.r } in
      (
        record st {
          request = missed;
          filter = or_else (insert_filter tk tb dg missed env.cache_root rule) st.filter;
        },
        declined,
      )

  -- what follows the match of an enabled rule
  unfoldable pub with_rule : Env → CacherDirConf → CacherRule → State → State × Reply
  unfolding after_lookup
  with_rule env dconf rule st =
      if request_bypasses tk tb st.request (some rule)
      then (with_status dconf (codes "BYPASS") st, declined)
      else after_lookup env dconf rule st
          (cache_lookup tk tb dec dg fs st.request st.disk env.now env.later env.cache_root rule)

  -- what follows cacher_ruleset_match
  unfoldable pub after_match : Env → CacherDirConf → Option CacherRule → State → State × Reply
  unfolding with_rule
  after_match env dconf none st = (with_status dconf (codes "DYNAMIC") st, declined)
  after_match env dconf (some rule) st =
      if rule.enabled
      then with_rule env dconf rule st
      else (with_status dconf (codes "EXCLUDED") st, declined)

  -- orig->parsed_uri.path ? orig->parsed_uri.path : orig->uri
  abbrev pub match_path : RequestRec → Bytes
  match_path orig = get_or orig.parsed_path orig.uri

  -- what follows cacher_config_get_ruleset
  unfoldable pub after_rules :
      Env → CacherDirConf → State → RulesCacheState × Option CacherRuleset → State × Reply
  unfolding after_match
  after_rules env dconf st (cache, none) = (record st { rules_cache = cache }, declined)
  after_rules env dconf st (cache, some rs) =
      let orig = original_request st.request in
      after_match env dconf
        (ruleset_match (some rs) (some (match_path orig)) orig.args (some st.request.r.method))
        (record st { rules_cache = cache })

  -- the part behind the admin endpoints
  unfoldable pub cache_phase : Env → CacherDirConf → State → State × Reply
  unfolding after_rules eq_ℤ
  cache_phase env dconf st =
      if eq_ℤ dconf.enabled (pos 1)
      then after_rules env dconf st (config_get_ruleset j env.files st.rules_cache (some dconf))
      else (st, declined)

  -- what follows the match of r->uri with the admin path
  unfoldable pub admin_phase : Env → CacherDirConf → Bytes → State → State × Reply
  unfolding eq_ℤ
  admin_phase env dconf action st =
      if not (eq_ℤ dconf.admin_require_user (pos 0)) && is_null st.request.r.user
      then (st, forbidden)
      else let (code, answer, disk) =
          admin_handle tk dec fs st.request.r env.now env.cache_root action st.disk in
        (record st { disk = disk }, admin code answer)

  -- top != r && …: was the admin path rewritten to another URI?
  unfoldable pub rewritten_admin : Bytes → Request → Bool
  unfolding admin_action
  rewritten_admin admin_path q =
      has_prev q.prevs && not (is_null (admin_action admin_path (original_request q).uri))

  unfoldable pub below_admin : Env → CacherDirConf → Bytes → Option Bytes → State → State × Reply
  unfolding admin_phase rewritten_admin cache_phase
  below_admin env dconf admin_path (some action) st = admin_phase env dconf action st
  below_admin env dconf admin_path none st =
      if rewritten_admin admin_path st.request then (st, declined) else cache_phase env dconf st

  -- if (dconf && dconf->admin_path) { … }
  unfoldable pub with_admin_path : Env → CacherDirConf → Option Bytes → State → State × Reply
  unfolding below_admin cache_phase admin_action
  with_admin_path env dconf none st = cache_phase env dconf st
  with_admin_path env dconf (some admin_path) st =
      below_admin env dconf admin_path (admin_action admin_path st.request.r.uri) st

  unfoldable pub with_config : Env → Option CacherDirConf → State → State × Reply
  unfolding with_admin_path
  with_config env none st = (st, declined)
  with_config env (some dconf) st = with_admin_path env dconf dconf.admin_path st

  unfoldable pub cacher_handler : Env → State → State × Reply
  unfolding with_config
  cacher_handler env st =
      if st.request.r.is_subrequest then (st, declined) else with_config env env.dconf st
