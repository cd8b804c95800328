-- ===== src/Tests/Handling.antt =====
-- Runs of the theorems on the handler.
use apache_cacher.Prelude.{
  ◌≡◌, true, false, [], ◌++◌, none, some, Bytes, codes, refl, arith, str_eq, if◌then◌else◌,
  strip_prefix,
}
use apache_cacher.Prelude.Int.{pos}
use apache_cacher.Request.{RequestRec}
use apache_cacher.Config.{CacherDirConf}
use apache_cacher.Config.RulesCache.{Files, child_init}
use apache_cacher.Cache.Meta.{file_text}
use apache_cacher.Cache.Headers.{dump_headers}
use apache_cacher.Cache.FileSystem.{closed}
use apache_cacher.Cache.Lookup.{CacheHit}
use apache_cacher.Handler.{State, Env, forbidden, admin_action, cacher_handler}
use apache_cacher.Handler.Status.{status_of, other_path, cacher_handler-label}
use apache_cacher.Handler.Unlabelled.{cacher_handler_unlabelled}
use apache_cacher.Handler.Outcome.{ServedBy, cacher_handler-served}
use apache_cacher.Cache.Write.{CacherOutCtx, fresh_ctx, insert_filter}
use apache_cacher.Handler.Capture.{FilterOn, cacher_handler-filter}
use apache_cacher.Tests.Matching.{blog_rule, parsed_rules}
use apache_cacher.Tests.Libs.{toy_strtok, toy_tables, toy_digest}
use apache_cacher.Tests.Decimals.{toy_decimal}
use apache_cacher.Tests.Disks.{ToyDisk, toy_fs}
use apache_cacher.Tests.Jsons.{toy_cjson, rules_text}
use apache_cacher.Tests.Requests.{visitor}

abbrev pub reader : RequestRec
reader = record visitor { uri = codes "/blog/x"; parsed_path = some (codes "/blog/x") }

-- the bytes that the digest makes of the key of `reader`
abbrev pub blog_hex : Bytes
blog_hex = codes "4745540a682e6f72670a2f626c6f672f"

abbrev pub blog_header : Bytes
blog_header = codes "/c/47/45/" ++ (blog_hex ++ codes ".header")

abbrev pub blog_body : Bytes
blog_body = codes "/c/47/45/" ++ (blog_hex ++ codes ".body")

abbrev pub blog_text : Bytes
blog_text =
    file_text toy_decimal (pos 100) (pos 160) (record { r = reader; prevs = [] })
      (dump_headers [] reader.headers_out)

abbrev pub blog_disk : ToyDisk
blog_disk = record {
  at = λ p.
      if str_eq p blog_header
      then some blog_text
      else if str_eq p blog_body
      then some (codes "hi")
      else none;
  listing = closed;
}

abbrev pub no_files : Files
no_files = record {
  filepath_merge = λ dir file. none;
  stat = λ path. none;
  file_open = λ path. false;
  read_full = λ path size. none;
}

abbrev pub blog_conf : CacherDirConf
blog_conf = record {
  enabled = pos 1;
  admin_path = some (codes "/cacher");
  admin_require_user = pos 1;
  status_header = pos 1;
  rules_json = some rules_text;
  rules_file = none;
  config_dir = none;
}

abbrev pub blog_env : Env toy_strtok toy_tables toy_decimal toy_digest toy_cjson toy_fs
blog_env = record {
  dconf = some blog_conf;
  cache_root = some (codes "/c");
  files = no_files;
  now = pos 120;
  later = pos 121;
}

abbrev pub asked : RequestRec → State toy_strtok toy_tables toy_decimal toy_digest toy_cjson toy_fs
asked r = record {
  disk = blog_disk;
  rules_cache = child_init true;
  request = record { r = r; prevs = [] };
  filter = none;
}

abbrev blog_hit : CacheHit
blog_hit = record { body_path = blog_body; status = pos 200; length = 2; age = pos 21 }

cacher_handler-served_example :
    ServedBy toy_strtok toy_tables toy_decimal toy_digest toy_cjson toy_fs blog_env
      (asked reader)
      blog_hit
unfolding cacher_handler strip_prefix apache_cacher.Config.RulesCache.config_get_ruleset
    apache_cacher.Rules.Parse.ruleset_parse str_eq apache_cacher.Rules.Select.ruleset_match
    apache_cacher.Glob.glob_match apache_cacher.Util.original_request apache_cacher.Ctype.to_upper
    apache_cacher.Util.request_bypasses apache_cacher.Cache.Lookup.cache_lookup file_text
    apache_cacher.Apr.Tokens.tokens
cacher_handler-served_example =
    cacher_handler-served toy_strtok toy_tables toy_decimal toy_digest toy_cjson toy_fs blog_env
      (asked reader) blog_hit refl

abbrev stranger : RequestRec
stranger = record visitor { uri = codes "/cacher/list" }

abbrev pub newcomer : RequestRec
newcomer = record reader { hostname = some (codes "i.org") }

abbrev pub new_hex : Bytes
new_hex = codes "4745540a692e6f72670a2f626c6f672f"

abbrev pub new_ctx : CacherOutCtx
new_ctx =
    fresh_ctx (record blog_rule { bypass_cookies = none; vary = none })
      (
        codes "/c/47/45/" ++ (new_hex ++ codes ".header"),
        codes "/c/47/45/" ++ (new_hex ++ codes ".body"),
      )

cacher_handler-filter_example :
    (dconf : CacherDirConf) × (blog_env.dconf ≡ some dconf)
    × FilterOn toy_strtok toy_tables toy_decimal toy_digest toy_cjson toy_fs blog_env dconf
        (asked newcomer)
        new_ctx
unfolding cacher_handler insert_filter strip_prefix
    apache_cacher.Config.RulesCache.config_get_ruleset apache_cacher.Rules.Parse.ruleset_parse
    str_eq apache_cacher.Rules.Select.ruleset_match apache_cacher.Glob.glob_match
    apache_cacher.Util.original_request apache_cacher.Ctype.to_upper
    apache_cacher.Util.request_bypasses apache_cacher.Cache.Lookup.cache_lookup
cacher_handler-filter_example =
    cacher_handler-filter toy_strtok toy_tables toy_decimal toy_digest toy_cjson toy_fs blog_env
      (asked newcomer) new_ctx refl refl

cacher_handler-label_example :
    toy_tables.table_get
      (cacher_handler toy_strtok toy_tables toy_decimal toy_digest toy_cjson toy_fs blog_env
        (asked reader)).0.request.r.headers_out
      (codes "X-Cacher")
    ≡ some (codes "HIT")
unfolding strip_prefix apache_cacher.Config.RulesCache.config_get_ruleset
    apache_cacher.Rules.Parse.ruleset_parse str_eq apache_cacher.Rules.Select.ruleset_match
    apache_cacher.Glob.glob_match apache_cacher.Util.original_request apache_cacher.Ctype.to_upper
    apache_cacher.Util.request_bypasses apache_cacher.Cache.Lookup.cache_lookup file_text
    apache_cacher.Apr.Tokens.tokens admin_action apache_cacher.Handler.rewritten_admin
cacher_handler-label_example =
    cacher_handler-label toy_strtok toy_tables toy_decimal toy_digest toy_cjson toy_fs blog_env
      blog_conf parsed_rules (asked reader) refl refl (other_path (codes "/cacher") refl refl refl)
      refl (λ e. absurd (ground arith)) refl

abbrev quiet_conf : CacherDirConf
quiet_conf = record blog_conf { status_header = pos 0 }

cacher_handler_unlabelled_example :
    status_of toy_strtok toy_tables toy_decimal toy_digest toy_cjson toy_fs
      (cacher_handler toy_strtok toy_tables toy_decimal toy_digest toy_cjson toy_fs
        (record blog_env { dconf = some quiet_conf })
        (asked reader)).0
    ≡ status_of toy_strtok toy_tables toy_decimal toy_digest toy_cjson toy_fs (asked reader)
cacher_handler_unlabelled_example =
    cacher_handler_unlabelled toy_strtok toy_tables toy_decimal toy_digest toy_cjson toy_fs
      (record blog_env { dconf = some quiet_conf }) quiet_conf (asked reader) refl refl
