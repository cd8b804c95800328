-- ===== src/Tests/Requests.antt =====
-- Runs of the theorems on requests, cookies, configurations and cache keys.
use apache_cacher.Prelude.{
  ◌≡◌, ◌↔◌, true, false, List, [], ◌∷◌, none, some, codes, Any, All, refl, arith, str_eq,
}
use apache_cacher.Prelude.Int.{pos}
use apache_cacher.Ctype.{to_lower}
use apache_cacher.Request.{RequestRec, Request}
use apache_cacher.Util.{streq_ci, header_pairs, request_bypasses, get_cookie}
use apache_cacher.Util.Cookies.{Cookie, IsCookie}
use apache_cacher.Util.Bypass.{Bypassed, first_value, request_bypasses_iff, get_cookie-cookie_text}
use apache_cacher.Config.{
  CacherDirConf, merge_dir_config, create_dir_config, set_rules, set_enable, set_rules_file,
}
use apache_cacher.Config.Merge.{merge_dir_config_assoc}
use apache_cacher.Cache.Key.{build_cache_key_string, hex_encode_md5}
use apache_cacher.Cache.Key.Injective.{build_cache_key_string_collision}
use apache_cacher.Tests.Libs.{toy_strtok, toy_tables}
use apache_cacher.Tests.Matching.{blog_rule}

abbrev pub visitor : RequestRec
visitor = record {
  method = codes "GET";
  uri = codes "/p";
  args = some (codes "q=1");
  parsed_path = some (codes "/p");
  hostname = some (codes "h.org");
  user = none;
  header_only = false;
  is_subrequest = false;
  aborted = false;
  status = pos 200;
  content_type = some (codes "text/html");
  headers_in = (codes "Cookie", codes "lang=de; wp_u=1") ∷ [];
  headers_out = (codes "Etag", codes "x") ∷ (codes "Set-Cookie", codes "s=1") ∷ [];
}

abbrev pub visit : Request
visit = record { r = visitor; prevs = [] }

abbrev redirected : RequestRec
redirected = record visitor { uri = codes "/index.php" }

abbrev two_cookies : List Cookie
two_cookies = (codes "lang", codes "de") ∷ (codes "wp_u", codes "1") ∷ []

two_cookies-IsCookie : All IsCookie two_cookies
two_cookies-IsCookie = (
  record {
    name_no_semicolon = ground arith;
    name_no_equals = ground arith;
    name_no_space = ground arith;
    value_no_semicolon = ground arith;
  },
  (
    record {
      name_no_semicolon = ground arith;
      name_no_equals = ground arith;
      name_no_space = ground arith;
      value_no_semicolon = ground arith;
    },
    tt,
  ),
)

request_bypasses_iff_example :
    (request_bypasses toy_strtok toy_tables visit (some blog_rule) ≡ true)
    ↔ Any (Bypassed blog_rule) two_cookies
unfolding str_eq to_lower
request_bypasses_iff_example =
    request_bypasses_iff toy_strtok toy_tables visit blog_rule two_cookies refl two_cookies-IsCookie
      (ground arith)

get_cookie-cookie_text_example :
    get_cookie toy_strtok toy_tables visit (codes "wp_u") ≡ first_value (codes "wp_u") two_cookies
unfolding str_eq to_lower
get_cookie-cookie_text_example =
    get_cookie-cookie_text toy_strtok toy_tables visit two_cookies (codes "wp_u") refl
      two_cookies-IsCookie

abbrev site : CacherDirConf
site = set_enable (create_dir_config (some (codes "/www"))) true

abbrev directory : CacherDirConf
directory = set_rules_file (create_dir_config (some (codes "/www/a"))) (codes "rules.json")

abbrev file_part : CacherDirConf
file_part = set_rules (create_dir_config none) (codes "{}")

merge_dir_config_assoc_example :
    merge_dir_config site (merge_dir_config directory file_part)
    ≡ merge_dir_config (merge_dir_config site directory) file_part
merge_dir_config_assoc_example = merge_dir_config_assoc site directory file_part

abbrev other_visit : Request
other_visit = record { r = record visitor { user = some (codes "bob") }; prevs = redirected ∷ [] }

abbrev rerouted_visit : Request
rerouted_visit = record {
  r = record redirected { user = some (codes "bob") };
  prevs = visitor ∷ [];
}

build_cache_key_string_collision_example :
    build_cache_key_string toy_strtok toy_tables
      (record { r = record visitor { uri = codes "/p?q=1"; args = none }; prevs = [] })
      blog_rule
    ≡ build_cache_key_string toy_strtok toy_tables
        (record { r = record visitor { uri = codes "/p"; args = some (codes "q=1") }; prevs = [] })
        blog_rule
build_cache_key_string_collision_example =
    build_cache_key_string_collision toy_strtok toy_tables blog_rule visitor (codes "/p")
      (codes "q=1")
