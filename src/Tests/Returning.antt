-- ===== src/Tests/Returning.antt =====
-- A run of the module from one request to the next.
use apache_cacher.Prelude.{[], ◌∷◌, ◌++◌, some, codes, ◌≡◌, ◌≢◌, refl, arith, str_eq, strip_prefix}
use apache_cacher.Prelude.Int.{pos, ◌+ℤ◌}
use apache_cacher.Request.{Request}
use apache_cacher.Rules.Fields.{allows_status, allows_content_type}
use apache_cacher.Glob.{glob_match}
use apache_cacher.Ctype.{to_lower}
use apache_cacher.Util.{streq_ci, original_request}
use apache_cacher.Cache.Headers.{dump_headers}
use apache_cacher.Cache.Key.{cache_key_paths}
use apache_cacher.Cache.Headers.Carried.{Carries}
use apache_cacher.Cache.Meta.RoundTrip.{IsStorable, stored_meta}
use apache_cacher.Cache.Lookup.{entry_age}
use apache_cacher.Cache.Write.{
  eos, temp_suffix, is_complete, decide_cacheable, insert_filter, output_filter,
}
use apache_cacher.Handler.{State, served, admin_action, cacher_handler}
use apache_cacher.Handler.Status.{other_path}
use apache_cacher.Handler.Hits.{LookedUp}
use apache_cacher.Handler.Twice.{Passes, cacher_handler_twice}
use apache_cacher.Tests.Libs.{toy_strtok, toy_tables, toy_digest}
use apache_cacher.Tests.Decimals.{toy_decimal}
use apache_cacher.Tests.Disks.{ToyDisk, toy_fs, fill_template}
use apache_cacher.Tests.Jsons.{toy_cjson}
use apache_cacher.Tests.Matching.{parsed_rules}
use apache_cacher.Tests.Entries.{clock, reply, visitor-IsHeader}
use apache_cacher.Tests.Writing.{toy_working, toy_readable}
use apache_cacher.Tests.Handling.{blog_env, blog_conf, blog_disk, asked, newcomer, new_ctx}

abbrev response : Request
response = record { r = newcomer; prevs = [] }

abbrev disk_after : ToyDisk
disk_after =
    (output_filter toy_decimal toy_tables toy_fs clock response new_ctx blog_disk
      (reply ++ eos ∷ [])).1

abbrev again : State toy_strtok toy_tables toy_decimal toy_digest toy_cjson toy_fs
again = record (asked newcomer) { disk = disk_after }

filter_inserted :
    (cacher_handler toy_strtok toy_tables toy_decimal toy_digest toy_cjson toy_fs blog_env
      (asked newcomer)).0.filter
    ≡ some new_ctx
unfolding cacher_handler insert_filter strip_prefix
    apache_cacher.Config.RulesCache.config_get_ruleset apache_cacher.Rules.Parse.ruleset_parse
    str_eq apache_cacher.Rules.Select.ruleset_match apache_cacher.Glob.glob_match
    apache_cacher.Util.original_request apache_cacher.Ctype.to_upper
    apache_cacher.Util.request_bypasses apache_cacher.Cache.Lookup.cache_lookup
filter_inserted = refl

response-IsStorable : IsStorable (pos 100) (pos 160) 200 response
unfolding original_request
response-IsStorable = record {
  created_range = ground arith;
  expires_range = ground arith;
  status_is = refl;
  status_pos = ground arith;
  status_range = ground arith;
  method_word = record {
    no_space = ground arith;
    no_newline = ground arith;
    no_zero = ground arith;
    filled = ground arith;
  };
  host_word = record {
    no_space = ground arith;
    no_newline = ground arith;
    no_zero = ground arith;
    filled = ground arith;
  };
  url_no_newline = ground arith;
  url_no_zero = ground arith;
  url_filled = ground arith;
}

new_temps_apart :
    fill_template (new_ctx.header_path ++ temp_suffix)
    ≢ fill_template (new_ctx.body_path ++ temp_suffix)
new_temps_apart = ground arith

response-Passes :
    Passes toy_strtok toy_tables toy_decimal toy_digest toy_cjson toy_fs new_ctx response clock
      blog_disk reply
unfolding decide_cacheable allows_status allows_content_type glob_match str_eq to_lower is_complete
    dump_headers streq_ci ◌+ℤ◌ apache_cacher.Cache.Headers.is_uncacheable_header
response-Passes = record {
  readable = toy_readable;
  wk = toy_working new_ctx.header_path new_ctx.body_path new_temps_apart;
  idle = (refl, refl);
  may_store = refl;
  can_read = (tt, (tt, tt));
  whole = refl;
  code = 200;
  storable = response-IsStorable;
  lines = visitor-IsHeader;
  no_zero = omega arith;
}

again-LookedUp :
    LookedUp toy_strtok toy_tables toy_decimal toy_digest toy_cjson toy_fs blog_env again
      new_ctx.rule
unfolding strip_prefix apache_cacher.Config.RulesCache.config_get_ruleset
    apache_cacher.Rules.Parse.ruleset_parse str_eq apache_cacher.Rules.Select.ruleset_match
    glob_match original_request apache_cacher.Ctype.to_upper apache_cacher.Util.request_bypasses
    admin_action apache_cacher.Handler.rewritten_admin
again-LookedUp = record {
  dconf = blog_conf;
  rules = parsed_rules;
  main_request = refl;
  configured = refl;
  outside_admin = other_path (codes "/cacher") refl refl refl;
  module_on = refl;
  rules_loaded = refl;
  matched = refl;
  rule_on = refl;
  not_bypassed = refl;
}

again_keyed :
    cache_key_paths toy_strtok toy_tables toy_digest again.request blog_env.cache_root new_ctx.rule
    ≡ some (new_ctx.header_path, new_ctx.body_path)
unfolding cache_key_paths original_request
again_keyed = refl

cacher_handler_twice_example :
    ((cacher_handler toy_strtok toy_tables toy_decimal toy_digest toy_cjson toy_fs blog_env again).1
      ≡ served (record {
        body_path = new_ctx.body_path;
        status = pos 200;
        length = 2;
        age = entry_age (stored_meta (pos 100) (pos 160) response) (pos 121);
      }))
    × (again.disk.at new_ctx.body_path ≡ some (codes "hi"))
    × Carries toy_tables response.r.headers_out
        (cacher_handler toy_strtok toy_tables toy_decimal toy_digest toy_cjson toy_fs blog_env
          again).0.request.r
unfolding ◌+ℤ◌
cacher_handler_twice_example =
    cacher_handler_twice toy_strtok toy_tables toy_decimal toy_digest toy_cjson toy_fs blog_env
      blog_env (asked newcomer) again new_ctx response clock blog_disk reply refl filter_inserted
      response-Passes refl again-LookedUp again_keyed (ground arith)
