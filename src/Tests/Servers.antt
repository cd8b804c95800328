-- ===== src/Tests/Servers.antt =====
-- Runs of the theorems on the cache of rules files.
use apache_cacher.Prelude.{true, [], ◌∷◌, ◌++◌, some, Bytes, codes, refl, str_eq}
use apache_cacher.Prelude.Int.{pos}
use apache_cacher.Rules.Parse.{ruleset_parse}
use apache_cacher.Config.{CacherDirConf, create_dir_config}
use apache_cacher.Config.RulesCache.{
  Files, child_init, resolve_rules_file_path, new_entry, lookup_cached, store_entry, load_rules,
  get_ruleset_from_file,
}
use apache_cacher.Config.RulesCache.Fresh.{uncached, Served, get_ruleset_from_file-uncached}
use apache_cacher.Config.RulesCache.Threads.{
  World, idle, missed, loaded, returned, at_phase, Reach, here, next, miss, load, store, Sane,
}
use apache_cacher.Config.RulesCache.Threads.Invariant.{Reach-Sane}
use apache_cacher.Tests.Jsons.{toy_cjson, rules_text}
use apache_cacher.Tests.Matching.{parsed_rules}

abbrev site_files : Files
site_files = record {
  filepath_merge = λ dir file. some (dir ++ b'/' ∷ file);
  stat = λ path. some (pos 5, 110);
  file_open = λ path. true;
  read_full = λ path size. some rules_text;
}

abbrev conf : CacherDirConf
conf = create_dir_config (some (codes "/www"))

get_ruleset_from_file-uncached_example :
    Served toy_cjson site_files
      (uncached toy_cjson site_files
        (resolve_rules_file_path site_files conf.config_dir (codes "r.json")))
      (get_ruleset_from_file toy_cjson site_files (child_init true) conf (codes "r.json"))
unfolding child_init
get_ruleset_from_file-uncached_example =
    get_ruleset_from_file-uncached toy_cjson site_files (child_init true) conf (codes "r.json") refl
      tt

abbrev start : World
start = record { now = site_files; past = site_files ∷ []; entries = []; phase = λ t. idle }

start-Sane : Sane toy_cjson start
start-Sane = record {
  now_in_past = ([], refl);
  phases_known = λ t. tt;
  entries_known = tt;
  one_per_path = tt;
}

abbrev path : Bytes
path = codes "/www/r.json"

abbrev after_miss : World
after_miss = record start { phase = at_phase start.phase 0 (missed path (pos 5) 110) }

abbrev after_load : World
after_load = record after_miss {
  phase = at_phase after_miss.phase 0 (loaded path (pos 5) 110 (some parsed_rules));
}

abbrev after_store : World
after_store = record after_load {
  entries = store_entry (new_entry path (pos 5) 110 (some parsed_rules)) [];
  phase = at_phase after_load.phase 0 (returned path (some parsed_rules));
}

one_request : Reach toy_cjson start after_store
unfolding lookup_cached load_rules ruleset_parse str_eq apache_cacher.Ctype.to_upper
one_request =
    next
      (next (next here (miss 0 path (pos 5) 110 refl refl refl refl))
        (load 0 path (pos 5) 110 (some parsed_rules) refl refl refl))
      (store 0 path (pos 5) 110 (some parsed_rules) refl refl)

Reach-Sane_example : Sane toy_cjson after_store
Reach-Sane_example = Reach-Sane toy_cjson start-Sane one_request
