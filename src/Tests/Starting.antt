-- ===== src/Tests/Starting.antt =====
-- Runs of the theorems on the start of the server and its directives.
use apache_cacher.Prelude.{true, false, List, [], ◌∷◌, Option, none, some, codes, ◌≡◌, ◌↔◌}
use apache_cacher.Prelude.Int.{pos}
use apache_cacher.Config.{CacherDirConf, CacherSvrConf, create_dir_config}
use apache_cacher.Config.Directives.{
  Directive, cacher_enable, cacher_rules_file, cacher_admin_path, run_section, Merges,
  merge_dir_config-run_section,
}
use apache_cacher.Cache.Root.{ensure_root, post_config, all_tried, AllMade, ensure_root_iff}
use apache_cacher.Tests.Disks.{toy_fs}
use apache_cacher.Tests.Entries.{empty_disk, header_path}

abbrev outer : CacherDirConf
outer = record (create_dir_config (some (codes "/www"))) { rules_json = some (codes "{}") }

abbrev section : List Directive
section =
    cacher_enable true
    ∷ cacher_rules_file (codes "r.json")
    ∷ cacher_admin_path (codes "/cacher")
    ∷ cacher_enable false
    ∷ []

merge_dir_config-run_section_example :
    Merges outer
      (some (codes "/www/a"))
      (run_section (create_dir_config (some (codes "/www/a"))) section)
      (run_section outer section)
merge_dir_config-run_section_example =
    merge_dir_config-run_section outer (some (codes "/www/a")) section

abbrev servers : List (Option CacherSvrConf)
servers = none ∷ some (record { cache_root = some (codes "/c") }) ∷ []

ensure_root_iff_example :
    (((ensure_root toy_fs empty_disk servers).0 ≡ pos 0) ↔ AllMade toy_fs empty_disk servers)
    × ((ensure_root toy_fs empty_disk servers).1 ≡ all_tried toy_fs empty_disk servers)
    × ((ensure_root toy_fs empty_disk servers).1.at header_path ≡ empty_disk.at header_path)
    × ((post_config toy_fs empty_disk servers).1.at header_path ≡ empty_disk.at header_path)
ensure_root_iff_example = ensure_root_iff toy_fs empty_disk servers header_path
