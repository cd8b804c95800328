-- ===== src/Config/RulesCache.antt =====
-- The process-wide cache of parsed rules files in src/cacher_config.c.
pub mod Fresh
pub mod Threads
use apache_cacher.Prelude.{
  ℕ, zero, suc, Bool, true, false, ◌&&◌, List, [], ◌∷◌, Option, none, some, ◌==◌, if◌then◌else◌,
  Bytes, str_eq,
}
use apache_cacher.Prelude.Int.{ℤ, eq_ℤ}
use apache_cacher.Cjson.{Cjson}
use apache_cacher.Rules.{CacherRuleset}
use apache_cacher.Rules.Parse.{ParseResult, parsed, failed, ruleset_parse}
use apache_cacher.Config.{CacherDirConf}

-- The answers of APR about files at one moment: apr_filepath_merge, apr_stat (mtime and size),
-- apr_file_open and apr_file_read_full of so many bytes.
pub record Files : Type 0 where
  pub filepath_merge : Bytes → Bytes → Option Bytes
  pub stat : Bytes → Option (ℤ × ℕ)
  pub file_open : Bytes → Bool
  pub read_full : Bytes → ℕ → Option Bytes

pub record RulesCacheEntry : Type 0 where
  pub path : Bytes
  pub mtime : ℤ
  pub size : ℕ
  -- null: the file failed to parse
  pub parsed_rules : Option CacherRuleset

-- `rules_cache_head`, and whether `rules_cache_mutex` was created
pub record RulesCacheState : Type 0 where
  pub mutex : Bool
  pub entries : List RulesCacheEntry

unfoldable pub child_init : Bool → RulesCacheState
child_init created = record { mutex = created; entries = [] }

unfoldable pub resolve_rules_file_path : Files → Option Bytes → Bytes → Option Bytes
resolve_rules_file_path fs none file = none
resolve_rules_file_path fs (some dir) file = fs.filepath_merge dir file

-- the loop that looks for the path
unfoldable pub find_entry : Bytes → List RulesCacheEntry → Option RulesCacheEntry
find_entry path [] = none
find_entry path (e ∷ es) =
    let rest = find_entry path es in if str_eq e.path path then some e else rest

unfoldable pub usable : Option RulesCacheEntry → ℤ → ℕ → Option (Option CacherRuleset)
unfolding eq_ℤ
usable none mtime size = none
usable (some e) mtime size =
    if eq_ℤ e.mtime mtime && e.size == size then some e.parsed_rules else none

-- The first critical section: the cached ruleset, null or not, if it is still good.
unfoldable pub lookup_cached : List RulesCacheEntry → Bytes → ℤ → ℕ → Option (Option CacherRuleset)
unfolding find_entry usable
lookup_cached es path mtime size = usable (find_entry path es) mtime size

-- A buffer as a C string ends at its first zero byte.
unfoldable pub c_text : Bytes → Bytes
c_text [] = []
c_text (zero ∷ s) = []
c_text (suc c ∷ s) = suc c ∷ c_text s

abbrev pub ruleset_of : ParseResult → Option CacherRuleset
ruleset_of (parsed rs) = some rs
ruleset_of (failed _) = none

-- sizeof(errbuf)
abbrev pub errbuf_len : ℕ
errbuf_len = 256

unfoldable pub put_back :
    RulesCacheEntry → Option (List RulesCacheEntry) → Option (List RulesCacheEntry)
put_back e none = none
put_back e (some es) = some (e ∷ es)

-- The second critical section: the entry of that path is overwritten in place, or a new one is
-- put in front.
unfoldable pub replace_entry :
    RulesCacheEntry → List RulesCacheEntry → Option (List RulesCacheEntry)
unfolding put_back
replace_entry new [] = none
replace_entry new (e ∷ es) =
    let rest = replace_entry new es in
    if str_eq e.path new.path
    then some
        (record e { mtime = new.mtime; size = new.size; parsed_rules = new.parsed_rules } ∷ es)
    else put_back e rest

-- if (!entry) { … rules_cache_head = entry; }
unfoldable pub replaced_or_pushed :
    RulesCacheEntry → List RulesCacheEntry → Option (List RulesCacheEntry) → List RulesCacheEntry
replaced_or_pushed new es none = new ∷ es
replaced_or_pushed new es (some after) = after

unfoldable pub store_entry : RulesCacheEntry → List RulesCacheEntry → List RulesCacheEntry
unfolding replace_entry replaced_or_pushed
store_entry new es = replaced_or_pushed new es (replace_entry new es)

abbrev pub new_entry : Bytes → ℤ → ℕ → Option CacherRuleset → RulesCacheEntry
new_entry path mtime size fresh = record {
  path = path;
  mtime = mtime;
  size = size;
  parsed_rules = fresh;
}

module _ (j : Cjson) where
  abbrev pub parse_buffer : Option Bytes → Option (Option CacherRuleset)
  parse_buffer none = none
  parse_buffer (some buf) = some (ruleset_of (ruleset_parse j (some (c_text buf)) errbuf_len))

  -- Outside the lock: open, read and parse. `none` where the file cannot be opened or read.
  unfoldable pub load_rules : Files → Bytes → ℕ → Option (Option CacherRuleset)
  unfolding c_text
  load_rules fs path nbytes =
      if fs.file_open path then parse_buffer (fs.read_full path nbytes) else none

  -- what follows the load
  unfoldable pub store_loaded :
      RulesCacheState
      → Bytes
      → ℤ × ℕ
      → Option (Option CacherRuleset)
      → RulesCacheState × Option CacherRuleset
  unfolding store_entry
  store_loaded st path (mtime, size) none = (st, none)
  store_loaded st path (mtime, size) (some fresh) =
      (record st { entries = store_entry (new_entry path mtime size fresh) st.entries }, fresh)

  -- what follows the lookup in the cache
  unfoldable pub load_and_store :
      Files
      → RulesCacheState
      → Bytes
      → ℤ × ℕ
      → Option (Option CacherRuleset)
      → RulesCacheState × Option CacherRuleset
  unfolding load_rules store_loaded
  load_and_store fs st path stamp (some cached) = (st, cached)
  load_and_store fs st path stamp none = store_loaded st path stamp (load_rules fs path stamp.1)

  -- what follows apr_stat
  unfoldable pub get_ruleset_stat :
      Files → RulesCacheState → Bytes → Option (ℤ × ℕ) → RulesCacheState × Option CacherRuleset
  unfolding load_and_store lookup_cached
  get_ruleset_stat fs st path none = (st, none)
  get_ruleset_stat fs st path (some stamp) =
      load_and_store fs st path stamp (lookup_cached st.entries path stamp.0 stamp.1)

  -- what follows the resolution of the path
  unfoldable pub get_ruleset_at :
      Files → RulesCacheState → Option Bytes → RulesCacheState × Option CacherRuleset
  unfolding get_ruleset_stat
  get_ruleset_at fs st none = (st, none)
  get_ruleset_at fs st (some path) = get_ruleset_stat fs st path (fs.stat path)

  unfoldable pub get_ruleset_from_file :
      Files → RulesCacheState → CacherDirConf → Bytes → RulesCacheState × Option CacherRuleset
  unfolding get_ruleset_at resolve_rules_file_path
  get_ruleset_from_file fs st dconf file =
      if st.mutex
      then get_ruleset_at fs st (resolve_rules_file_path fs dconf.config_dir file)
      else (st, none)

  unfoldable pub inline_ruleset : Option Bytes → Option CacherRuleset
  inline_ruleset none = none
  inline_ruleset (some json) = ruleset_of (ruleset_parse j (some json) errbuf_len)

  -- rules_file first, then rules_json
  unfoldable pub choose_ruleset :
      Files
      → RulesCacheState
      → CacherDirConf
      → Option Bytes
      → RulesCacheState × Option CacherRuleset
  unfolding get_ruleset_from_file inline_ruleset
  choose_ruleset fs st dconf (some file) = get_ruleset_from_file fs st dconf file
  choose_ruleset fs st dconf none = (st, inline_ruleset dconf.rules_json)

  -- `cacher_config_get_ruleset`
  unfoldable pub config_get_ruleset :
      Files → RulesCacheState → Option CacherDirConf → RulesCacheState × Option CacherRuleset
  unfolding choose_ruleset
  config_get_ruleset fs st none = (st, none)
  config_get_ruleset fs st (some dconf) = choose_ruleset fs st dconf dconf.rules_file
