-- ===== src/Config.antt =====
-- The per-directory and per-server configuration of src/cacher_config.c and its directives.
-- A directive's handler returns the new configuration, or the message that refuses the line.
pub mod Merge
pub mod Directives
pub mod Quotes
pub mod RulesCache
use apache_cacher.Prelude.{
  ℕ, Bool, true, false, ◌&&◌, ◌||◌, List, [], ◌∷◌, ◌++◌, Option, none, some, ◌==◌, if◌then◌else◌,
  Bytes, codes,
}
use apache_cacher.Prelude.Int.{ℤ, pos, negsuc, eq_ℤ}

-- CACHER_UNSET
abbrev pub cacher_unset : ℤ
cacher_unset = negsuc 0

pub record CacherDirConf : Type 0 where
  pub enabled : ℤ
  pub admin_path : Option Bytes
  pub admin_require_user : ℤ
  pub status_header : ℤ
  pub rules_json : Option Bytes
  pub rules_file : Option Bytes
  pub config_dir : Option Bytes

pub record CacherSvrConf : Type 0 where
  pub cache_root : Option Bytes

-- a ? a : b on pointers
abbrev pub or_else : {A : Type 0} → Option A → Option A → Option A
or_else none b = b
or_else (some a) b = some a

-- a != CACHER_UNSET ? a : b
unfoldable pub set_or : ℤ → ℤ → ℤ
unfolding eq_ℤ
set_or a b = if eq_ℤ a cacher_unset then b else a

-- a ? NULL : b
abbrev pub unless : {A B : Type 0} → Option A → Option B → Option B
unless none b = b
unless (some a) b = none

unfoldable pub create_dir_config : Option Bytes → CacherDirConf
create_dir_config dir = record {
  enabled = cacher_unset;
  admin_path = none;
  admin_require_user = cacher_unset;
  status_header = cacher_unset;
  rules_json = none;
  rules_file = none;
  config_dir = dir;
}

unfoldable pub merge_dir_config : CacherDirConf → CacherDirConf → CacherDirConf
unfolding set_or
merge_dir_config base add =
    let file = or_else add.rules_file base.rules_file in
    record {
      enabled = set_or add.enabled base.enabled;
      admin_path = or_else add.admin_path base.admin_path;
      admin_require_user = set_or add.admin_require_user base.admin_require_user;
      status_header = set_or add.status_header base.status_header;
      rules_json = unless file (or_else add.rules_json base.rules_json);
      rules_file = file;
      config_dir = or_else add.config_dir base.config_dir;
    }

unfoldable pub create_server_config : CacherSvrConf
create_server_config = record { cache_root = none }

unfoldable pub merge_server_config : CacherSvrConf → CacherSvrConf → CacherSvrConf
merge_server_config base add = record { cache_root = or_else add.cache_root base.cache_root }

abbrev pub flag_value : Bool → ℤ
flag_value true = pos 1
flag_value false = pos 0

unfoldable pub set_enable : CacherDirConf → Bool → CacherDirConf
set_enable conf flag = record conf { enabled = flag_value flag }

abbrev pub is_blank : ℕ → Bool
is_blank c = c == b' ' || c == b'\t'

-- while (*start == ' ' || *start == '\t') start++;
unfoldable pub skip_blanks : Bytes → Bytes
skip_blanks [] = []
skip_blanks (c ∷ s) = let rest = skip_blanks s in if is_blank c then rest else c ∷ s

-- one byte in front of a text whose blanks at the end are gone
abbrev pub keep_unless_blank : ℕ → Bytes → Bytes
keep_unless_blank c [] = if is_blank c then [] else c ∷ []
keep_unless_blank c (d ∷ s) = c ∷ d ∷ s

-- while (len > 0 && (start[len - 1] == ' ' || …)) len--;
unfoldable pub trim_end : Bytes → Bytes
trim_end [] = []
trim_end (c ∷ s) = keep_unless_blank c (trim_end s)

-- A text behind its first byte `c`, as all but its last byte and that byte.
abbrev pub init_last : ℕ → Bytes → Bytes × ℕ
init_last c [] = ([], c)
init_last c (d ∷ s) = let (before, last) = init_last d s in (c ∷ before, last)

-- start++; len -= 2; if the first and the last byte are one quote
unfoldable pub unquote : Bytes → Bytes
unquote [] = []
unquote (c ∷ []) = c ∷ []
unquote (c ∷ d ∷ s) =
    let (inner, last) = init_last d s in
    if (c == b'\'' || c == b'"') && last == c then inner else c ∷ d ∷ s

unfoldable pub set_rules : CacherDirConf → Bytes → CacherDirConf
unfolding skip_blanks trim_end unquote
set_rules conf args = record conf { rules_json = some (unquote (trim_end (skip_blanks args))) }

unfoldable pub set_rules_file : CacherDirConf → Bytes → CacherDirConf
set_rules_file conf arg = record conf { rules_file = some arg }

unfoldable pub set_cache_root : CacherSvrConf → Bytes → CacherSvrConf
set_cache_root conf arg = record conf { cache_root = some arg }

-- A refusal carries the message for the administrator.
pub data SetResult : Type 0 where
  accepted : CacherDirConf → SetResult
  refused : Bytes → SetResult

abbrev pub admin_path_message : Bytes
admin_path_message = codes "CacherAdminPath must start with '/'"

unfoldable pub set_admin_path : CacherDirConf → Bytes → SetResult
set_admin_path conf [] = refused admin_path_message
set_admin_path conf (c ∷ arg) =
    if c == b'/'
    then accepted (record conf { admin_path = some (c ∷ arg) })
    else refused admin_path_message

unfoldable pub set_admin_require_user : CacherDirConf → Bool → CacherDirConf
set_admin_require_user conf flag = record conf { admin_require_user = flag_value flag }

unfoldable pub set_status_header : CacherDirConf → Bool → CacherDirConf
set_status_header conf flag = record conf { status_header = flag_value flag }
