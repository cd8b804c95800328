-- ===== src/Config/Directives.antt =====
-- The table of directives, cacher_cmds of src/cacher_config.c: the directives of one section are run in
-- their order on the configuration of the section.
use apache_cacher.Prelude.{
  Bool, true, false, List, [], ◌∷◌, Option, none, some, ◌==◌, Bytes, ◌≡◌, refl, sym, ◌∙◌, ap, inl,
  inr, Bool-cases,
}
use apache_cacher.Prelude.Int.{ℤ, eq_ℤ}
use apache_cacher.Config.{
  CacherDirConf, or_else, set_or, unless, create_dir_config, merge_dir_config, flag_value,
  set_enable, set_rules, set_rules_file, SetResult, accepted, refused, set_admin_path,
  set_admin_require_user, set_status_header,
}

-- The rows of the table that may stand in a directory's section, with their arguments.
pub data Directive : Type 0 where
  cacher_enable : Bool → Directive
  cacher_rules : Bytes → Directive
  cacher_rules_file : Bytes → Directive
  cacher_admin_path : Bytes → Directive
  cacher_admin_require_user : Bool → Directive
  cacher_status_header : Bool → Directive

unfoldable pub run_directive : CacherDirConf → Directive → SetResult
unfolding set_enable set_rules set_rules_file set_admin_path set_admin_require_user
    set_status_header
run_directive conf (cacher_enable flag) = accepted (set_enable conf flag)
run_directive conf (cacher_rules args) = accepted (set_rules conf args)
run_directive conf (cacher_rules_file arg) = accepted (set_rules_file conf arg)
run_directive conf (cacher_admin_path arg) = set_admin_path conf arg
run_directive conf (cacher_admin_require_user flag) = accepted (set_admin_require_user conf flag)
run_directive conf (cacher_status_header flag) = accepted (set_status_header conf flag)

-- A refused directive ends the reading of the configuration.
abbrev pub and_then : SetResult → (CacherDirConf → Option CacherDirConf) → Option CacherDirConf
and_then (accepted conf) k = k conf
and_then (refused message) k = none

unfoldable pub run_section : CacherDirConf → List Directive → Option CacherDirConf
unfolding run_directive
run_section conf [] = some conf
run_section conf (x ∷ xs) = and_then (run_directive conf x) (λ c. run_section c xs)

-- The configuration `both` has what `add` sets, and what `base` has where `add` sets nothing.
record Agrees (base add both : CacherDirConf) : Type 0 where
  enabled : set_or add.enabled base.enabled ≡ both.enabled
  admin_path : or_else add.admin_path base.admin_path ≡ both.admin_path
  admin_require_user :
      set_or add.admin_require_user base.admin_require_user ≡ both.admin_require_user
  status_header : set_or add.status_header base.status_header ≡ both.status_header
  rules_json : or_else add.rules_json base.rules_json ≡ both.rules_json
  rules_file : or_else add.rules_file base.rules_file ≡ both.rules_file
  config_dir : both.config_dir ≡ base.config_dir

set_or_flag : (flag : Bool) (b : ℤ) → set_or (flag_value flag) b ≡ flag_value flag
unfolding set_or eq_ℤ
set_or_flag true b = refl
set_or_flag false b = refl

-- What a directive does to `add` and to `both`.
data Steps (base add : CacherDirConf) : SetResult → SetResult → Type 0 where
  both_accept :
      (add' both' : CacherDirConf)
      → Agrees base add' both'
      → add'.config_dir ≡ add.config_dir
      → Steps base add (accepted add') (accepted both')
  both_refuse : (m n : Bytes) → Steps base add (refused m) (refused n)

admin_path-Steps :
    (base add both : CacherDirConf) (arg : Bytes)
    → Agrees base add both
    → Steps base add (set_admin_path add arg) (set_admin_path both arg)
unfolding set_admin_path
admin_path-Steps base add both [] g = both_refuse _ _
admin_path-Steps base add both (c ∷ arg) g = elim (Bool-cases (c == b'/')) [
  | inl e ↦ rw e (
      both_accept (record add { admin_path = some (c ∷ arg) })
        (record both { admin_path = some (c ∷ arg) })
        (record {
          enabled = g.enabled;
          admin_path = refl;
          admin_require_user = g.admin_require_user;
          status_header = g.status_header;
          rules_json = g.rules_json;
          rules_file = g.rules_file;
          config_dir = g.config_dir;
        })
        refl)
  | inr e ↦ rw e (both_refuse _ _)
]

run_directive-Steps :
    (base add both : CacherDirConf) (x : Directive)
    → Agrees base add both
    → Steps base add (run_directive add x) (run_directive both x)
unfolding run_directive set_enable set_rules set_rules_file set_admin_require_user set_status_header
run_directive-Steps base add both (cacher_enable flag) g =
    both_accept _ _
      (record {
        enabled = set_or_flag flag base.enabled;
        admin_path = g.admin_path;
        admin_require_user = g.admin_require_user;
        status_header = g.status_header;
        rules_json = g.rules_json;
        rules_file = g.rules_file;
        config_dir = g.config_dir;
      })
      refl
run_directive-Steps base add both (cacher_rules args) g =
    both_accept _ _
      (record {
        enabled = g.enabled;
        admin_path = g.admin_path;
        admin_require_user = g.admin_require_user;
        status_header = g.status_header;
        rules_json = refl;
        rules_file = g.rules_file;
        config_dir = g.config_dir;
      })
      refl
run_directive-Steps base add both (cacher_rules_file arg) g =
    both_accept _ _
      (record {
        enabled = g.enabled;
        admin_path = g.admin_path;
        admin_require_user = g.admin_require_user;
        status_header = g.status_header;
        rules_json = g.rules_json;
        rules_file = refl;
        config_dir = g.config_dir;
      })
      refl
run_directive-Steps base add both (cacher_admin_path arg) g = admin_path-Steps base add both arg g
run_directive-Steps base add both (cacher_admin_require_user flag) g =
    both_accept _ _
      (record {
        enabled = g.enabled;
        admin_path = g.admin_path;
        admin_require_user = set_or_flag flag base.admin_require_user;
        status_header = g.status_header;
        rules_json = g.rules_json;
        rules_file = g.rules_file;
        config_dir = g.config_dir;
      })
      refl
run_directive-Steps base add both (cacher_status_header flag) g =
    both_accept _ _
      (record {
        enabled = g.enabled;
        admin_path = g.admin_path;
        admin_require_user = g.admin_require_user;
        status_header = set_or_flag flag base.status_header;
        rules_json = g.rules_json;
        rules_file = g.rules_file;
        config_dir = g.config_dir;
      })
      refl

-- The configuration of the sections together, as a merge leaves it: inline rules are dropped where
-- a file is named, and the directory is that of the inner section, if it has one.
abbrev pub beside_file : Option Bytes → Option Bytes → Option Bytes
beside_file none inline = inline
beside_file (some file) inline = none

abbrev pub directory_of : Option Bytes → Option Bytes → Option Bytes
directory_of (some inner) outer = some inner
directory_of none outer = outer

abbrev pub merged : Option Bytes → CacherDirConf → CacherDirConf
merged dir both = record both {
  rules_json = beside_file both.rules_file both.rules_json;
  config_dir = directory_of dir both.config_dir;
}

unless-beside_file : (file inline : Option Bytes) → unless file inline ≡ beside_file file inline
unless-beside_file none inline = refl
unless-beside_file (some file) inline = refl

or_else-directory_of : (inner outer : Option Bytes) → or_else inner outer ≡ directory_of inner outer
or_else-directory_of none outer = refl
or_else-directory_of (some inner) outer = refl

merge-Agrees :
    (base add both : CacherDirConf)
    → Agrees base add both
    → merge_dir_config base add ≡ merged add.config_dir both
unfolding merge_dir_config
merge-Agrees base add both g =
    (λ i. record {
      enabled = g.enabled i;
      admin_path = g.admin_path i;
      admin_require_user = g.admin_require_user i;
      status_header = g.status_header i;
      rules_json = unless (g.rules_file i) (g.rules_json i);
      rules_file = g.rules_file i;
      config_dir = or_else add.config_dir (sym g.config_dir i);
    })
    ∙ λ i. record both {
      rules_json = unless-beside_file both.rules_file both.rules_json i;
      config_dir = or_else-directory_of add.config_dir both.config_dir i;
    }

-- A section of its own, and the section behind another's directives, where neither is refused.
abbrev pub Merges :
    CacherDirConf → Option Bytes → Option CacherDirConf → Option CacherDirConf → Type 0
Merges base dir none none = Unit
Merges base dir none (some both) = ⊥
Merges base dir (some add) none = ⊥
Merges base dir (some add) (some both) = merge_dir_config base add ≡ merged dir both

run_section-Merges :
    (xs : List Directive) (base add both : CacherDirConf) (dir : Option Bytes)
    → Agrees base add both
    → add.config_dir ≡ dir
    → Merges base dir (run_section add xs) (run_section both xs)
unfolding run_section
run_section-Merges [] base add both dir g e =
    merge-Agrees base add both g ∙ ap (λ d. merged d both) e
run_section-Merges (x ∷ xs) base add both dir g e =
    by_step (run_directive add x) (run_directive both x) (run_directive-Steps base add both x g)
      (λ add' both' g' e'. run_section-Merges xs base add' both' dir g' (e' ∙ e))
  where
    by_step :
        (a b : SetResult)
        → Steps base add a b
        → ((add' both' : CacherDirConf)
            → Agrees base add' both'
            → add'.config_dir ≡ add.config_dir
            → Merges base dir (run_section add' xs) (run_section both' xs))
        → Merges base dir (and_then a (λ c. run_section c xs)) (and_then b (λ c. run_section c xs))
    by_step _ _ (both_accept add' both' g' e') next = next add' both' g' e'
    by_step _ _ (both_refuse m n) next = tt

-- A section that is merged into the one around it refuses the lines that it would refuse behind the
-- outer section's directives; where it refuses none, each setting has the last value that the
-- directives of both give it, but for two fields of the configuration. Inline rules of either
-- section are dropped where one of them names a file. The directory is that of the inner section,
-- also where a relative file was named in the outer section, although the documentation says that
-- such a file is relative to the directory it is set in.
pub merge_dir_config-run_section :
    (base : CacherDirConf) (dir : Option Bytes) (xs : List Directive)
    → Merges base dir (run_section (create_dir_config dir) xs) (run_section base xs)
unfolding create_dir_config set_or eq_ℤ
merge_dir_config-run_section base dir xs =
    run_section-Merges xs base (create_dir_config dir) base dir
      (record {
        enabled = refl;
        admin_path = refl;
        admin_require_user = refl;
        status_header = refl;
        rules_json = refl;
        rules_file = refl;
        config_dir = refl;
      })
      refl
