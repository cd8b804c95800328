-- ===== src/Config/Merge.antt =====
-- `cacher_merge_dir_config` of src/cacher_config.c, down a chain of directories.
use apache_cacher.Prelude.{Bytes, Option, none, some, ◌≡◌, refl, arith}
use apache_cacher.Prelude.Int.{ℤ}
use apache_cacher.Config.{CacherDirConf, or_else, set_or, unless, merge_dir_config}

or_else_assoc : {A : Type 0} (a b c : Option A) → or_else (or_else a b) c ≡ or_else a (or_else b c)
or_else_assoc none b c = refl
or_else_assoc (some a) b c = refl

set_or_assoc : (a b c : ℤ) → set_or (set_or a b) c ≡ set_or a (set_or b c)
unfolding set_or
set_or_assoc a b c = ground arith

-- Text rules survive only where no file is named in the whole chain.
json_assoc :
    (f₁ f₂ f₃ j₁ j₂ j₃ : Option Bytes)
    → unless (or_else (or_else f₃ f₂) f₁) (or_else (unless (or_else f₃ f₂) (or_else j₃ j₂)) j₁)
      ≡ unless (or_else f₃ (or_else f₂ f₁)) (or_else j₃ (unless (or_else f₂ f₁) (or_else j₂ j₁)))
json_assoc (some x) f₂ f₃ j₁ j₂ j₃ = ground arith
json_assoc none f₂ f₃ j₁ j₂ j₃ = ground arith

-- Merging is associative: the result for a directory does not depend on the order in which
-- Apache folds the chain of configurations above it.
pub merge_dir_config_assoc :
    (a b c : CacherDirConf)
    → merge_dir_config a (merge_dir_config b c) ≡ merge_dir_config (merge_dir_config a b) c
unfolding merge_dir_config
merge_dir_config_assoc a b c = λ i. record {
  enabled = set_or_assoc c.enabled b.enabled a.enabled i;
  admin_path = or_else_assoc c.admin_path b.admin_path a.admin_path i;
  admin_require_user =
      set_or_assoc c.admin_require_user b.admin_require_user a.admin_require_user i;
  status_header = set_or_assoc c.status_header b.status_header a.status_header i;
  rules_json =
      json_assoc a.rules_file b.rules_file c.rules_file a.rules_json b.rules_json c.rules_json i;
  rules_file = or_else_assoc c.rules_file b.rules_file a.rules_file i;
  config_dir = or_else_assoc c.config_dir b.config_dir a.config_dir i;
}
