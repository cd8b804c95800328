-- ===== src/Rules/Select.antt =====
-- `cacher_strcasecmp` and `cacher_ruleset_match` of src/cacher_rules.c.
use apache_cacher.Prelude.{
  Bool, true, false, ◌&&◌, List, [], ◌∷◌, Option, none, some, ◌==◌, if◌then◌else◌, Bytes, get_or,
  any,
}
use apache_cacher.Prelude.Int.{ℤ, pos, ◌-ℤ◌, eq_ℤ}
use apache_cacher.Ctype.{to_lower}
use apache_cacher.Glob.{glob_match}
use apache_cacher.Rules.{CacherRule, CacherRuleset}

unfoldable pub strcasecmp : Bytes → Bytes → ℤ
unfolding ◌-ℤ◌ to_lower
strcasecmp [] [] = pos 0
strcasecmp [] (y ∷ b) = pos 0 -ℤ pos y
strcasecmp (x ∷ a) [] = pos x
strcasecmp (x ∷ a) (y ∷ b) =
    let rest = strcasecmp a b in
    let ca = to_lower x in let cb = to_lower y in if ca == cb then rest else pos ca -ℤ pos cb

-- r->path && !glob(…) sends the loop on: a null glob lets every text pass
unfoldable pub text_passes : Option Bytes → Option Bytes → Bool
text_passes none text = true
text_passes (some g) text = glob_match (some g) (some (get_or text [])) false

unfoldable pub same_method : Option Bytes → Bytes → Bool
unfolding strcasecmp eq_ℤ
same_method none m = false
same_method (some method) m = eq_ℤ (strcasecmp m method) (pos 0)

unfoldable pub method_passes : Option (List Bytes) → Option Bytes → Bool
unfolding same_method
method_passes none method = true
method_passes (some ms) method = any (same_method method) ms

-- one round of the loop
unfoldable pub rule_matches : CacherRule → Option Bytes → Option Bytes → Option Bytes → Bool
unfolding text_passes method_passes
rule_matches r path query method =
    text_passes r.path path && (text_passes r.query query && method_passes r.methods method)

unfoldable pub first_rule :
    List CacherRule → Option Bytes → Option Bytes → Option Bytes → Option CacherRule
unfolding rule_matches
first_rule [] path query method = none
first_rule (r ∷ rs) path query method =
    let rest = first_rule rs path query method in
    if rule_matches r path query method then some r else rest

unfoldable pub ruleset_match :
    Option CacherRuleset → Option Bytes → Option Bytes → Option Bytes → Option CacherRule
unfolding first_rule
ruleset_match none path query method = none
ruleset_match (some rs) path query method = first_rule rs.rules path query method
