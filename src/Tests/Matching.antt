-- ===== src/Tests/Matching.antt =====
-- Runs of the theorems on globs, rules and rules files.
use apache_cacher.Prelude.{
  inl, ◌≡◌, ◌↔◌, true, false, List, [], ◌∷◌, none, some, codes, All, refl, arith, str_eq,
}
use apache_cacher.Prelude.Int.{pos, negsuc}
use apache_cacher.Glob.{glob, glob_loop, glob_fuel}
use apache_cacher.Glob.Matches.{Matches}
use apache_cacher.Glob.Complete.{glob_iff}
use apache_cacher.Glob.Total.{glob_total}
use apache_cacher.Glob.Starred.{glob_starred}
use apache_cacher.Rules.{CacherRule, CacherRuleset}
use apache_cacher.Rules.Parse.{parsed, ruleset_parse}
use apache_cacher.Rules.Nodes.{RulesOf}
use apache_cacher.Rules.Parsed.{
  HasRules, WellFormed, MessageFits, ruleset_parse_iff, ruleset_parse-WellFormed,
  ruleset_parse-MessageFits,
}
use apache_cacher.Rules.Select.{ruleset_match}
use apache_cacher.Rules.First.{Applies, IsFirst, ruleset_match_iff}
use apache_cacher.Rules.Fields.{allows_content_type}
use apache_cacher.Rules.Allowed.{TypeFits, allows_content_type_iff}
use apache_cacher.Tests.Jsons.{Doc, toy_cjson, rules_text}

glob_iff_example :
    (glob (codes "*.PNG") (codes "/a.png") true ≡ true)
    ↔ Matches true (codes "*.PNG") (codes "/a.png")
glob_iff_example = glob_iff (codes "*.PNG") (codes "/a.png") true (ground arith)

glob_starred_example : glob (codes "*") (codes "*a") false ≡ false
glob_starred_example = glob_starred b'a' [] false

glob_total_example :
    glob_loop (glob_fuel (codes "*a*b") (codes "xaab")) false (codes "*a*b") (codes "xaab") none
    ≡ some (glob (codes "*a*b") (codes "xaab") false)
glob_total_example = glob_total (codes "*a*b") (codes "xaab") false

abbrev pub blog_rule : CacherRule
blog_rule = record {
  path = some (codes "/blog/*");
  query = none;
  methods = some (codes "GET" ∷ []);
  enabled = true;
  ttl_seconds = pos 60;
  status_codes = some (pos 200 ∷ negsuc 0 ∷ []);
  content_types = some (codes "text/*" ∷ []);
  bypass_cookies = some (codes "wp_*" ∷ []);
  vary = some (codes "Accept-Language" ∷ codes "cookie:lang" ∷ []);
}

abbrev pub parsed_rules : CacherRuleset
parsed_rules = record { rules = record blog_rule { bypass_cookies = none; vary = none } ∷ [] }

ruleset_parse_iff_example :
    (ruleset_parse toy_cjson (some rules_text) 256 ≡ parsed parsed_rules) ↔ (
      (ns : List Doc) × HasRules toy_cjson (some rules_text) ns
      × RulesOf toy_cjson ns parsed_rules.rules)
ruleset_parse_iff_example = ruleset_parse_iff toy_cjson (some rules_text) 256 parsed_rules

ruleset_parse-WellFormed_example : All WellFormed parsed_rules.rules
unfolding ruleset_parse str_eq apache_cacher.Ctype.to_upper
ruleset_parse-WellFormed_example =
    ruleset_parse-WellFormed toy_cjson (some rules_text) 256 parsed_rules refl

ruleset_parse-MessageFits_example : MessageFits 12 (ruleset_parse toy_cjson (some (codes "{]")) 12)
ruleset_parse-MessageFits_example = ruleset_parse-MessageFits toy_cjson (some (codes "{]")) 12

abbrev catch_all : CacherRule
catch_all = record blog_rule { path = none; enabled = false }

abbrev two_rules : CacherRuleset
two_rules = record { rules = blog_rule ∷ catch_all ∷ [] }

ruleset_match_iff_example :
    (ruleset_match (some two_rules) (some (codes "/shop")) none (some (codes "get"))
      ≡ some catch_all)
    ↔ IsFirst (Applies (some (codes "/shop")) none (some (codes "get"))) two_rules.rules catch_all
ruleset_match_iff_example =
    ruleset_match_iff (some (codes "/shop")) none (some (codes "get")) (ground arith) tt
      (ground arith) two_rules catch_all (ground arith)

allows_content_type_iff_example :
    (allows_content_type (some blog_rule) (some (codes "text/html;a")) ≡ true)
    ↔ TypeFits blog_rule.content_types (codes "text/html")
allows_content_type_iff_example =
    allows_content_type_iff blog_rule (codes "text/html") (codes ";a") (ground arith) (ground arith)
      (ground arith) (ground arith) (inl refl)
