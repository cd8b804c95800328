-- ===== src/Rules/Nodes.antt =====
-- The loop of `cacher_ruleset_parse` in src/cacher_rules.c over the nodes of the array.
use apache_cacher.Prelude.{true, false, List, [], ◌∷◌, ◌≡◌, inl, inr, refl, ap, Bool-cases}
use apache_cacher.Cjson.{Cjson}
use apache_cacher.Rules.{CacherRule}
use apache_cacher.Rules.Parse.{parse_rule, parse_rules}

module _ (j : Cjson) where
  -- The rules of a list of nodes: one for each object among them, in order, and none for a node
  -- that is not an object.
  pub data RulesOf : List j.Node → List CacherRule → Type 0 where
    no_nodes : RulesOf [] []
    passed_over :
        {n : j.Node} {ns : List j.Node} {rules : List CacherRule}
        → j.is_object n ≡ false
        → RulesOf ns rules
        → RulesOf (n ∷ ns) rules
    rule_of :
        {n : j.Node} {ns : List j.Node} {rules : List CacherRule}
        → j.is_object n ≡ true
        → RulesOf ns rules
        → RulesOf (n ∷ ns) (parse_rule j n ∷ rules)

  pub parse_rules-RulesOf : (ns : List j.Node) → RulesOf ns (parse_rules j ns)
  unfolding parse_rules
  parse_rules-RulesOf [] = no_nodes
  parse_rules-RulesOf (n ∷ ns) = elim (Bool-cases (j.is_object n)) [
    | inl e ↦ rw e (rule_of e (parse_rules-RulesOf ns))
    | inr e ↦ rw e (passed_over e (parse_rules-RulesOf ns))
  ]

  pub RulesOf-parse_rules :
      {ns : List j.Node} {rules : List CacherRule} → RulesOf ns rules → rules ≡ parse_rules j ns
  unfolding parse_rules
  RulesOf-parse_rules no_nodes = refl
  RulesOf-parse_rules (passed_over e h) = rw e (RulesOf-parse_rules h)
  RulesOf-parse_rules (rule_of {n = n} e h) =
      rw e (ap (λ rs. parse_rule j n ∷ rs) (RulesOf-parse_rules h))
