-- ===== src/Rules/Memory/Leaks.antt =====
-- `cacher_ruleset_parse` and `cacher_ruleset_free` of src/cacher_rules.c, one after the other.
use apache_cacher.Prelude.{
  ℕ, true, false, List, [], ◌∷◌, Option, none, some, Bytes, arith, codes, Bool-cases, inl, inr,
}
use apache_cacher.Cjson.{Cjson}
use apache_cacher.Rules.Parse.{get_item}
use apache_cacher.Rules.Memory.Heap.{
  Heap, malloc, block_onto, Owes, Owes-refl, Owes-same, malloc-Owes, open_document-Owes, free-Owes,
  delete_document-Owes,
}
use apache_cacher.Rules.Memory.Freed.{
  string_onto, array_onto, rule_onto, rules_onto, ruleset_onto, onto_laws, count-rules_onto,
  rules_onto-append, ruleset_free-Owes,
}
use apache_cacher.Rules.Memory.Owned.{
  strdup-Owes, ints_or_default-Owes, string_array-Owes, int_array-Owes,
}
use apache_cacher.Rules.Memory.{
  int_array, RuleBlock, Parsed, blank_block, match_object, match_block, fill_rule, rule_at,
  rule_blocks_of, rule_blocks, fill_ruleset, ruleset_at, no_rules, root_block, text_block,
  ruleset_parse_block, ruleset_free,
}

-- The blocks of a rule whose match clause is filled in.
abbrev matched_onto : RuleBlock → List ℕ → List ℕ
matched_onto r rest = string_onto r.path (string_onto r.query (array_onto r.methods (r.at ∷ rest)))

-- The heap owes exactly the blocks of what was returned.
abbrev Holds : Heap → Parsed × Heap → Type 0
Holds h (r, h') = Owes h h' (ruleset_onto r.ruleset_block []) 0

module _ (j : Cjson) {h : Heap} where
  blank-Owes :
      (p k : ℕ) (rest : List ℕ) {h' : Heap}
      → Owes h h' (p ∷ rest) k
      → Owes h h' (matched_onto (blank_block p) rest) k
  unfolding string_onto array_onto
  blank-Owes p k rest o = o

  match_object-Owes :
      (m : j.Node) (p k : ℕ) (rest : List ℕ) {h' : Heap}
      → Owes h h' (p ∷ rest) k
      → Owes h
          (match_object j m (blank_block p) h').1
          (matched_onto (match_object j m (blank_block p) h').0 rest)
          k
  unfolding match_object
  match_object-Owes m p k rest o =
      Owes-same (string_array-Owes j _ true _ (strdup-Owes _ _ (strdup-Owes _ (p ∷ rest) o))) _
        (λ x. omega onto_laws)

  match_block-Owes :
      (m : Option j.Node) (p k : ℕ) (rest : List ℕ) {h' : Heap}
      → Owes h h' (p ∷ rest) k
      → Owes h
          (match_block j m (blank_block p) h').1
          (matched_onto (match_block j m (blank_block p) h').0 rest)
          k
  unfolding match_block
  match_block-Owes none p k rest o = blank-Owes p k rest o
  match_block-Owes (some m) p k rest o = elim (Bool-cases (j.is_object m)) [
    | inl e ↦ rw e (match_object-Owes m p k rest o)
    | inr e ↦ rw e (blank-Owes p k rest o)
  ]

  fill_rule-Owes :
      (robj : j.Node) (p k : ℕ) (rest : List ℕ) {h' : Heap}
      → Owes h h' (p ∷ rest) k
      → Owes h
          (fill_rule j robj (blank_block p) h').1
          (rule_onto (fill_rule j robj (blank_block p) h').0 rest)
          k
  unfolding fill_rule rule_onto
  fill_rule-Owes robj p k rest {h' = h'} o =
      let (r, h₁) = match_block j (get_item j robj (codes "match")) (blank_block p) h' in
      let given = (int_array j (get_item j robj (codes "status_codes")) h₁).0 in
      Owes-same
        (string_array-Owes j (get_item j robj (codes "vary")) false _ (
          string_array-Owes j (get_item j robj (codes "bypass_cookies")) false _ (
            string_array-Owes j (get_item j robj (codes "content_types")) false _ (
              ints_or_default-Owes given (matched_onto r rest)
                (int_array-Owes j _ (matched_onto r rest) (match_block-Owes _ p k rest o))))))
        _ (λ x. omega onto_laws)

  rule_at-Owes :
      (robj : j.Node) (p : Option ℕ) (k : ℕ) (rest : List ℕ) {h' : Heap}
      → Owes h h' (block_onto p rest) k
      → Owes h (rule_at j robj p h').1 (rules_onto (rule_at j robj p h').0 rest) k
  unfolding rule_at rules_onto
  rule_at-Owes robj none k rest o = o
  rule_at-Owes robj (some p) k rest o = fill_rule-Owes robj p k rest o

  rule_blocks_of-Owes :
      (robj : j.Node) (k : ℕ) (rest : List ℕ) {h' : Heap}
      → Owes h h' rest k
      → Owes h (rule_blocks_of j robj h').1 (rules_onto (rule_blocks_of j robj h').0 rest) k
  unfolding rule_blocks_of
  rule_blocks_of-Owes robj k rest {h' = h'} o = elim (Bool-cases (j.is_object robj)) [
    | inl e ↦ rw e (rule_at-Owes robj (malloc h').0 k rest (malloc-Owes o))
    | inr e ↦ rw e (unfold rules_onto in o)
  ]

  rule_blocks-Owes :
      (ns : List j.Node) (k : ℕ) (rest : List ℕ) {h' : Heap}
      → Owes h h' rest k
      → Owes h (rule_blocks j ns h').1 (rules_onto (rule_blocks j ns h').0 rest) k
  unfolding rule_blocks
  rule_blocks-Owes [] k rest o = unfold rules_onto in o
  rule_blocks-Owes (n ∷ ns) k rest {h' = h'} o =
      let (here, h₁) = rule_blocks_of j n h' in
      let more = (rule_blocks j ns h₁).0 in
      rw (rules_onto-append here more rest) (
        Owes-same (rule_blocks-Owes ns k _ (rule_blocks_of-Owes n k rest o)) _ (λ x. omega (
          arith,
          count-rules_onto x here (rules_onto more rest),
          count-rules_onto x here rest,
          count-rules_onto x more rest,
          count-rules_onto x more (rules_onto here rest),
        )))

  nothing-Owes : {h' : Heap} → Owes h h' [] 0 → Owes h h' (ruleset_onto none []) 0
  unfolding ruleset_onto
  nothing-Owes o = o

  fill_ruleset-Owes :
      (arr : j.Node) (p : ℕ) (q : Option ℕ) {h' : Heap}
      → Owes h h' (block_onto q (p ∷ [])) 1
      → Holds h (fill_ruleset j arr p q h')
  unfolding fill_ruleset
  fill_ruleset-Owes arr p none o = nothing-Owes (delete_document-Owes (free-Owes p o))
  fill_ruleset-Owes arr p (some q) o =
      unfold ruleset_onto in
      delete_document-Owes (rule_blocks-Owes (j.children arr) 1 (q ∷ p ∷ []) o)

  ruleset_at-Owes :
      (arr : j.Node) (p : Option ℕ) {h' : Heap}
      → Owes h h' (block_onto p []) 1
      → Holds h (ruleset_at j arr p h')
  unfolding ruleset_at
  ruleset_at-Owes arr none o = nothing-Owes (delete_document-Owes o)
  ruleset_at-Owes arr (some p) {h' = h'} o = fill_ruleset-Owes arr p (malloc h').0 (malloc-Owes o)

  no_rules-Owes : (len : ℕ) {h' : Heap} → Owes h h' [] 1 → Holds h (no_rules j len h')
  unfolding no_rules
  no_rules-Owes len o = nothing-Owes (delete_document-Owes o)

  root_block-Owes :
      (arr : Option j.Node) (len : ℕ) {h' : Heap}
      → Owes h h' [] 1
      → Holds h (root_block j arr len h')
  unfolding root_block
  root_block-Owes none len o = no_rules-Owes len o
  root_block-Owes (some arr) len {h' = h'} o = elim (Bool-cases (j.is_array arr)) [
    | inl e ↦ rw e (ruleset_at-Owes arr (malloc h').0 (malloc-Owes o))
    | inr e ↦ rw e (no_rules-Owes len o)
  ]

  text_block-Owes :
      (root : Option j.Node) (json : Bytes) (len : ℕ) {h' : Heap}
      → Owes h h' [] 0
      → Holds h (text_block j root json len h')
  unfolding text_block
  text_block-Owes none json len o = nothing-Owes o
  text_block-Owes (some root) json len o = root_block-Owes _ len (open_document-Owes o)

  ruleset_parse_block-Owes :
      (json : Option Bytes) (len : ℕ) {h' : Heap}
      → Owes h h' [] 0
      → Holds h (ruleset_parse_block j json len h')
  unfolding ruleset_parse_block
  ruleset_parse_block-Owes none len o = nothing-Owes o
  ruleset_parse_block-Owes (some json) len o = text_block-Owes (j.parse json) json len o

module _ (j : Cjson) where
  -- Whichever allocations are refused, a parse and the free of its result leave the heap with the
  -- blocks and the documents that it had, and nothing is freed that is not live: no leak, and no
  -- double free.
  pub ruleset_free-ruleset_parse_block :
      (json : Option Bytes) (len : ℕ) (h : Heap)
      → let (r, h₁) = ruleset_parse_block j json len h in
        Owes h (ruleset_free r.ruleset_block h₁).1 [] 0
  ruleset_free-ruleset_parse_block json len h =
      ruleset_free-Owes _ [] (ruleset_parse_block-Owes j json len (Owes-refl h))
