-- ===== src/Rules/Memory/Freed.antt =====
-- The blocks that each value of the parser in src/cacher_rules.c owns, in the order in which
-- `cacher_ruleset_free` frees them.
use apache_cacher.Prelude.{
  ℕ, zero, suc, ◌+◌, ◌≡◌, List, [], ◌∷◌, ◌++◌, Option, none, some, refl, arith,
}
use apache_cacher.Prelude.Int.{ℤ}
use apache_cacher.Rules.Memory.Heap.{Heap, count, Owes, free-Owes}
use apache_cacher.Rules.Memory.{
  CString, CArray, RuleBlock, RulesetBlock, free_string, free_strings, free_string_array, free_ints,
  free_rule, free_rules, ruleset_free,
}

-- Each function puts the blocks of a value in front of others.
unfoldable pub string_onto : Option CString → List ℕ → List ℕ
string_onto none rest = rest
string_onto (some c) rest = c.at ∷ rest

unfoldable pub strings_onto : List CString → List ℕ → List ℕ
strings_onto [] rest = rest
strings_onto (c ∷ cs) rest = c.at ∷ strings_onto cs rest

unfoldable pub array_onto : Option (CArray CString) → List ℕ → List ℕ
unfolding strings_onto
array_onto none rest = rest
array_onto (some arr) rest = strings_onto arr.items (arr.at ∷ rest)

unfoldable pub ints_onto : Option (CArray ℤ) → List ℕ → List ℕ
ints_onto none rest = rest
ints_onto (some arr) rest = arr.at ∷ rest

unfoldable pub rule_onto : RuleBlock → List ℕ → List ℕ
unfolding string_onto array_onto ints_onto
rule_onto r rest = string_onto r.path (
    string_onto r.query (
      array_onto r.methods (
        ints_onto r.status_codes (
          array_onto r.content_types
            (array_onto r.bypass_cookies (array_onto r.vary (r.at ∷ rest)))))))

unfoldable pub rules_onto : List RuleBlock → List ℕ → List ℕ
unfolding rule_onto
rules_onto [] rest = rest
rules_onto (r ∷ rs) rest = rule_onto r (rules_onto rs rest)

unfoldable pub ruleset_onto : Option RulesetBlock → List ℕ → List ℕ
unfolding rules_onto
ruleset_onto none rest = rest
ruleset_onto (some rs) rest = rules_onto rs.rules.items (rs.rules.at ∷ rs.at ∷ rest)

pub count-string_onto :
    (x : ℕ) (c : Option CString) (rest : List ℕ)
    → count x (string_onto c rest) ≡ count x (string_onto c []) + count x rest
unfolding string_onto
count-string_onto x none rest = omega arith
count-string_onto x (some c) rest = omega arith

pub count-strings_onto :
    (x : ℕ) (cs : List CString) (rest : List ℕ)
    → count x (strings_onto cs rest) ≡ count x (strings_onto cs []) + count x rest
unfolding strings_onto
count-strings_onto x [] rest = omega arith
count-strings_onto x (c ∷ cs) rest = omega (arith, count-strings_onto x cs rest)

pub count-array_onto :
    (x : ℕ) (a : Option (CArray CString)) (rest : List ℕ)
    → count x (array_onto a rest) ≡ count x (array_onto a []) + count x rest
unfolding array_onto
count-array_onto x none rest = omega arith
count-array_onto x (some a) rest =
    omega
      (arith, count-strings_onto x a.items (a.at ∷ rest), count-strings_onto x a.items (a.at ∷ []))

pub count-ints_onto :
    (x : ℕ) (a : Option (CArray ℤ)) (rest : List ℕ)
    → count x (ints_onto a rest) ≡ count x (ints_onto a []) + count x rest
unfolding ints_onto
count-ints_onto x none rest = omega arith
count-ints_onto x (some a) rest = omega arith

pub ruleset onto_laws =
    (arith, count-string_onto, count-strings_onto, count-array_onto, count-ints_onto)

pub count-rule_onto :
    (x : ℕ) (r : RuleBlock) (rest : List ℕ)
    → count x (rule_onto r rest) ≡ count x (rule_onto r []) + count x rest
unfolding rule_onto
count-rule_onto x r rest = omega onto_laws

pub count-rules_onto :
    (x : ℕ) (rs : List RuleBlock) (rest : List ℕ)
    → count x (rules_onto rs rest) ≡ count x (rules_onto rs []) + count x rest
unfolding rules_onto
count-rules_onto x [] rest = omega arith
count-rules_onto x (r ∷ rs) rest = omega (
  arith,
  count-rule_onto x r (rules_onto rs rest),
  count-rule_onto x r (rules_onto rs []),
  count-rules_onto x rs rest,
)

pub rules_onto-append :
    (rs ss : List RuleBlock) (rest : List ℕ)
    → rules_onto (rs ++ ss) rest ≡ rules_onto rs (rules_onto ss rest)
unfolding rules_onto
rules_onto-append [] ss rest = refl
rules_onto-append (r ∷ rs) ss rest = rw (rules_onto-append rs ss rest)

-- Freeing a value gives back what stands in front for it.
module _ {h : Heap} {k : ℕ} where
  free_string-Owes :
      {h' : Heap} (c : Option CString) (rest : List ℕ)
      → Owes h h' (string_onto c rest) k
      → Owes h (free_string c h').1 rest k
  unfolding free_string string_onto
  free_string-Owes none rest o = o
  free_string-Owes (some c) rest o = free-Owes c.at o

  free_strings-Owes :
      (cs : List CString) (rest : List ℕ) {h' : Heap}
      → Owes h h' (strings_onto cs rest) k
      → Owes h (free_strings cs h').1 rest k
  unfolding free_strings strings_onto
  free_strings-Owes [] rest o = o
  free_strings-Owes (c ∷ cs) rest o = free_strings-Owes cs rest (free-Owes c.at o)

  free_string_array-Owes :
      {h' : Heap} (a : Option (CArray CString)) (rest : List ℕ)
      → Owes h h' (array_onto a rest) k
      → Owes h (free_string_array a h').1 rest k
  unfolding free_string_array array_onto
  free_string_array-Owes none rest o = o
  free_string_array-Owes (some a) rest o =
      free-Owes a.at (free_strings-Owes a.items (a.at ∷ rest) o)

  free_ints-Owes :
      {h' : Heap} (a : Option (CArray ℤ)) (rest : List ℕ)
      → Owes h h' (ints_onto a rest) k
      → Owes h (free_ints a h').1 rest k
  unfolding free_ints ints_onto
  free_ints-Owes none rest o = o
  free_ints-Owes (some a) rest o = free-Owes a.at o

  free_rule-Owes :
      {h' : Heap} (r : RuleBlock) (rest : List ℕ)
      → Owes h h' (rule_onto r rest) k
      → Owes h (free_rule r h').1 rest k
  unfolding free_rule rule_onto
  free_rule-Owes r rest o = free-Owes r.at (
      free_string_array-Owes r.vary _ (
        free_string_array-Owes r.bypass_cookies _ (
          free_string_array-Owes r.content_types _ (
            free_ints-Owes r.status_codes _ (
              free_string_array-Owes r.methods _
                (free_string-Owes r.query _ (free_string-Owes r.path _ o)))))))

  free_rules-Owes :
      (rs : List RuleBlock) (rest : List ℕ) {h' : Heap}
      → Owes h h' (rules_onto rs rest) k
      → Owes h (free_rules rs h').1 rest k
  unfolding free_rules rules_onto
  free_rules-Owes [] rest o = o
  free_rules-Owes (r ∷ rs) rest o =
      free_rules-Owes rs rest (free_rule-Owes r (rules_onto rs rest) o)

  pub ruleset_free-Owes :
      {h' : Heap} (rs : Option RulesetBlock) (rest : List ℕ)
      → Owes h h' (ruleset_onto rs rest) k
      → Owes h (ruleset_free rs h').1 rest k
  unfolding ruleset_free ruleset_onto
  ruleset_free-Owes none rest o = o
  ruleset_free-Owes (some rs) rest o =
      free-Owes rs.at
        (free-Owes rs.rules.at (free_rules-Owes rs.rules.items (rs.rules.at ∷ rs.at ∷ rest) o))
