-- ===== src/Rules/Parsed.antt =====
-- What `cacher_ruleset_parse` makes of a text: when it succeeds, what its rules are like, and the
-- bound on the message that it writes.
use apache_cacher.Prelude.{
  ℕ, zero, suc, ◌-◌, ◌<◌, ◌≤◌, Bool, true, false, List, [], ◌∷◌, ◌++◌, Option, none, some, map,
  ◌==◌, Bytes, codes, take, get_or, length, All, ◌≡◌, ◌≢◌, ◌↔◌, inl, inr, refl, arith, Bool-cases,
  Option-cases, sym, subst,
}
use apache_cacher.Prelude.Int.{ℤ, pos, negsuc}
use apache_cacher.Ctype.{to_upper, to_upper_idem}
use apache_cacher.Cjson.{Cjson}
use apache_cacher.Rules.{CacherRule, CacherRuleset}
use apache_cacher.Rules.Nodes.{RulesOf, parse_rules-RulesOf, RulesOf-parse_rules}
use apache_cacher.Rules.Parse.{
  ParseResult, parsed, failed, write_error, non_empty, default_status, blank_rule, terminated,
  string_of, get_item, store_string, string_items, json_string_array, int_items, json_int_array,
  parse_match, parse_rule, parse_rules, parse_root, parse_text, ruleset_parse, no_json_text,
  missing_text,
}

abbrev pub IsUpper : Bytes → Type 0
IsUpper s = map to_upper s ≡ s

-- What holds of an array that is there.
abbrev pub OnArray : {A : Type 0} → (List A → Type 0) → Option (List A) → Type 0
OnArray P none = Unit
OnArray P (some xs) = P xs

-- The array ends with -1, and something stands before it.
abbrev pub Terminated : Option (List ℤ) → Type 0
Terminated none = ⊥
Terminated (some cs) = (body : List ℤ) × (cs ≡ body ++ negsuc 0 ∷ []) × (body ≢ [])

pub record WellFormed (r : CacherRule) : Type 0 where
  pub methods_upper : OnArray (All IsUpper) r.methods
  pub methods_filled : OnArray (λ xs. xs ≢ []) r.methods
  pub status_terminated : Terminated r.status_codes
  pub content_types_filled : OnArray (λ xs. xs ≢ []) r.content_types
  pub bypass_filled : OnArray (λ xs. xs ≢ []) r.bypass_cookies
  pub vary_filled : OnArray (λ xs. xs ≢ []) r.vary

-- A message that was written fits its buffer, with the terminator.
abbrev pub MessageFits : ℕ → ParseResult → Type 0
MessageFits len (parsed rs) = Unit
MessageFits len (failed none) = len ≡ 0
MessageFits len (failed (some text)) = length text < len

map-to_upper : (s : Bytes) → IsUpper (map to_upper s)
map-to_upper [] = refl
map-to_upper (c ∷ s) = cc (to_upper_idem c, map-to_upper s)

store_string-IsUpper :
    (s : Option Bytes) (rest : List Bytes)
    → All IsUpper rest
    → All IsUpper (store_string true s rest)
unfolding store_string
store_string-IsUpper none rest h = h
store_string-IsUpper (some s) rest h = (map-to_upper s, h)

non_empty-filled : {A : Type 0} (xs : List A) → OnArray (λ ys. ys ≢ []) (non_empty xs)
non_empty-filled [] = tt
non_empty-filled (x ∷ xs) = λ e. cc

non_empty-OnArray :
    {A : Type 0} (P : List A → Type 0) (xs : List A) → P xs → OnArray P (non_empty xs)
non_empty-OnArray P [] h = tt
non_empty-OnArray P (x ∷ xs) h = h

length-take-le : (n : ℕ) (s : Bytes) → length (take n s) ≤ n
length-take-le zero s = omega arith
length-take-le (suc n) [] = omega arith
length-take-le (suc n) (c ∷ s) = omega (arith, length-take-le n s)

write_error-MessageFits : (len : ℕ) (text : Bytes) → MessageFits len (write_error len text)
unfolding write_error
write_error-MessageFits len text = ground (arith, length-take-le (len - 1) text)

write_error-not_parsed :
    (len : ℕ) (text : Bytes) (rs : CacherRuleset) → write_error len text ≢ parsed rs
unfolding write_error
write_error-not_parsed len text rs = ground arith

module _ (j : Cjson) where
  string_items-IsUpper : (items : List j.Node) → All IsUpper (string_items j true items)
  unfolding string_items
  string_items-IsUpper [] = tt
  string_items-IsUpper (item ∷ items) =
      store_string-IsUpper (string_of j (some item)) _ (string_items-IsUpper items)

  json_string_array-filled :
      (arr : Option j.Node) (upper : Bool) → OnArray (λ xs. xs ≢ []) (json_string_array j arr upper)
  unfolding json_string_array
  json_string_array-filled none upper = tt
  json_string_array-filled (some arr) upper =
      ground (arith, non_empty-filled (string_items j upper (j.children arr)))

  json_string_array-IsUpper :
      (arr : Option j.Node) → OnArray (All IsUpper) (json_string_array j arr true)
  unfolding json_string_array
  json_string_array-IsUpper none = tt
  json_string_array-IsUpper (some arr) = ground (
    arith,
    non_empty-OnArray (All IsUpper) (string_items j true (j.children arr))
        (string_items-IsUpper (j.children arr)),
  )

  terminated-Terminated :
      (xs : List ℤ) → Terminated (some (get_or (terminated j xs) default_status))
  terminated-Terminated [] = (pos 200 ∷ [], refl, λ e. cc)
  terminated-Terminated (x ∷ xs) = (x ∷ xs, refl, λ e. cc)

  status-Terminated :
      (arr : Option j.Node) → Terminated (some (get_or (json_int_array j arr) default_status))
  unfolding json_int_array
  status-Terminated none = (pos 200 ∷ [], refl, λ e. cc)
  status-Terminated (some arr) = elim (Bool-cases (j.is_array arr)) [
    | inl a ↦ elim (Bool-cases (j.array_size arr == 0)) [
      | inl z ↦ rw (a, z) (pos 200 ∷ [], refl, λ e. cc)
      | inr z ↦ rw (a, z) (terminated-Terminated (int_items j (j.children arr)))
    ]
    | inr a ↦ rw a (pos 200 ∷ [], refl, λ e. cc)
  ]

  parse_match-methods_filled :
      (m : Option j.Node) → OnArray (λ xs. xs ≢ []) (parse_match j m blank_rule).methods
  unfolding parse_match
  parse_match-methods_filled none = tt
  parse_match-methods_filled (some m) =
      ground (arith, json_string_array-filled (get_item j m (codes "methods")) true)

  parse_match-methods-IsUpper :
      (m : Option j.Node) → OnArray (All IsUpper) (parse_match j m blank_rule).methods
  unfolding parse_match
  parse_match-methods-IsUpper none = tt
  parse_match-methods-IsUpper (some m) =
      ground (arith, json_string_array-IsUpper (get_item j m (codes "methods")))

  parse_rule-WellFormed : (n : j.Node) → WellFormed (parse_rule j n)
  unfolding parse_rule
  parse_rule-WellFormed n = record {
    methods_upper = parse_match-methods-IsUpper (j.object_item n (codes "match"));
    methods_filled = parse_match-methods_filled (j.object_item n (codes "match"));
    status_terminated = status-Terminated (j.object_item n (codes "status_codes"));
    content_types_filled = json_string_array-filled (j.object_item n (codes "content_types")) false;
    bypass_filled = json_string_array-filled (j.object_item n (codes "bypass_cookies")) false;
    vary_filled = json_string_array-filled (j.object_item n (codes "vary")) false;
  }

  parse_rules-WellFormed : (ns : List j.Node) → All WellFormed (parse_rules j ns)
  unfolding parse_rules
  parse_rules-WellFormed [] = tt
  parse_rules-WellFormed (n ∷ ns) = elim (Bool-cases (j.is_object n)) [
    | inl e ↦ rw e (parse_rule-WellFormed n, parse_rules-WellFormed ns)
    | inr e ↦ rw e (parse_rules-WellFormed ns)
  ]

  -- The text parses, and its root has an array under "rules".
  abbrev pub HasRules : Option Bytes → List j.Node → Type 0
  HasRules none ns = ⊥
  HasRules (some json) ns =
      (root : j.Node) × (arr : j.Node) × (j.parse json ≡ some root)
      × (j.object_item root (codes "rules") ≡ some arr)
      × (j.is_array arr ≡ true)
      × (j.children arr ≡ ns)

  parse_root-eq-parsed :
      (arr : Option j.Node) (len : ℕ) (rs : CacherRuleset)
      → parse_root j arr len ≡ parsed rs
      → (a : j.Node) × (arr ≡ some a)
        × (j.is_array a ≡ true)
        × (rs.rules ≡ parse_rules j (j.children a))
  unfolding parse_root
  parse_root-eq-parsed none len rs h = absurd (write_error-not_parsed len missing_text rs h)
  parse_root-eq-parsed (some a) len rs h = elim (Bool-cases (j.is_array a)) [
    | inl e ↦ (a, refl, e, ground arith)
    | inr e ↦ absurd (write_error-not_parsed len missing_text rs (rw e at h))
  ]

  parse_text-eq-parsed :
      (root : Option j.Node) (json : Bytes) (len : ℕ) (rs : CacherRuleset)
      → parse_text j root json len ≡ parsed rs
      → (r : j.Node) × (root ≡ some r)
        × (parse_root j (j.object_item r (codes "rules")) len ≡ parsed rs)
  unfolding parse_text
  parse_text-eq-parsed none json len rs h = absurd (write_error-not_parsed len _ rs h)
  parse_text-eq-parsed (some r) json len rs h = (r, refl, h)

  ruleset_parse-HasRules :
      (json : Option Bytes) (len : ℕ) (rs : CacherRuleset)
      → ruleset_parse j json len ≡ parsed rs
      → (ns : List j.Node) × HasRules json ns × (rs.rules ≡ parse_rules j ns)
  unfolding ruleset_parse
  ruleset_parse-HasRules none len rs h = absurd (write_error-not_parsed len no_json_text rs h)
  ruleset_parse-HasRules (some json) len rs h =
      let (root, p, h') = parse_text-eq-parsed (j.parse json) json len rs h in
      let (arr, q, a, e) = parse_root-eq-parsed _ len rs h' in
      (j.children arr, (root, arr, p, q, a, refl), e)

  HasRules-ruleset_parse :
      (json : Option Bytes) (len : ℕ) (rs : CacherRuleset) (ns : List j.Node)
      → HasRules json ns
      → rs.rules ≡ parse_rules j ns
      → ruleset_parse j json len ≡ parsed rs
  unfolding ruleset_parse parse_text parse_root
  HasRules-ruleset_parse none len rs ns h e = absurd h
  HasRules-ruleset_parse (some json) len rs ns (root, arr, p, q, a, c) e = rw (p, q, a, c) (cc)

  -- The parse succeeds exactly when the text is JSON whose root has an array under "rules", and
  -- the rules are then one for each object of the array, in order, the nodes that are not objects
  -- passed over.
  pub ruleset_parse_iff :
      (json : Option Bytes) (len : ℕ) (rs : CacherRuleset)
      → (ruleset_parse j json len ≡ parsed rs)
        ↔ ((ns : List j.Node) × HasRules json ns × RulesOf j ns rs.rules)
  ruleset_parse_iff json len rs = (
    λ p.
        let (ns, h, e) = ruleset_parse-HasRules json len rs p in
        (ns, h, subst (λ rules. RulesOf j ns rules) (sym e) (parse_rules-RulesOf j ns)),
    λ (ns, h, rules). HasRules-ruleset_parse json len rs ns h (RulesOf-parse_rules j rules),
  )

  -- Every rule of a successful parse is well formed: its methods are upper case, its array of
  -- status codes ends with -1 behind at least one entry, and no array that is there is empty.
  pub ruleset_parse-WellFormed :
      (json : Option Bytes) (len : ℕ) (rs : CacherRuleset)
      → ruleset_parse j json len ≡ parsed rs
      → All WellFormed rs.rules
  ruleset_parse-WellFormed json len rs h =
      let (ns, _, e) = ruleset_parse-HasRules json len rs h in rw e (parse_rules-WellFormed ns)

  -- The message of a failed parse fits the buffer with its terminator, and nothing is written
  -- into a buffer of no bytes.
  pub ruleset_parse-MessageFits :
      (json : Option Bytes) (len : ℕ) → MessageFits len (ruleset_parse j json len)
  unfolding ruleset_parse parse_text parse_root
  ruleset_parse-MessageFits none len = write_error-MessageFits len no_json_text
  ruleset_parse-MessageFits (some json) len = elim (Option-cases (j.parse json)) [
    | inl e ↦ rw e (write_error-MessageFits len _)
    | inr (root, e) ↦ rw e (elim (Option-cases (j.object_item root (codes "rules"))) [
      | inl n ↦ rw n (write_error-MessageFits len missing_text)
      | inr (arr, s) ↦ rw s (elim (Bool-cases (j.is_array arr)) [
        | inl a ↦ rw a tt
        | inr a ↦ rw a (write_error-MessageFits len missing_text)
      ])
    ])
  ]
