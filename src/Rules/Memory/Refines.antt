-- ===== src/Rules/Memory/Refines.antt =====
-- The parser of src/cacher_rules.c with its memory, where every allocation is granted, beside the
-- parser without it.
use apache_cacher.Prelude.{
  ℕ, ◌+◌, ◌≡◌, Bool, true, false, List, [], ◌∷◌, ◌++◌, Option, none, some, map, Bytes, refl, ap,
  arith, ◌==◌, codes, Bool-cases, inl, inr, get_or,
}
use apache_cacher.Prelude.Int.{ℤ}
use apache_cacher.Cjson.{Cjson}
use apache_cacher.Rules.{CacherRule}
use apache_cacher.Rules.Parse.{
  ParseResult, parsed, failed, write_error, non_empty, store_string, default_status, blank_rule,
  terminated, string_of, get_item, string_items, json_string_array, int_items, json_int_array,
  parse_match, parse_rule, parse_rules, parse_root, parse_text, ruleset_parse,
}
use apache_cacher.Rules.Memory.Heap.{Heap, M, malloc, free, open_document, delete_document}
use apache_cacher.Rules.Memory.{
  CString, CArray, RuleBlock, RulesetBlock, Parsed, blank_block, strdup, keep_copy, finish_strings,
  finish_ints, ints_or_default, copy_items, fill_strings, string_array, fill_ints, int_array,
  match_object, match_block, fill_rule, rule_at, rule_blocks_of, rule_blocks, fill_ruleset,
  ruleset_at, error_of, no_rules, root_block, text_block, ruleset_parse_block,
}

-- What a value stands for, without its addresses.
abbrev pub text_of : Option CString → Option Bytes
text_of none = none
text_of (some c) = some c.text

abbrev pub texts : List CString → List Bytes
texts cs = map (λ (c : CString). c.text) cs

abbrev pub texts_of : Option (CArray CString) → Option (List Bytes)
texts_of none = none
texts_of (some arr) = some (texts arr.items)

abbrev pub ints_of : Option (CArray ℤ) → Option (List ℤ)
ints_of none = none
ints_of (some arr) = some arr.items

abbrev pub rule_of : RuleBlock → CacherRule
rule_of r = record {
  path = text_of r.path;
  query = text_of r.query;
  methods = texts_of r.methods;
  enabled = r.enabled;
  ttl_seconds = r.ttl_seconds;
  status_codes = ints_of r.status_codes;
  content_types = texts_of r.content_types;
  bypass_cookies = texts_of r.bypass_cookies;
  vary = texts_of r.vary;
}

abbrev pub rules_of : List RuleBlock → List CacherRule
rules_of rs = map rule_of rs

abbrev pub outcome : Option RulesetBlock → Option Bytes → ParseResult
outcome none message = failed message
outcome (some rs) message = parsed (record { rules = rules_of rs.rules.items })

abbrev pub result_of : Parsed → ParseResult
result_of r = outcome r.ruleset_block r.message

abbrev pub AllGranted : Heap → Type 0
AllGranted h = h.grants ≡ []

-- From a heap where all is granted, the action ends in one, and its value stands for `b`.
abbrev Gives : {A B : Type 0} → M A → (A → B) → B → Type 0
Gives m f b = (h : Heap) → AllGranted h → AllGranted (m h).1 × (f (m h).0 ≡ b)

malloc-AllGranted :
    (h : Heap)
    → AllGranted h
    → malloc h ≡ (some h.next, record h { next = h.next + 1; live = h.next ∷ h.live })
unfolding malloc
malloc-AllGranted h g = simp g

strdup-Gives : (s : Option Bytes) → Gives (strdup s) text_of s
unfolding strdup
strdup-Gives none h g = (g, refl)
strdup-Gives (some s) h g = rw (malloc-AllGranted h g) (g, refl)

texts-keep_copy :
    (upper : Bool) (c : Option CString) (s : Option Bytes) (cs : List CString) (rest : List Bytes)
    → text_of c ≡ s
    → texts cs ≡ rest
    → texts (keep_copy upper c cs) ≡ store_string upper s rest
unfolding store_string
texts-keep_copy upper none none cs rest e k = k
texts-keep_copy upper none (some s) cs rest e k = cc
texts-keep_copy upper (some c) none cs rest e k = cc
texts-keep_copy true (some c) (some s) cs rest e k = cc
texts-keep_copy false (some c) (some s) cs rest e k = cc

finish_strings-Gives :
    (out : ℕ) (cs : List CString) (rest : List Bytes)
    → texts cs ≡ rest
    → Gives (finish_strings out cs) texts_of (non_empty rest)
unfolding finish_strings free
finish_strings-Gives out [] [] e h g = (g, refl)
finish_strings-Gives out [] (x ∷ xs) e h g = cc
finish_strings-Gives out (c ∷ cs) [] e h g = cc
finish_strings-Gives out (c ∷ cs) (x ∷ xs) e h g = (g, ap some e)

module _ (j : Cjson) where
  copy_items-Gives :
      (upper : Bool) (items : List j.Node)
      → Gives (copy_items j upper items) texts (string_items j upper items)
  unfolding copy_items string_items
  copy_items-Gives upper [] h g = (g, refl)
  copy_items-Gives upper (item ∷ items) h g =
      let (g₁, e₁) = strdup-Gives (string_of j (some item)) h g in
      let (g₂, e₂) = copy_items-Gives upper items (strdup (string_of j (some item)) h).1 g₁ in
      (g₂, texts-keep_copy upper _ _ _ _ e₁ e₂)

  string_array-Gives :
      (arr : Option j.Node) (upper : Bool)
      → Gives (string_array j arr upper) texts_of (json_string_array j arr upper)
  unfolding string_array json_string_array fill_strings
  string_array-Gives none upper h g = (g, refl)
  string_array-Gives (some arr) upper h g = elim (Bool-cases (j.is_array arr)) [
    | inr a ↦ rw a (g, refl)
    | inl a ↦ rw a (elim (Bool-cases (j.array_size arr == 0)) [
      | inl e ↦ rw e (g, refl)
      | inr e ↦
          rw (e, malloc-AllGranted h g)
            (let h₁ = record h { next = h.next + 1; live = h.next ∷ h.live } in
              let (g₁, e₁) = copy_items-Gives upper (j.children arr) h₁ g in
              finish_strings-Gives h.next _ _ e₁ (copy_items j upper (j.children arr) h₁).1 g₁)
    ])
  ]

  finish_ints-Gives : (out : ℕ) (xs : List ℤ) → Gives (finish_ints out xs) ints_of (terminated j xs)
  unfolding finish_ints free
  finish_ints-Gives out [] h g = (g, refl)
  finish_ints-Gives out (x ∷ xs) h g = (g, refl)

  int_array-Gives : (arr : Option j.Node) → Gives (int_array j arr) ints_of (json_int_array j arr)
  unfolding int_array json_int_array fill_ints
  int_array-Gives none h g = (g, refl)
  int_array-Gives (some arr) h g = elim (Bool-cases (j.is_array arr)) [
    | inr a ↦ rw a (g, refl)
    | inl a ↦ rw a (elim (Bool-cases (j.array_size arr == 0)) [
      | inl e ↦ rw e (g, refl)
      | inr e ↦
          rw (e, malloc-AllGranted h g)
            (finish_ints-Gives h.next (int_items j (j.children arr))
              (record h { next = h.next + 1; live = h.next ∷ h.live }) g)
    ])
  ]

  ints_or_default-Gives :
      (given : Option (CArray ℤ)) (codes : Option (List ℤ))
      → ints_of given ≡ codes
      → Gives (ints_or_default given) ints_of (some (get_or codes default_status))
  unfolding ints_or_default
  ints_or_default-Gives (some arr) none e h g = cc
  ints_or_default-Gives (some arr) (some cs) e h g = (g, e)
  ints_or_default-Gives none (some cs) e h g = cc
  ints_or_default-Gives none none e h g = rw (malloc-AllGranted h g) (g, refl)

  -- the rule behind the three assignments
  abbrev matched_rule : j.Node → CacherRule
  matched_rule m = record blank_rule {
    path = string_of j (get_item j m (codes "path"));
    query = string_of j (get_item j m (codes "query"));
    methods = json_string_array j (get_item j m (codes "methods")) true;
  }

  match_object-Gives :
      (m : j.Node) (p : ℕ) → Gives (match_object j m (blank_block p)) rule_of (matched_rule m)
  unfolding match_object
  match_object-Gives m p h g =
      let path = string_of j (get_item j m (codes "path")) in
      let query = string_of j (get_item j m (codes "query")) in
      let (g₁, e₁) = strdup-Gives path h g in
      let (g₂, e₂) = strdup-Gives query (strdup path h).1 g₁ in
      let (g₃, e₃) =
        string_array-Gives (get_item j m (codes "methods")) true (strdup query (strdup path h).1).1
          g₂ in
      (g₃, cc (e₁, e₂, e₃))

  match_block-Gives :
      (m : Option j.Node) (p : ℕ)
      → Gives (match_block j m (blank_block p)) rule_of (parse_match j m blank_rule)
  unfolding match_block parse_match
  match_block-Gives none p h g = (g, refl)
  match_block-Gives (some m) p h g = elim (Bool-cases (j.is_object m)) [
    | inl o ↦ rw o (match_object-Gives m p h g)
    | inr o ↦ rw o (g, refl)
  ]

  fill_rule-Gives :
      (robj : j.Node) (p : ℕ) → Gives (fill_rule j robj (blank_block p)) rule_of (parse_rule j robj)
  unfolding fill_rule parse_rule
  fill_rule-Gives robj p h g =
      let m = match_block j (get_item j robj (codes "match")) (blank_block p) in
      let status = get_item j robj (codes "status_codes") in
      let given = (int_array j status (m h).1).0 in
      let types = get_item j robj (codes "content_types") in
      let cookies = get_item j robj (codes "bypass_cookies") in
      let (g₁, e₁) = match_block-Gives (get_item j robj (codes "match")) p h g in
      let (g₂, e₂) = int_array-Gives status (m h).1 g₁ in
      let h₂ = (int_array j status (m h).1).1 in
      let (g₃, e₃) = ints_or_default-Gives given _ e₂ h₂ g₂ in
      let h₃ = (ints_or_default given h₂).1 in
      let (g₄, e₄) = string_array-Gives types false h₃ g₃ in
      let h₄ = (string_array j types false h₃).1 in
      let (g₅, e₅) = string_array-Gives cookies false h₄ g₄ in
      let h₅ = (string_array j cookies false h₄).1 in
      let (g₆, e₆) = string_array-Gives (get_item j robj (codes "vary")) false h₅ g₅ in
      (g₆, cc (ap (λ r. r.path) e₁, ap (λ r. r.query) e₁, ap (λ r. r.methods) e₁, e₃, e₄, e₅, e₆))

  rules-append : (rs ss : List RuleBlock) → rules_of (rs ++ ss) ≡ rules_of rs ++ rules_of ss
  rules-append [] ss = refl
  rules-append (r ∷ rs) ss = rw (rules-append rs ss)

  rule_blocks-Gives : (ns : List j.Node) → Gives (rule_blocks j ns) rules_of (parse_rules j ns)
  unfolding rule_blocks parse_rules rule_blocks_of rule_at
  rule_blocks-Gives [] h g = (g, refl)
  rule_blocks-Gives (n ∷ ns) h g = elim (Bool-cases (j.is_object n)) [
    | inr o ↦ rw o (rule_blocks-Gives ns h g)
    | inl o ↦
        rw (o, malloc-AllGranted h g)
          (let h₁ = record h { next = h.next + 1; live = h.next ∷ h.live } in
            let (g₁, e₁) = fill_rule-Gives n h.next h₁ g in
            let (g₂, e₂) = rule_blocks-Gives ns (fill_rule j n (blank_block h.next) h₁).1 g₁ in
            (g₂, cc (e₁, e₂)))
  ]

  no_rules-Gives : (len : ℕ) (text : Bytes) → result_of (error_of len text) ≡ write_error len text
  unfolding write_error
  no_rules-Gives len text = ground arith

  root_block-Gives :
      (arr : Option j.Node) (len : ℕ)
      → Gives (root_block j arr len) result_of (parse_root j arr len)
  unfolding root_block parse_root ruleset_at fill_ruleset no_rules delete_document
  root_block-Gives none len h g = (g, no_rules-Gives len _)
  root_block-Gives (some arr) len h g = elim (Bool-cases (j.is_array arr)) [
    | inr a ↦ rw a (g, no_rules-Gives len _)
    | inl a ↦
        let h₁ = record h { next = h.next + 1; live = h.next ∷ h.live } in
        let h₂ = record h₁ { next = h₁.next + 1; live = h₁.next ∷ h₁.live } in
        let (g₁, e₁) = rule_blocks-Gives (j.children arr) h₂ g in
        rw (a, malloc-AllGranted h g, malloc-AllGranted h₁ g) (g₁, cc e₁)
  ]

  -- Where every allocation is granted, the parser with its memory returns what the parser without it
  -- returns, rule by rule, with the same message.
  pub ruleset_parse_block_refines :
      (json : Option Bytes) (len : ℕ) (h : Heap)
      → AllGranted h
      → result_of (ruleset_parse_block j json len h).0 ≡ ruleset_parse j json len
  unfolding ruleset_parse_block ruleset_parse open_document
  ruleset_parse_block_refines none len h g = no_rules-Gives len _
  ruleset_parse_block_refines (some json) len h g = text (j.parse json)
    where
      text :
          (root : Option j.Node)
          → result_of (text_block j root json len h).0 ≡ parse_text j root json len
      text none = no_rules-Gives len _
      text (some root) =
          (root_block-Gives (get_item j root (codes "rules")) len (open_document h).1 g).1
