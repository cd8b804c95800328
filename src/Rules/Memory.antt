-- ===== src/Rules/Memory.antt =====
-- The parser of src/cacher_rules.c once more, with its memory: every malloc, calloc and free, any of
-- which the allocator may refuse, and `cacher_ruleset_free`. Pointers carry the address of their block.
pub mod Heap
pub mod Freed
pub mod Owned
pub mod Leaks
pub mod Refines
use apache_cacher.Prelude.{
  ℕ, ◌-◌, Bool, true, false, List, [], ◌∷◌, ◌++◌, Option, none, some, map, ◌==◌, if◌then◌else◌,
  Bytes, codes, take, get_or,
}
use apache_cacher.Prelude.Int.{ℤ, pos, negsuc}
use apache_cacher.Ctype.{to_upper}
use apache_cacher.Cjson.{Cjson}
use apache_cacher.Rules.Parse.{
  string_of, get_item, parse_enabled, parse_ttl, int_items, no_json_text, syntax_text, missing_text,
}
use apache_cacher.Rules.Memory.Heap.{
  M, pure, ◌>>=◌, ◌>>◌, malloc, free, open_document, delete_document,
}

-- A string in a block of its own.
pub record CString : Type 0 where
  pub at : ℕ
  pub text : Bytes

-- An array of strings, or of ints with the -1 behind them, in a block of its own.
pub record CArray (A : Type 0) : Type 0 where
  pub at : ℕ
  pub items : List A

pub record RuleBlock : Type 0 where
  pub at : ℕ
  pub path : Option CString
  pub query : Option CString
  pub methods : Option (CArray CString)
  pub enabled : Bool
  pub ttl_seconds : ℤ
  pub status_codes : Option (CArray ℤ)
  pub content_types : Option (CArray CString)
  pub bypass_cookies : Option (CArray CString)
  pub vary : Option (CArray CString)

pub record RulesetBlock : Type 0 where
  pub at : ℕ
  pub rules : CArray RuleBlock

-- calloc of a rule, and `enabled = 1`
abbrev pub blank_block : ℕ → RuleBlock
blank_block p = record {
  at = p;
  path = none;
  query = none;
  methods = none;
  enabled = true;
  ttl_seconds = pos 0;
  status_codes = none;
  content_types = none;
  bypass_cookies = none;
  vary = none;
}

-- What is returned, and what errbuf receives, if anything.
pub record Parsed : Type 0 where
  pub ruleset_block : Option RulesetBlock
  pub message : Option Bytes

abbrev pub copied : Bytes → Option ℕ → Option CString
copied s none = none
copied s (some p) = some (record { at = p; text = s })

-- `cacher_strdup`
unfoldable pub strdup : Option Bytes → M (Option CString)
strdup none = pure none
strdup (some s) = do p ← malloc; pure (copied s p)

-- *c = (char) toupper(…)
abbrev pub upper_text : Bool → CString → CString
upper_text upper c = record c { text = if upper then map to_upper c.text else c.text }

-- `continue` where the copy failed
abbrev pub keep_copy : Bool → Option CString → List CString → List CString
keep_copy upper none rest = rest
keep_copy upper (some c) rest = upper_text upper c ∷ rest

-- `free_string_array` on an array that is there: its strings in order, then the array
unfoldable pub free_strings : List CString → M (Unit {0})
free_strings [] = pure tt
free_strings (c ∷ cs) = do free c.at; free_strings cs

unfoldable pub free_string_array : Option (CArray CString) → M (Unit {0})
unfolding free_strings
free_string_array none = pure tt
free_string_array (some arr) = do free_strings arr.items; free arr.at

-- free of a pointer that may be null
unfoldable pub free_string : Option CString → M (Unit {0})
free_string none = pure tt
free_string (some c) = free c.at

unfoldable pub free_ints : Option (CArray ℤ) → M (Unit {0})
free_ints none = pure tt
free_ints (some arr) = free arr.at

-- if (i == 0) { free(out); return NULL; }
unfoldable pub finish_strings : ℕ → List CString → M (Option (CArray CString))
finish_strings out [] = do free out; pure none
finish_strings out (c ∷ cs) = pure (some (record { at = out; items = c ∷ cs }))

unfoldable pub finish_ints : ℕ → List ℤ → M (Option (CArray ℤ))
finish_ints out [] = do free out; pure none
finish_ints out (x ∷ xs) = pure (some (record { at = out; items = (x ∷ xs) ++ negsuc 0 ∷ [] }))

-- The default of `parse_rule`, where malloc grants it.
abbrev pub default_ints : Option ℕ → Option (CArray ℤ)
default_ints none = none
default_ints (some p) = some (record { at = p; items = pos 200 ∷ negsuc 0 ∷ [] })

unfoldable pub ints_or_default : Option (CArray ℤ) → M (Option (CArray ℤ))
ints_or_default (some arr) = pure (some arr)
ints_or_default none = do p ← malloc; pure (default_ints p)

-- `free_rule` on a rule that is there
unfoldable pub free_rule : RuleBlock → M (Unit {0})
unfolding free_string free_string_array free_ints
free_rule r = do
  free_string r.path
  free_string r.query
  free_string_array r.methods
  free_ints r.status_codes
  free_string_array r.content_types
  free_string_array r.bypass_cookies
  free_string_array r.vary
  free r.at

unfoldable pub free_rules : List RuleBlock → M (Unit {0})
unfolding free_rule
free_rules [] = pure tt
free_rules (r ∷ rs) = do free_rule r; free_rules rs

-- `cacher_ruleset_free`
unfoldable pub ruleset_free : Option RulesetBlock → M (Unit {0})
unfolding free_rules
ruleset_free none = pure tt
ruleset_free (some rs) = do free_rules rs.rules.items; free rs.rules.at; free rs.at

-- snprintf, if (errbuf && errbuf_len)
abbrev pub error_of : ℕ → Bytes → Parsed
error_of len text = record {
  ruleset_block = none;
  message = if len == 0 then none else some (take (len - 1) text);
}

-- A null return that writes no message.
abbrev pub out_of_memory : Parsed
out_of_memory = record { ruleset_block = none; message = none }

module _ (j : Cjson) where
  open j use {Node}

  -- the loop of `json_string_array`: strings are copied, and what is no string is passed over
  unfoldable pub copy_items : Bool → List Node → M (List CString)
  unfolding strdup
  copy_items upper [] = pure []
  copy_items upper (item ∷ items) = do
    c ← strdup (string_of j (some item))
    rest ← copy_items upper items
    pure (keep_copy upper c rest)

  -- what follows calloc
  unfoldable pub fill_strings : Node → Bool → Option ℕ → M (Option (CArray CString))
  unfolding copy_items finish_strings
  fill_strings arr upper none = pure none
  fill_strings arr upper (some out) = do
    items ← copy_items upper (j.children arr)
    finish_strings out items

  unfoldable pub string_array : Option Node → Bool → M (Option (CArray CString))
  unfolding fill_strings
  string_array none upper = pure none
  string_array (some arr) upper =
      if j.is_array arr
      then if j.array_size arr == 0
        then pure none
        else (do out ← malloc; fill_strings arr upper out)
      else pure none

  unfoldable pub fill_ints : Node → Option ℕ → M (Option (CArray ℤ))
  unfolding finish_ints
  fill_ints arr none = pure none
  fill_ints arr (some out) = finish_ints out (int_items j (j.children arr))

  unfoldable pub int_array : Option Node → M (Option (CArray ℤ))
  unfolding fill_ints
  int_array none = pure none
  int_array (some arr) =
      if j.is_array arr
      then if j.array_size arr == 0 then pure none else (do out ← malloc; fill_ints arr out)
      else pure none

  -- the three fields of an object under "match"
  unfoldable pub match_object : Node → RuleBlock → M RuleBlock
  unfolding strdup string_array
  match_object m r = do
    path ← strdup (string_of j (get_item j m (codes "path")))
    query ← strdup (string_of j (get_item j m (codes "query")))
    methods ← string_array (get_item j m (codes "methods")) true
    pure (record r { path = path; query = query; methods = methods })

  -- if (cJSON_IsObject(match)) { … }
  unfoldable pub match_block : Option Node → RuleBlock → M RuleBlock
  unfolding match_object
  match_block none r = pure r
  match_block (some m) r = if j.is_object m then match_object m r else pure r

  -- `parse_rule` behind its calloc
  unfoldable pub fill_rule : Node → RuleBlock → M RuleBlock
  unfolding match_block int_array ints_or_default string_array
  fill_rule robj blank = do
    r ← match_block (get_item j robj (codes "match")) blank
    given ← int_array (get_item j robj (codes "status_codes"))
    status ← ints_or_default given
    types ← string_array (get_item j robj (codes "content_types")) false
    cookies ← string_array (get_item j robj (codes "bypass_cookies")) false
    vary ← string_array (get_item j robj (codes "vary")) false
    pure (record r {
      enabled = parse_enabled j (get_item j robj (codes "enabled"));
      ttl_seconds = parse_ttl j (get_item j robj (codes "ttl"));
      status_codes = status;
      content_types = types;
      bypass_cookies = cookies;
      vary = vary;
    })

  -- if (r) { rs->rules[i++] = r; }, behind the calloc
  unfoldable pub rule_at : Node → Option ℕ → M (List RuleBlock)
  unfolding fill_rule
  rule_at robj none = pure []
  rule_at robj (some p) = do r ← fill_rule robj (blank_block p); pure (r ∷ [])

  -- one round of the loop of `cacher_ruleset_parse`
  unfoldable pub rule_blocks_of : Node → M (List RuleBlock)
  unfolding rule_at
  rule_blocks_of robj = if j.is_object robj then (do p ← malloc; rule_at robj p) else pure []

  unfoldable pub rule_blocks : List Node → M (List RuleBlock)
  unfolding rule_blocks_of
  rule_blocks [] = pure []
  rule_blocks (n ∷ ns) = do here ← rule_blocks_of n; rest ← rule_blocks ns; pure (here ++ rest)

  -- what follows the calloc of rs->rules
  unfoldable pub fill_ruleset : Node → ℕ → Option ℕ → M Parsed
  unfolding rule_blocks
  fill_ruleset arr p none = do free p; delete_document; pure out_of_memory
  fill_ruleset arr p (some q) = do
    rules ← rule_blocks (j.children arr)
    delete_document
    pure (record {
      ruleset_block = some (record { at = p; rules = record { at = q; items = rules } });
      message = none;
    })

  -- what follows the calloc of rs
  unfoldable pub ruleset_at : Node → Option ℕ → M Parsed
  unfolding fill_ruleset
  ruleset_at arr none = do delete_document; pure out_of_memory
  ruleset_at arr (some p) = do q ← malloc; fill_ruleset arr p q

  unfoldable pub no_rules : ℕ → M Parsed
  no_rules len = do delete_document; pure (error_of len missing_text)

  -- the test of the "rules" member, and what follows it
  unfoldable pub root_block : Option Node → ℕ → M Parsed
  unfolding ruleset_at no_rules
  root_block none len = no_rules len
  root_block (some arr) len =
      if j.is_array arr then (do p ← malloc; ruleset_at arr p) else no_rules len

  -- what follows cJSON_Parse
  unfoldable pub text_block : Option Node → Bytes → ℕ → M Parsed
  unfolding root_block
  text_block none json len =
      pure (error_of len (syntax_text ++ take 40 (get_or (j.error_ptr json) (codes "(unknown)"))))
  text_block (some root) json len = do
    open_document
    root_block (get_item j root (codes "rules")) len

  -- `cacher_ruleset_parse`
  unfoldable pub ruleset_parse_block : Option Bytes → ℕ → M Parsed
  unfolding text_block
  ruleset_parse_block none len = pure (error_of len no_json_text)
  ruleset_parse_block (some json) len = text_block (j.parse json) json len
