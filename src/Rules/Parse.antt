-- ===== src/Rules/Parse.antt =====
-- `json_string_array`, `json_int_array`, `parse_rule` and `cacher_ruleset_parse` of
-- src/cacher_rules.c. Memory allocation succeeds.
use apache_cacher.Prelude.{
  ℕ, ◌-◌, Bool, true, false, List, [], ◌∷◌, ◌++◌, Option, none, some, map, ◌==◌, if◌then◌else◌,
  Bytes, codes, take, get_or,
}
use apache_cacher.Prelude.Int.{ℤ, pos, negsuc}
use apache_cacher.Ctype.{to_upper}
use apache_cacher.Cjson.{Cjson}
use apache_cacher.Rules.{CacherRule, CacherRuleset}

-- `failed` holds what was written to errbuf, if anything was.
pub data ParseResult : Type 0 where
  parsed : CacherRuleset → ParseResult
  failed : Option Bytes → ParseResult

-- snprintf into a buffer of `len` bytes: the text is cut to leave room for the terminator.
unfoldable pub write_error : ℕ → Bytes → ParseResult
write_error len text = if len == 0 then failed none else failed (some (take (len - 1) text))

abbrev pub no_json_text : Bytes
no_json_text = codes "no JSON supplied"

abbrev pub syntax_text : Bytes
syntax_text = codes "JSON syntax error near: "

abbrev pub missing_text : Bytes
missing_text = codes "missing top-level \"rules\" array"

-- An array that came out empty is freed, and null is returned.
abbrev pub non_empty : {A : Type 0} → List A → Option (List A)
non_empty [] = none
non_empty (x ∷ xs) = some (x ∷ xs)

-- out[i] = …, upper-cased if asked; what is no string is passed over
unfoldable pub store_string : Bool → Option Bytes → List Bytes → List Bytes
store_string upper none rest = rest
store_string upper (some s) rest = (if upper then map to_upper s else s) ∷ rest

-- malloc'd default of `parse_rule`
abbrev pub default_status : List ℤ
default_status = pos 200 ∷ negsuc 0 ∷ []

-- the rule after calloc and `enabled = 1`
abbrev pub blank_rule : CacherRule
blank_rule = record {
  path = none;
  query = none;
  methods = none;
  enabled = true;
  ttl_seconds = pos 0;
  status_codes = none;
  content_types = none;
  bypass_cookies = none;
  vary = none;
}

module _ (j : Cjson) where
  open j use {Node}

  abbrev pub get_item : Node → Bytes → Option Node
  get_item = j.object_item

  -- cJSON_IsString(item) && item->valuestring
  unfoldable pub string_of : Option Node → Option Bytes
  string_of none = none
  string_of (some n) = if j.is_string n then j.valuestring n else none

  -- the loop of `json_string_array`
  unfoldable pub string_items : Bool → List Node → List Bytes
  unfolding store_string
  string_items upper [] = []
  string_items upper (item ∷ items) =
      store_string upper (string_of (some item)) (string_items upper items)

  unfoldable pub json_string_array : Option Node → Bool → Option (List Bytes)
  unfolding string_items string_of
  json_string_array none upper = none
  json_string_array (some arr) upper =
      if j.is_array arr
      then if j.array_size arr == 0 then none else non_empty (string_items upper (j.children arr))
      else none

  -- the loop of `json_int_array`
  unfoldable pub int_items : List Node → List ℤ
  int_items [] = []
  int_items (item ∷ items) =
      let rest = int_items items in if j.is_number item then j.int_value item ∷ rest else rest

  -- out[n] = -1, unless nothing was stored
  abbrev pub terminated : List ℤ → Option (List ℤ)
  terminated [] = none
  terminated (x ∷ xs) = some ((x ∷ xs) ++ negsuc 0 ∷ [])

  unfoldable pub json_int_array : Option Node → Option (List ℤ)
  unfolding int_items
  json_int_array none = none
  json_int_array (some arr) =
      if j.is_array arr
      then if j.array_size arr == 0 then none else terminated (int_items (j.children arr))
      else none

  -- if (cJSON_IsObject(match)) { … }
  unfoldable pub parse_match : Option Node → CacherRule → CacherRule
  unfolding json_string_array string_of
  parse_match none r = r
  parse_match (some m) r =
      if j.is_object m
      then record r {
        path = string_of (get_item m (codes "path"));
        query = string_of (get_item m (codes "query"));
        methods = json_string_array (get_item m (codes "methods")) true;
      }
      else r

  -- if (cJSON_IsBool(enabled)) r->enabled = …
  unfoldable pub parse_enabled : Option Node → Bool
  parse_enabled none = true
  parse_enabled (some n) = if j.is_bool n then j.is_true n else true

  unfoldable pub parse_ttl : Option Node → ℤ
  parse_ttl none = pos 0
  parse_ttl (some n) = if j.is_number n then j.long_value n else pos 0

  unfoldable pub parse_rule : Node → CacherRule
  unfolding json_int_array parse_match parse_enabled parse_ttl
  parse_rule robj = record (parse_match (get_item robj (codes "match")) blank_rule) {
    enabled = parse_enabled (get_item robj (codes "enabled"));
    ttl_seconds = parse_ttl (get_item robj (codes "ttl"));
    status_codes =
        some (get_or (json_int_array (get_item robj (codes "status_codes"))) default_status);
    content_types = json_string_array (get_item robj (codes "content_types")) false;
    bypass_cookies = json_string_array (get_item robj (codes "bypass_cookies")) false;
    vary = json_string_array (get_item robj (codes "vary")) false;
  }

  -- the loop of `cacher_ruleset_parse`
  unfoldable pub parse_rules : List Node → List CacherRule
  unfolding parse_rule
  parse_rules [] = []
  parse_rules (n ∷ ns) =
      let rest = parse_rules ns in if j.is_object n then parse_rule n ∷ rest else rest

  -- the test of the "rules" member, and what follows it
  unfoldable pub parse_root : Option Node → ℕ → ParseResult
  unfolding parse_rules write_error
  parse_root none len = write_error len missing_text
  parse_root (some arr) len =
      if j.is_array arr
      then parsed (record { rules = parse_rules (j.children arr) })
      else write_error len missing_text

  unfoldable pub parse_text : Option Node → Bytes → ℕ → ParseResult
  unfolding parse_root write_error
  parse_text none json len =
      write_error len (syntax_text ++ take 40 (get_or (j.error_ptr json) (codes "(unknown)")))
  parse_text (some root) json len = parse_root (get_item root (codes "rules")) len

  -- `cacher_ruleset_parse`, with an error buffer of `len` bytes (0: no buffer)
  unfoldable pub ruleset_parse : Option Bytes → ℕ → ParseResult
  unfolding parse_text write_error
  ruleset_parse none len = write_error len no_json_text
  ruleset_parse (some json) len = parse_text (j.parse json) json len
