-- ===== src/Tests/Jsons.antt =====
-- A concrete instance of `Cjson` of Cjson.antt: a small type of documents, and the parse of one text.
use apache_cacher.Prelude.{
  ℕ, Bool, true, false, List, [], ◌∷◌, Option, none, some, Bytes, codes, length, refl, str_eq,
  if◌then◌else◌,
}
use apache_cacher.Prelude.Int.{ℤ, pos}
use apache_cacher.Cjson.{Cjson}

mutual
  pub data Doc : Type 0 where
    string : Bytes → Doc
    number : ℕ → Doc
    flag : Bool → Doc
    array : Docs → Doc
    object : Members → Doc

  pub data Docs : Type 0 where
    no_docs : Docs
    one_more : Doc → Docs → Docs

  pub data Members : Type 0 where
    no_members : Members
    member : Bytes → Doc → Members → Members

abbrev find_member : Members → Bytes → Option Doc
find_member no_members name = none
find_member (member n d ms) name = if str_eq n name then some d else find_member ms name

abbrev item_of : Doc → Bytes → Option Doc
item_of (object ms) name = find_member ms name
item_of _ name = none

abbrev docs_of : Docs → List Doc
docs_of no_docs = []
docs_of (one_more d ds) = d ∷ docs_of ds

abbrev children_of : Doc → List Doc
children_of (array ds) = docs_of ds
children_of _ = []

abbrev string_value : Doc → Option Bytes
string_value (string s) = some s
string_value _ = none

abbrev number_value : Doc → ℤ
number_value (number n) = pos n
number_value _ = pos 0

abbrev is_string_doc : Doc → Bool
is_string_doc (string s) = true
is_string_doc _ = false

abbrev is_number_doc : Doc → Bool
is_number_doc (number n) = true
is_number_doc _ = false

abbrev is_flag_doc : Doc → Bool
is_flag_doc (flag b) = true
is_flag_doc _ = false

abbrev is_true_doc : Doc → Bool
is_true_doc (flag b) = b
is_true_doc _ = false

abbrev is_array_doc : Doc → Bool
is_array_doc (array ds) = true
is_array_doc _ = false

abbrev is_object_doc : Doc → Bool
is_object_doc (object ms) = true
is_object_doc _ = false

-- {"match":{"path":"/blog/*","methods":["get"]},"ttl":60,"content_types":["text/*"]}
abbrev pub rule_doc : Doc
rule_doc = object (
    member (codes "match")
      (object (
        member (codes "path") (string (codes "/blog/*"))
          (member (codes "methods") (array (one_more (string (codes "get")) no_docs)) no_members)))
      (member (codes "ttl") (number 60) (
        member (codes "content_types") (array (one_more (string (codes "text/*")) no_docs))
          no_members)))

abbrev pub rules_text : Bytes
rules_text =
    codes
      "{\"rules\":[{\"match\":{\"path\":\"/blog/*\",\"methods\":[\"get\"]},\"ttl\":60,\"content_types\":[\"text/*\"]}]}"

abbrev pub rules_docs : List Doc
rules_docs = rule_doc ∷ []

abbrev parse_doc : Bytes → Option Doc
parse_doc text =
    if str_eq text rules_text
    then some (object (member (codes "rules") (array (one_more rule_doc no_docs)) no_members))
    else none

abbrev pub toy_cjson : Cjson
toy_cjson = record {
  Node = Doc;
  parse = parse_doc;
  error_ptr = λ s. some s;
  object_item = item_of;
  is_object = is_object_doc;
  is_array = is_array_doc;
  is_string = is_string_doc;
  is_number = is_number_doc;
  is_bool = is_flag_doc;
  is_true = is_true_doc;
  valuestring = string_value;
  int_value = number_value;
  long_value = number_value;
  children = children_of;
  array_size = λ n. length (children_of n);
  array_size-children = λ n. refl;
}
