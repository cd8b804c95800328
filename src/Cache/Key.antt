-- ===== src/Cache/Key.antt =====
-- The cache key of a request and the paths of its entry: `hex_encode_md5`,
-- `build_cache_key_string` and `cache_key_paths` of src/cacher_cache.c.
pub mod Hex
pub mod Injective
pub mod Paths
use apache_cacher.Prelude.{
  ℕ, zero, suc, ◌/◌, ◌%◌, Bool, true, false, List, [], ◌∷◌, ◌++◌, Option, none, some, if◌then◌else◌,
  Bytes, codes, take, drop, get_or, strip_prefix,
}
use apache_cacher.Apr.{Strtok, Tables, Digest}
use apache_cacher.Request.{RequestRec, Request}
use apache_cacher.Rules.{CacherRule}
use apache_cacher.Util.{original_request, get_cookie}

-- static const char hex[]
abbrev pub hex_digits : Bytes
hex_digits = codes "0123456789abcdef"

unfoldable pub byte_at : Bytes → ℕ → ℕ
byte_at [] i = 0
byte_at (c ∷ s) zero = c
byte_at (c ∷ s) (suc i) = byte_at s i

-- hex[n]
unfoldable pub hex_digit : ℕ → ℕ
unfolding byte_at
hex_digit n = byte_at hex_digits n

unfoldable pub hex_encode_md5 : Bytes → Bytes
unfolding hex_digit
hex_encode_md5 [] = []
hex_encode_md5 (c ∷ digest) = hex_digit (c / 16 % 16) ∷ hex_digit (c % 16) ∷ hex_encode_md5 digest

-- r->header_only ? "GET" : r->method
unfoldable pub key_method : RequestRec → Bytes
key_method r = if r.header_only then codes "GET" else r.method

-- orig->args ? "?" : "", orig->args ? orig->args : ""
abbrev pub args_text : Option Bytes → Bytes
args_text none = []
args_text (some args) = b'?' ∷ args

abbrev pub url_text : RequestRec → Bytes
url_text orig = orig.uri ++ args_text orig.args

abbrev pub cookie_prefix : Bytes
cookie_prefix = codes "cookie:"

module _ (tk : Strtok) (tb : Tables) where
  -- strncmp(entry, "cookie:", 7) == 0, with entry + 7
  unfoldable pub vary_value : Request → Bytes → Option Bytes → Option Bytes
  vary_value q entry (some name) = get_cookie tk tb q name
  vary_value q entry none = tb.table_get q.r.headers_in entry

  -- value ? value : ""
  unfoldable pub vary_text : Request → Bytes → Bytes
  unfolding vary_value
  vary_text q entry = get_or (vary_value q entry (strip_prefix cookie_prefix entry)) []

  -- the loop over rule->vary
  unfoldable pub append_vary : Request → Bytes → List Bytes → Bytes
  append_vary q key [] = key
  append_vary q key (entry ∷ entries) =
      append_vary q (key ++ (b'\n' ∷ (entry ++ (b'=' ∷ vary_text q entry)))) entries

  unfoldable pub build_cache_key_string : Request → CacherRule → Bytes
  unfolding append_vary key_method
  build_cache_key_string q rule =
      append_vary q
        (key_method q.r
          ++ (b'\n' ∷ (get_or q.r.hostname [] ++ (b'\n' ∷ url_text (original_request q)))))
        (get_or rule.vary [])

  module _ (dg : Digest) where
    -- The paths of the header file and the body file.
    abbrev pub entry_paths : Bytes → Bytes → Bytes × Bytes
    entry_paths root hex =
        let shard_dir = root ++ (b'/' ∷ (take 2 hex ++ (b'/' ∷ take 2 (drop 2 hex)))) in
        (
          shard_dir ++ (b'/' ∷ (hex ++ codes ".header")),
          shard_dir ++ (b'/' ∷ (hex ++ codes ".body")),
        )

    -- `none` where the root is unset
    unfoldable pub cache_key_paths : Request → Option Bytes → CacherRule → Option (Bytes × Bytes)
    unfolding build_cache_key_string hex_encode_md5
    cache_key_paths q none rule = none
    cache_key_paths q (some root) rule =
        some (entry_paths root (hex_encode_md5 (dg.md5 (build_cache_key_string q rule))))
