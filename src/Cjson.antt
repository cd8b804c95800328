-- ===== src/Cjson.antt =====
-- What src/cacher_rules.c uses of the cJSON library, which stays a parameter.
use apache_cacher.Prelude.{ℕ, ◌≡◌, Bool, false, List, Option, none, some, length, Bytes}
use apache_cacher.Prelude.Int.{ℤ}

pub record Cjson : Type 1 where
  pub Node : Type 0
  -- cJSON_Parse, null on a syntax error, and cJSON_GetErrorPtr after that error
  pub parse : Bytes → Option Node
  pub error_ptr : Bytes → Option Bytes
  -- cJSON_GetObjectItemCaseSensitive on a node that is there
  pub object_item : Node → Bytes → Option Node
  pub is_object : Node → Bool
  pub is_array : Node → Bool
  pub is_string : Node → Bool
  pub is_number : Node → Bool
  pub is_bool : Node → Bool
  pub is_true : Node → Bool
  pub valuestring : Node → Option Bytes
  -- (int) valuedouble and (long) valuedouble
  pub int_value : Node → ℤ
  pub long_value : Node → ℤ
  -- the children that cJSON_ArrayForEach visits, and cJSON_GetArraySize, which counts them
  pub children : Node → List Node
  pub array_size : Node → ℕ
  pub array_size-children : (n : Node) → array_size n ≡ length (children n)

-- A test of cJSON on a null pointer is false.
abbrev pub on_node : {N : Type 0} → (N → Bool) → Option N → Bool
on_node test none = false
on_node test (some n) = test n
