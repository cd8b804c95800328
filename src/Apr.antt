-- ===== src/Apr.antt =====
-- What the module uses of APR, as parameters with their documented behaviour: `apr_strtok`,
-- 64-bit decimal numbers, MD5 and header tables.
pub mod Tokens
use apache_cacher.Prelude.{
  ℕ, suc, ◌+◌, ◌^◌, ◌<◌, ◌≤◌, ◌≡◌, ◌⊎◌, Bool, true, false, List, [], ◌∷◌, ◌++◌, Option, none, some,
  Bytes, All, any, ◌==◌, ◌≢◌, drop, length, map,
}
use apache_cacher.Prelude.Int.{ℤ, pos, pos_part, neg_part}
use apache_cacher.Ctype.{to_lower}

abbrev pub is_sep : Bytes → ℕ → Bool
is_sep sep c = any (λ d. d == c) sep

abbrev pub AllSep : Bytes → Bytes → Type 0
AllSep sep = All (λ c. is_sep sep c ≡ true)

abbrev pub NoSep : Bytes → Bytes → Type 0
NoSep sep = All (λ c. is_sep sep c ≡ false)

-- What stands behind a token: nothing, or a separator first.
abbrev pub EndsToken : Bytes → Bytes → Type 0
EndsToken sep [] = Unit
EndsToken sep (c ∷ s) = is_sep sep c ≡ true

-- apr_strtok: leading separators are skipped, the token runs up to the next separator, and that
-- separator is overwritten.
pub record Strtok : Type 0 where
  pub strtok : Bytes → Bytes → Option (Bytes × Bytes)
  pub strtok_end : (sep s : Bytes) → AllSep sep s → strtok sep s ≡ none
  pub strtok_token :
      (sep skip tok rest : Bytes)
      → AllSep sep skip
      → NoSep sep tok
      → tok ≢ []
      → EndsToken sep rest
      → strtok sep (skip ++ (tok ++ rest)) ≡ some (tok, drop 1 rest)

-- The numbers of an apr_int64_t.
abbrev pub InInt64 : ℤ → Type 0
InInt64 z = (pos_part z < 2 ^ 63) × (neg_part z ≤ 2 ^ 63)

abbrev pub DigitOrMinus : ℕ → Type 0
DigitOrMinus c = (c ≡ b'-') ⊎ ((b'0' ≤ c) × (c ≤ b'9'))

-- "%" APR_INT64_T_FMT in apr_psprintf, and apr_atoi64, which reads such a text back.
pub record Decimal : Type 0 where
  pub print : ℤ → Bytes
  pub atoi64 : Bytes → ℤ
  pub print_plain : (z : ℤ) → All DigitOrMinus (print z)
  pub atoi64-print : (z : ℤ) → InInt64 z → atoi64 (print z) ≡ z

-- apr_md5: 16 bytes.
pub record Digest : Type 0 where
  pub md5 : Bytes → Bytes
  pub length-md5 : (s : Bytes) → length (md5 s) ≡ 16
  pub md5_bytes : (s : Bytes) → All (λ c. c < 256) (md5 s)

-- An apr_table_t of headers, as the array of its entries.
abbrev pub Headers : Type 0
Headers = List (Bytes × Bytes)

-- apr_table_get and apr_table_setn: keys are compared without regard to case.
pub record Tables : Type 0 where
  pub table_get : Headers → Bytes → Option Bytes
  pub table_setn : Headers → Bytes → Bytes → Headers
  pub get-setn_same :
      (t : Headers) (k j v : Bytes)
      → map to_lower k ≡ map to_lower j
      → table_get (table_setn t k v) j ≡ some v
  pub get-setn_other :
      (t : Headers) (k j v : Bytes)
      → map to_lower k ≢ map to_lower j
      → table_get (table_setn t k v) j ≡ table_get t j
