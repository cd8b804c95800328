-- ===== src/Tests/Libs.antt =====
-- Concrete instances of `Strtok`, `Tables` and `Digest` of Apr.antt.
use apache_cacher.Prelude.{
  ℕ, zero, suc, ◌%◌, ◌<◌, ◌≡◌, ◌≢◌, Bool, true, false, [], ◌∷◌, ◌++◌, Option, none, some, Bytes,
  All, drop, length, map, refl, sym, ap, arith, ◌∙◌, Bool-cases, inl, inr, str_eq, str_eq_iff,
}
use apache_cacher.Ctype.{to_lower}
use apache_cacher.Apr.{Strtok, Tables, Digest, Headers, is_sep, AllSep, NoSep, EndsToken}

abbrev cut : Bytes → Bytes → Bytes × Bytes
cut sep [] = ([], [])
cut sep (c ∷ s) = elim (is_sep sep c) [
  | true ↦ ([], s)
  | false ↦ (c ∷ (cut sep s).0, (cut sep s).1)
]

abbrev next_token : Bytes → Bytes → Option (Bytes × Bytes)
next_token sep [] = none
next_token sep (c ∷ s) = elim (is_sep sep c) [
  | true ↦ next_token sep s
  | false ↦ some (c ∷ (cut sep s).0, (cut sep s).1)
]

pub cut-append :
    (sep tok rest : Bytes)
    → NoSep sep tok
    → EndsToken sep rest
    → cut sep (tok ++ rest) ≡ (tok, drop 1 rest)
cut-append sep [] [] n e = refl
cut-append sep [] (c ∷ rest) n e = rw (e, cut)
cut-append sep (c ∷ tok) rest (h, n) e = rw (h, cut, cut-append sep tok rest n e)

pub next_token_end : (sep s : Bytes) → AllSep sep s → next_token sep s ≡ none
next_token_end sep [] h = refl
next_token_end sep (c ∷ s) (e, h) = rw (e, next_token, next_token_end sep s h)

pub next_token_first :
    (sep skip tok rest : Bytes)
    → AllSep sep skip
    → NoSep sep tok
    → tok ≢ []
    → EndsToken sep rest
    → next_token sep (skip ++ (tok ++ rest)) ≡ some (tok, drop 1 rest)
next_token_first sep [] [] rest h n k e = absurd (k refl)
next_token_first sep [] (c ∷ tok) rest h (m, n) k e =
    rw (m, next_token, cut-append sep tok rest n e)
next_token_first sep (c ∷ skip) tok rest (q, h) n k e =
    rw (q, next_token, next_token_first sep skip tok rest h n k e)

abbrev pub toy_strtok : Strtok
toy_strtok = record {
  strtok = next_token;
  strtok_end = next_token_end;
  strtok_token = next_token_first;
}

abbrev same_key : Bytes → Bytes → Bool
same_key k j = str_eq (map to_lower k) (map to_lower j)

abbrev get : Headers → Bytes → Option Bytes
get [] j = none
get ((k, v) ∷ t) j = elim (same_key k j) [ true ↦ some v | false ↦ get t j ]

abbrev setn : Headers → Bytes → Bytes → Headers
setn [] k v = (k, v) ∷ []
setn ((a, b) ∷ t) k v = elim (same_key a k) [ true ↦ (a, v) ∷ t | false ↦ (a, b) ∷ setn t k v ]

pub same_key_eq : (k j : Bytes) → map to_lower k ≡ map to_lower j → same_key k j ≡ true
same_key_eq k j e = (str_eq_iff (map to_lower k) (map to_lower j)).1 e

pub same_key_neq : (k j : Bytes) → map to_lower k ≢ map to_lower j → same_key k j ≡ false
same_key_neq k j n = elim (Bool-cases (same_key k j)) [
  | inl e ↦ absurd (n ((str_eq_iff (map to_lower k) (map to_lower j)).0 e))
  | inr e ↦ e
]

pub get-setn_eq :
    (t : Headers) (k j v : Bytes) → map to_lower k ≡ map to_lower j → get (setn t k v) j ≡ some v
get-setn_eq [] k j v e = rw (same_key_eq k j e, get)
get-setn_eq ((a, b) ∷ t) k j v e = elim (Bool-cases (same_key a k)) [
  | inl q ↦
      rw (q, setn, same_key_eq a j ((str_eq_iff (map to_lower a) (map to_lower k)).0 q ∙ e), get)
  | inr q ↦ elim (Bool-cases (same_key a j)) [
    | inl r ↦
        let i = (str_eq_iff (map to_lower a) (map to_lower j)).0 r in
        absurd (false_not_true (sym q ∙ same_key_eq a k (i ∙ sym e)))
    | inr r ↦ rw (q, setn, r, get, get-setn_eq t k j v e)
  ]
]
  where
    false_not_true : false ≡ true → ⊥
    false_not_true h = cc

pub get-setn_neq :
    (t : Headers) (k j v : Bytes) → map to_lower k ≢ map to_lower j → get (setn t k v) j ≡ get t j
get-setn_neq [] k j v n = rw (same_key_neq k j n, get)
get-setn_neq ((a, b) ∷ t) k j v n = elim (Bool-cases (same_key a k)) [
  | inl q ↦
      let i = (str_eq_iff (map to_lower a) (map to_lower k)).0 q in
      rw (q, setn, same_key_neq a j (λ h. n (sym i ∙ h)), get)
  | inr q ↦ elim (Bool-cases (same_key a j)) [
    | inl r ↦ rw (q, setn, r, get)
    | inr r ↦ rw (q, setn, r, get, get-setn_neq t k j v n)
  ]
]

abbrev pub toy_tables : Tables
toy_tables = record {
  table_get = get;
  table_setn = setn;
  get-setn_same = get-setn_eq;
  get-setn_other = get-setn_neq;
}

-- the first `n` bytes, padded
abbrev fill : ℕ → Bytes → Bytes
fill zero s = []
fill (suc n) [] = 0 ∷ fill n []
fill (suc n) (c ∷ s) = c % 256 ∷ fill n s

pub length-fill : (n : ℕ) (s : Bytes) → length (fill n s) ≡ n
length-fill zero s = refl
length-fill (suc n) [] = ap (λ m. suc m) (length-fill n [])
length-fill (suc n) (c ∷ s) = ap (λ m. suc m) (length-fill n s)

pub fill_bytes : (n : ℕ) (s : Bytes) → All (λ c. c < 256) (fill n s)
fill_bytes zero s = tt
fill_bytes (suc n) [] = (omega arith, fill_bytes n [])
fill_bytes (suc n) (c ∷ s) = (omega arith, fill_bytes n s)

abbrev pub toy_digest : Digest
toy_digest = record { md5 = fill 16; length-md5 = length-fill 16; md5_bytes = fill_bytes 16 }
