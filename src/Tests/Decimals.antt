-- ===== src/Tests/Decimals.antt =====
-- A concrete instance of `Decimal` of Apr.antt: the decimal digits behind an optional minus sign.
use apache_cacher.Prelude.{
  subst, ◌==◌, ℕ, zero, suc, ◌+◌, ◌-◌, ◌*◌, ◌/◌, ◌%◌, ◌^◌, ◌<◌, ◌≤◌, ◌≡◌, true, false, [], ◌∷◌,
  ◌++◌, Bytes, All, All-append, refl, sym, ap, arith, ◌∙◌, Bool-cases, inl, inr, ltb,
}
use apache_cacher.Prelude.Int.{ℤ, pos, negsuc, sub_ℕ}
use apache_cacher.Apr.{Decimal, InInt64, DigitOrMinus}

abbrev digits : ℕ → ℕ → Bytes
digits zero n = []
digits (suc f) n = elim (ltb n 10) [
  | true ↦ (48 + n) ∷ []
  | false ↦ digits f (n / 10) ++ (48 + n % 10) ∷ []
]

abbrev value : ℕ → Bytes → ℕ
value acc [] = acc
value acc (c ∷ s) = value (10 * acc + (c - 48)) s

abbrev print_int : ℤ → Bytes
print_int (pos n) = digits 20 n
print_int (negsuc n) = b'-' ∷ digits 20 (suc n)

-- a number that is read with a minus sign
abbrev signed : Bytes → ℤ
signed [] = pos 0
signed (c ∷ s) = elim (c == b'-') [ true ↦ sub_ℕ 0 (value 0 s) | false ↦ pos (value 0 (c ∷ s)) ]

value-append : (acc : ℕ) (s : Bytes) (c : ℕ) → value acc (s ++ c ∷ []) ≡ 10 * value acc s + (c - 48)
value-append acc [] c = refl
value-append acc (x ∷ s) c = value-append (10 * acc + (x - 48)) s c

value_one : (n : ℕ) → value 0 ((48 + n) ∷ []) ≡ n
value_one n = omega arith

value-digits : (f n : ℕ) → n < 10 ^ f → value 0 (digits f n) ≡ n
value-digits zero n h = omega arith
value-digits (suc f) n h = elim (Bool-cases (ltb n 10)) [
  | inl e ↦ rw (e, digits) (value_one n)
  | inr e ↦
      let ih = value-digits f (n / 10) (omega arith) in
      rw (e, digits, value-append 0 (digits f (n / 10)) (48 + n % 10), ih) (omega arith)
]

abbrev IsDigit : ℕ → Type 0
IsDigit c = (48 ≤ c) × (c ≤ 57)

digits_plain : (f n : ℕ) → All IsDigit (digits f n)
digits_plain zero n = tt
digits_plain (suc f) n = elim (Bool-cases (ltb n 10)) [
  | inl e ↦ subst (λ s. All IsDigit s) (sym (first_digits e)) ((omega arith, below e), tt)
  | inr e ↦
      subst (λ s. All IsDigit s) (sym (more_digits e))
        (All-append IsDigit (digits f (n / 10)) ((48 + n % 10) ∷ []) (digits_plain f (n / 10))
          ((omega arith, omega arith), tt))
]
  where
    below : ltb n 10 ≡ true → 48 + n ≤ 57
    below e = ground arith

    first_digits : ltb n 10 ≡ true → digits (suc f) n ≡ (48 + n) ∷ []
    first_digits e = rw (e, digits)

    more_digits : ltb n 10 ≡ false → digits (suc f) n ≡ digits f (n / 10) ++ (48 + n % 10) ∷ []
    more_digits e = rw (e, digits)

signed-digits : (s : Bytes) → All IsDigit s → signed s ≡ pos (value 0 s)
signed-digits [] h = refl
signed-digits (c ∷ s) ((k, l), h) = rw (not_minus k, signed)
  where
    not_minus : 48 ≤ c → (c == b'-') ≡ false
    not_minus m = ground arith

plain_weaken : (s : Bytes) → All IsDigit s → All DigitOrMinus s
plain_weaken [] h = tt
plain_weaken (c ∷ s) (k, h) = (inr k, plain_weaken s h)

pub print_int_plain : (z : ℤ) → All DigitOrMinus (print_int z)
print_int_plain (pos n) = plain_weaken (digits 20 n) (digits_plain 20 n)
print_int_plain (negsuc n) = (inl refl, plain_weaken (digits 20 (suc n)) (digits_plain 20 (suc n)))

below_zero : (n : ℕ) → sub_ℕ 0 (suc n) ≡ negsuc n
below_zero n = ground arith

pub signed-print_int : (z : ℤ) → InInt64 z → signed (print_int z) ≡ z
signed-print_int (pos n) (h, k) =
    signed-digits (digits 20 n) (digits_plain 20 n)
    ∙ ap (λ m. pos m) (value-digits 20 n (omega arith))
signed-print_int (negsuc n) (h, k) =
    ap (λ m. sub_ℕ 0 m) (value-digits 20 (suc n) (omega arith)) ∙ below_zero n

abbrev pub toy_decimal : Decimal
toy_decimal = record {
  print = print_int;
  atoi64 = signed;
  print_plain = print_int_plain;
  atoi64-print = signed-print_int;
}
