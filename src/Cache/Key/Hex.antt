-- ===== src/Cache/Key/Hex.antt =====
-- `hex_encode_md5` of src/cacher_cache.c and a decoder for it.
use apache_cacher.Prelude.{
  ℕ, zero, suc, ◌+◌, ◌-◌, ◌*◌, ◌/◌, ◌%◌, ◌<◌, Bool, true, ◌&&◌, [], ◌∷◌, ◌==◌, ==_iff,
  if◌then◌else◌, leb, Bytes, All, length, ◌≡◌, refl, ap₂, arith,
}
use apache_cacher.Cache.Key.{hex_digit, hex_encode_md5}

unhex : ℕ → ℕ
unhex c = if leb c b'9' then c - b'0' else c - 87

-- The bytes that a hexadecimal text stands for.
pub hex_decode : Bytes → Bytes
unfolding unhex
hex_decode [] = []
hex_decode (h ∷ []) = []
hex_decode (h ∷ l ∷ s) = (unhex h * 16 + unhex l) ∷ hex_decode s

all_below : ℕ → (ℕ → Bool) → Bool
all_below zero p = true
all_below (suc n) p = p n && all_below n p

all_below_sound : (n x : ℕ) (p : ℕ → Bool) → all_below n p ≡ true → x < n → p x ≡ true
unfolding all_below
all_below_sound zero x p h lt = absurd (omega arith)
all_below_sound (suc n) x p h lt = ground (arith, all_below_sound n x p)

digit_table : all_below 16 (λ n. unhex (hex_digit n) == n) ≡ true
unfolding all_below unhex hex_digit
digit_table = refl

unhex-hex_digit : (n : ℕ) → n < 16 → unhex (hex_digit n) ≡ n
unhex-hex_digit n h =
    (==_iff _ n).0 (all_below_sound 16 n (λ m. unhex (hex_digit m) == m) digit_table h)

byte_parts : (c h l : ℕ) → c < 256 → h ≡ c / 16 % 16 → l ≡ c % 16 → h * 16 + l ≡ c
byte_parts c h l k p q = omega arith

-- Decoding undoes the encoding of any bytes.
pub hex_decode-hex_encode_md5 :
    (digest : Bytes) → All (λ c. c < 256) digest → hex_decode (hex_encode_md5 digest) ≡ digest
unfolding hex_decode hex_encode_md5
hex_decode-hex_encode_md5 [] h = refl
hex_decode-hex_encode_md5 (c ∷ digest) h =
    ap₂ ◌∷◌
      (byte_parts c _ _ h.0 (unhex-hex_digit (c / 16 % 16) (omega arith))
        (unhex-hex_digit (c % 16) (omega arith)))
      (hex_decode-hex_encode_md5 digest h.1)

pub length-hex_encode_md5 : (s : Bytes) → length (hex_encode_md5 s) ≡ 2 * length s
unfolding hex_encode_md5
length-hex_encode_md5 [] = omega arith
length-hex_encode_md5 (c ∷ s) = omega (arith, length-hex_encode_md5 s)
