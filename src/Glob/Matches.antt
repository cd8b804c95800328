-- ===== src/Glob/Matches.antt =====
-- What it means for a value to match a pattern, with no search order in it.
use apache_cacher.Prelude.{ℕ, Bool, true, [], ◌∷◌, ◌≡◌, ◌≢◌, ◌↔◌, Bytes, refl, arith}
use apache_cacher.Glob.{accepts, only_stars}

-- '*' stands for any run of bytes, '?' for one byte, and any other byte for itself.
pub data Matches (ci : Bool) : Bytes → Bytes → Type 0 where
  empty : Matches ci [] []
  byte :
      {x c : ℕ} {p v : Bytes}
      → x ≢ b'*'
      → accepts ci x c ≡ true
      → Matches ci p v
      → Matches ci (x ∷ p) (c ∷ v)
  skip : {x : ℕ} {p v : Bytes} → x ≡ b'*' → Matches ci p v → Matches ci (x ∷ p) v
  more : {x c : ℕ} {p v : Bytes} → x ≡ b'*' → Matches ci (x ∷ p) v → Matches ci (x ∷ p) (c ∷ v)

module _ {ci : Bool} where
  pub byte_inv :
      {x c : ℕ} {p v : Bytes}
      → x ≢ b'*'
      → Matches ci (x ∷ p) (c ∷ v)
      → (accepts ci x c ≡ true) × Matches ci p v
  byte_inv n (byte _ a m) = (a, m)
  byte_inv n (skip e m) = absurd (n e)
  byte_inv n (more e m) = absurd (n e)

  -- A star that must not stop here takes the byte.
  pub star_takes :
      {c : ℕ} {p v : Bytes}
      → Matches ci (b'*' ∷ p) (c ∷ v)
      → ¬ Matches ci p (c ∷ v)
      → Matches ci (b'*' ∷ p) v
  star_takes (byte n _ _) no_stop = absurd (n refl)
  star_takes (skip _ m) no_stop = absurd (no_stop m)
  star_takes (more _ m) no_stop = m

  -- Two stars in a row are one.
  pub star-star : {p v : Bytes} → Matches ci (b'*' ∷ b'*' ∷ p) v → Matches ci (b'*' ∷ p) v
  star-star (byte n _ _) = absurd (n refl)
  star-star (skip _ m) = m
  star-star (more e m) = more e (star-star m)

  pub star_at_end : {p : Bytes} → Matches ci (b'*' ∷ p) [] → Matches ci p []
  star_at_end (skip _ m) = m

  -- Wherever the byte pattern `x` is met behind a star, `p` follows after the first byte.
  pub star-byte :
      {x c : ℕ} {p : Bytes} (v : Bytes)
      → x ≢ b'*'
      → Matches ci (b'*' ∷ x ∷ p) (c ∷ v)
      → Matches ci (b'*' ∷ p) v
  star-byte v n (byte k _ _) = absurd (k refl)
  star-byte v n (skip _ m) = skip refl (byte_inv n m).1
  star-byte [] n (more _ m) = absurd (no_byte n (star_at_end m))
    where
      no_byte : {x : ℕ} {p : Bytes} → x ≢ b'*' → ¬ Matches ci (x ∷ p) []
      no_byte k (skip e _) = k e
  star-byte (c ∷ v) n (more e m) = more e (star-byte v n m)

only_stars→Matches : (ci : Bool) (p : Bytes) → only_stars p ≡ true → Matches ci p []
unfolding only_stars
only_stars→Matches ci [] h = empty
only_stars→Matches ci (x ∷ p) h = skip (ground arith) (only_stars→Matches ci p (ground arith))

Matches→only_stars : {ci : Bool} {p : Bytes} → Matches ci p [] → only_stars p ≡ true
unfolding only_stars
Matches→only_stars empty = refl
Matches→only_stars (skip e m) = ground (arith, Matches→only_stars m)

pub only_stars_iff : (ci : Bool) (p : Bytes) → (only_stars p ≡ true) ↔ Matches ci p []
only_stars_iff ci p = (only_stars→Matches ci p, Matches→only_stars)
