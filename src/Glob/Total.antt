-- ===== src/Glob/Total.antt =====
-- `cacher_glob_match` of src/cacher_rules.c: the rounds of its loop.
use apache_cacher.Prelude.{
  ℕ, zero, suc, ◌+◌, ◌*◌, ◌≤◌, ◌<◌, Bool, [], ◌∷◌, ◌≡◌, ◌≢◌, ◌==◌, Bytes, none, some, length, arith,
  Bool-cases, inl, inr,
}
use apache_cacher.Glob.{Back, Round, accepts, retry, glob_loop, glob, glob_fuel}

-- `k` is above the length of every pattern in play and `m` bounds the text that is left to retry.
module _ (k : ℕ) where
  abbrev BackFits : ℕ → Bytes → Back → Type 0
  BackFits m v none = Unit
  BackFits m v (some (sp, sv)) = (length sp < k) × (length v ≤ length sv) × (length sv ≤ m)

  record Fits (f m : ℕ) (p v : Bytes) (back : Back) : Type 0 where
    pattern_fits : length p < k
    value_fits : length v ≤ m
    back_fits : BackFits m v back
    fuel : m * k + length p < f

  abbrev Ends : ℕ → Round → Type 0
  Ends f next = (m : ℕ) (p v : Bytes) (back : Back) → Fits f m p v back → next p v back ≢ none

  retry-Ends :
      (f m c : ℕ) (p v : Bytes) (back : Back) (next : Round)
      → Ends f next
      → Fits (suc f) m p (c ∷ v) back
      → retry back next ≢ none
  unfolding retry
  retry-Ends f m c p v none next ih i = λ e. cc
  retry-Ends f m c p v (some (sp, [])) next ih i = absurd (omega arith)
  retry-Ends f zero c p v (some (sp, d ∷ sv)) next ih i = absurd (omega arith)
  retry-Ends f (suc m) c p v (some (sp, d ∷ sv)) next ih i = ih m sp sv (some (sp, sv)) (record {
    pattern_fits = omega arith;
    value_fits = omega arith;
    back_fits = omega arith;
    fuel = omega arith;
  })

  BackFits-tail : (m c : ℕ) (v : Bytes) (back : Back) → BackFits m (c ∷ v) back → BackFits m v back
  BackFits-tail m c v none h = tt
  BackFits-tail m c v (some (sp, sv)) h = omega arith

  loop-Ends : (f : ℕ) (ci : Bool) → Ends f (glob_loop f ci)
  unfolding glob_loop
  loop-Ends zero ci m p v back i = absurd (omega arith)
  loop-Ends (suc f) ci m [] [] back i = λ e. cc
  loop-Ends (suc f) ci m (x ∷ p) [] back i = λ e. cc
  loop-Ends (suc f) ci m [] (c ∷ v) back i =
      retry-Ends f m c [] v back (glob_loop f ci) (loop-Ends f ci) i
  loop-Ends (suc f) ci m (x ∷ p) (c ∷ v) back i = elim (Bool-cases (accepts ci x c)) [
    | inl a ↦ rw a (
        loop-Ends f ci m p v back (record {
          pattern_fits = omega arith;
          value_fits = omega arith;
          back_fits = BackFits-tail m c v back i.back_fits;
          fuel = omega arith;
        }))
    | inr r ↦ elim (Bool-cases (x == b'*')) [
      | inl s ↦
          rw (r, s)
            (loop-Ends f ci m p (c ∷ v) (some (p, c ∷ v)) (record {
              pattern_fits = omega arith;
              value_fits = i.value_fits;
              back_fits = (omega arith, omega arith, i.value_fits);
              fuel = omega arith;
            }))
      | inr o ↦ rw (r, o) (retry-Ends f m c (x ∷ p) v back (glob_loop f ci) (loop-Ends f ci) i)
    ]
  ]

-- On `glob_fuel` rounds the loop returns the answer of `glob`: it neither runs out of fuel nor
-- reads past the end of the value.
pub glob_total :
    (p v : Bytes) (ci : Bool) → glob_loop (glob_fuel p v) ci p v none ≡ some (glob p v ci)
unfolding glob
glob_total p v ci = ground (
  arith,
  loop-Ends (length p + 2) (glob_fuel p v) ci (length v) p v none (record {
    pattern_fits = omega arith;
    value_fits = omega arith;
    back_fits = tt;
    fuel = ground arith;
  }),
)
