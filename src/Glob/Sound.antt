-- ===== src/Glob/Sound.antt =====
-- `cacher_glob_match` of src/cacher_rules.c: what a positive answer means.
use apache_cacher.Prelude.{
  ℕ, zero, suc, Bool, true, [], ◌∷◌, ◌≡◌, ◌==◌, ==_iff, Bytes, none, some, refl, sym, subst, arith,
  Bool-cases, inl, inr, ℕ_discrete,
}
use apache_cacher.Glob.{Back, Round, accepts, retry, glob_loop, glob, glob_fuel}
use apache_cacher.Glob.Matches.{Matches, empty, byte, skip, more, only_stars_iff}

accepts→Matches :
    {ci : Bool} (x c : ℕ) {p v : Bytes}
    → accepts ci x c ≡ true
    → Matches ci p v
    → Matches ci (x ∷ p) (c ∷ v)
accepts→Matches x c a m = elim (ℕ_discrete x b'*') [ yes e ↦ more e (skip e m) | no n ↦ byte n a m ]

-- `G` is the question that the run began with.
module _ (G : Type 0) (ci : Bool) where
  abbrev BackSound : Back → Type 0
  BackSound none = Unit
  BackSound (some (sp, sv)) = Matches ci (b'*' ∷ sp) sv → G

  abbrev NextSound : Round → Type 0
  NextSound next =
      (p v : Bytes) (back : Back)
      → (Matches ci p v → G)
      → BackSound back
      → next p v back ≡ some true
      → G

  retry_sound :
      (back : Back) (next : Round)
      → NextSound next
      → BackSound back
      → retry back next ≡ some true
      → G
  unfolding retry
  retry_sound none next ih b h = absurd (cc)
  retry_sound (some (sp, [])) next ih b h = absurd (cc)
  retry_sound (some (sp, c ∷ sv)) next ih b h =
      ih sp sv (some (sp, sv)) (λ m. b (more refl (skip refl m))) (λ m. b (more refl m)) h

  loop_sound : (f : ℕ) → NextSound (glob_loop f ci)
  unfolding glob_loop
  loop_sound zero p v back now b h = absurd (cc)
  loop_sound (suc f) [] [] back now b h = now empty
  loop_sound (suc f) (x ∷ p) [] back now b h = now ((only_stars_iff ci (x ∷ p)).0 (ground arith))
  loop_sound (suc f) [] (c ∷ v) back now b h = retry_sound back _ (loop_sound f) b h
  loop_sound (suc f) (x ∷ p) (c ∷ v) back now b h = elim (Bool-cases (accepts ci x c)) [
    | inl a ↦ loop_sound f p v back (λ m. now (accepts→Matches x c a m)) b (rw a at h)
    | inr r ↦ elim (Bool-cases (x == b'*')) [
      | inl s ↦
          let at_star = (==_iff x b'*').0 s in
          loop_sound f p (c ∷ v) (some (p, c ∷ v)) (λ m. now (skip at_star m))
            (λ m. now (subst (λ y. Matches ci (y ∷ p) (c ∷ v)) (sym at_star) m))
            (rw s at (rw r at h))
      | inr o ↦ retry_sound back _ (loop_sound f) b (rw o at (rw r at h))
    ]
  ]

-- If the match succeeds, the pattern matches the value, whatever the value holds.
pub glob_sound : (p v : Bytes) (ci : Bool) → glob p v ci ≡ true → Matches ci p v
unfolding glob
glob_sound p v ci h =
    loop_sound (Matches ci p v) ci (glob_fuel p v) p v none (λ m. m) tt (ground arith)
