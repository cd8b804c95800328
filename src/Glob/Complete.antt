-- ===== src/Glob/Complete.antt =====
-- `cacher_glob_match` of src/cacher_rules.c, on values without '*'.
use apache_cacher.Prelude.{
  ℕ, zero, suc, Bool, true, false, [], ◌∷◌, ◌≡◌, ◌≢◌, ◌↔◌, ◌==◌, ==_iff, Bytes, none, some, refl,
  subst, arith, Bool-cases, inl, inr, Lacks,
}
use apache_cacher.Ctype.{to_lower}
use apache_cacher.Glob.{Back, Round, accepts, retry, glob_loop, glob, glob_fuel}
use apache_cacher.Glob.Matches.{
  Matches, skip, byte_inv, star_takes, star-star, star_at_end, star-byte, only_stars_iff,
}
use apache_cacher.Glob.Sound.{glob_sound}
use apache_cacher.Glob.Total.{glob_total}

-- A star in the pattern accepts, as a byte, only a star in the value.
accepts_star : (ci : Bool) (x c : ℕ) → c ≢ b'*' → accepts ci x c ≡ true → x ≢ b'*'
unfolding accepts to_lower
accepts_star true x c n a = ground arith
accepts_star false x c n a = ground arith

module _ (G : Type 0) (ci : Bool) where
  abbrev Saved : Bytes → Bytes → Back → Type 0
  Saved p v none = G → Matches ci p v
  Saved p v (some (sp, sv)) =
      (G → Matches ci (b'*' ∷ sp) sv) × (Matches ci sp sv → Matches ci p v) × Lacks b'*' sv

  record Keeps (p v : Bytes) (back : Back) : Type 0 where
    later : G → Matches ci (b'*' ∷ p) v
    saved : Saved p v back
    no_star : Lacks b'*' v

  abbrev Refutes : Round → Type 0
  Refutes next = (p v : Bytes) (back : Back) → Keeps p v back → next p v back ≡ some false → ¬ G

  Keeps-start :
      (p v : Bytes) → (G → Matches ci (b'*' ∷ p) v) → Lacks b'*' v → Keeps p v (some (p, v))
  Keeps-start p v g l = record { later = g; saved = (g, λ m. m, l); no_star = l }

  Saved-byte :
      (x c : ℕ) (p v : Bytes) (back : Back) → x ≢ b'*' → Saved (x ∷ p) (c ∷ v) back → Saved p v back
  Saved-byte x c p v none n s = λ g. (byte_inv n (s g)).1
  Saved-byte x c p v (some (sp, sv)) n (g, down, l) = (g, λ m. (byte_inv n (down m)).1, l)

  retry-Refutes :
      (p v : Bytes) (back : Back) (next : Round)
      → Refutes next
      → Keeps p v back
      → ¬ Matches ci p v
      → retry back next ≡ some false
      → ¬ G
  unfolding retry
  retry-Refutes p v none next ih i none_here h = λ g. none_here (i.saved g)
  retry-Refutes p v (some (sp, [])) next ih i none_here h = absurd (cc)
  retry-Refutes p v (some (sp, c ∷ sv)) next ih i none_here h =
      let (g, down, l) = i.saved in
      ih sp sv (some (sp, sv))
        (Keeps-start sp sv (λ q. star_takes (g q) (λ m. none_here (down m))) l.1) h

  loop-Refutes : (f : ℕ) → Refutes (glob_loop f ci)
  unfolding glob_loop
  loop-Refutes zero p v back i h = absurd (cc)
  loop-Refutes (suc f) [] [] back i h = λ g. cc ((only_stars_iff ci []).1 (star_at_end (i.later g)))
  loop-Refutes (suc f) (x ∷ p) [] back i h =
      λ g. cc ((only_stars_iff ci (x ∷ p)).1 (star_at_end (i.later g)))
  loop-Refutes (suc f) [] (c ∷ v) back i h =
      retry-Refutes [] (c ∷ v) back _ (loop-Refutes f) i (λ m. elim m [ ]) h
  loop-Refutes (suc f) (x ∷ p) (c ∷ v) back i h = elim (Bool-cases (accepts ci x c)) [
    | inl a ↦
        let n = accepts_star ci x c i.no_star.0 a in
        loop-Refutes f p v back
          (record {
            later = λ g. star-byte v n (i.later g);
            saved = Saved-byte x c p v back n i.saved;
            no_star = i.no_star.1;
          })
          (rw a at h)
    | inr r ↦ elim (Bool-cases (x == b'*')) [
      | inl s ↦
          let at_star = (==_iff x b'*').0 s in
          loop-Refutes f p (c ∷ v) (some (p, c ∷ v))
            (Keeps-start p (c ∷ v)
              (λ g. star-star (subst (λ y. Matches ci (b'*' ∷ y ∷ p) (c ∷ v)) at_star (i.later g)))
              i.no_star)
            (rw s at (rw r at h))
      | inr o ↦
          retry-Refutes (x ∷ p) (c ∷ v) back _ (loop-Refutes f) i
            (λ m. cc ((byte_inv (ground arith) m).0)) (rw o at (rw r at h))
    ]
  ]

glob_complete : (p v : Bytes) (ci : Bool) → Lacks b'*' v → Matches ci p v → glob p v ci ≡ true
glob_complete p v ci l m = elim (Bool-cases (glob p v ci)) [
  | inl t ↦ t
  | inr r ↦ absurd (
      loop-Refutes (Matches ci p v) ci (glob_fuel p v) p v none
        (record { later = λ g. skip refl g; saved = λ g. g; no_star = l })
        (rw r at (glob_total p v ci)) m)
]

-- On a value without '*' the match succeeds exactly when the pattern matches the value.
pub glob_iff : (p v : Bytes) (ci : Bool) → Lacks b'*' v → (glob p v ci ≡ true) ↔ Matches ci p v
glob_iff p v ci l = (glob_sound p v ci, glob_complete p v ci l)
