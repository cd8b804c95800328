-- ===== src/Config/Quotes.antt =====
-- The CacherRules directive of src/cacher_config.c, on a quoted text.
use apache_cacher.Prelude.{ℕ, true, false, [], ◌∷◌, ◌++◌, some, Bytes, All, ◌≡◌, ◌⊎◌, refl, arith}
use apache_cacher.Config.{
  CacherDirConf, is_blank, skip_blanks, keep_unless_blank, trim_end, init_last, unquote, set_rules,
}

abbrev pub Blanks : Bytes → Type 0
Blanks = All (λ c. is_blank c ≡ true)

abbrev pub IsQuote : ℕ → Type 0
IsQuote q = (q ≡ b'\'') ⊎ (q ≡ b'"')

skip_blanks-append :
    (bs s : Bytes) (c : ℕ) → Blanks bs → is_blank c ≡ false → skip_blanks (bs ++ c ∷ s) ≡ c ∷ s
unfolding skip_blanks
skip_blanks-append [] s c h k = rw k
skip_blanks-append (b ∷ bs) s c h k = rw h.0 (skip_blanks-append bs s c h.1 k)

trim_end-Blanks : (bs : Bytes) → Blanks bs → trim_end bs ≡ []
unfolding trim_end
trim_end-Blanks [] h = refl
trim_end-Blanks (b ∷ bs) h = rw (trim_end-Blanks bs h.1, h.0)

keep-append : (c d : ℕ) (s : Bytes) → keep_unless_blank c (s ++ d ∷ []) ≡ c ∷ (s ++ d ∷ [])
keep-append c d [] = refl
keep-append c d (x ∷ s) = refl

trim_end-append :
    (s bs : Bytes) (d : ℕ) → is_blank d ≡ false → Blanks bs → trim_end (s ++ d ∷ bs) ≡ s ++ d ∷ []
unfolding trim_end
trim_end-append [] bs d k h = rw (trim_end-Blanks bs h, k)
trim_end-append (c ∷ s) bs d k h = rw (trim_end-append s bs d k h) (keep-append c d s)

init_last-append : (c q : ℕ) (s : Bytes) → init_last c (s ++ q ∷ []) ≡ (c ∷ s, q)
init_last-append c q [] = refl
init_last-append c q (d ∷ s) = rw (init_last-append d q s)

unquote-quoted : (q : ℕ) (s : Bytes) → IsQuote q → unquote (q ∷ (s ++ q ∷ [])) ≡ s
unfolding unquote
unquote-quoted q [] h = ground arith
unquote-quoted q (c ∷ s) h = rw (init_last-append c q s) (ground arith)

quote_not_blank : (q : ℕ) → IsQuote q → is_blank q ≡ false
quote_not_blank q h = ground arith

-- A quoted text between blanks is stored without the quotes, whatever stands inside them, and
-- nothing else of the configuration changes.
pub set_rules-quoted :
    (conf : CacherDirConf) (before after s : Bytes) (q : ℕ)
    → Blanks before
    → Blanks after
    → IsQuote q
    → set_rules conf (before ++ q ∷ (s ++ q ∷ after)) ≡ record conf { rules_json = some s }
unfolding set_rules
set_rules-quoted conf before after s q b a h =
    let no_blank = quote_not_blank q h in
    rw (
      skip_blanks-append before (s ++ q ∷ after) q b no_blank,
      trim_end-append (q ∷ s) after q no_blank a,
      unquote-quoted q s h,
    )
