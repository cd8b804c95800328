-- ===== src/Apr/Tokens.antt =====
-- The loop `for (t = apr_strtok(s, sep, &last); t; t = apr_strtok(NULL, sep, &last))`, and its
-- laws. Each round leaves a shorter text, so the text's length bounds the rounds.
use apache_cacher.Prelude.{
  ℕ, zero, suc, ◌+◌, ◌≤◌, ◌<◌, ◌≡◌, ◌≢◌, true, List, [], ◌∷◌, ◌++◌, none, some, Bytes, drop, length,
  length-append, refl, sym, ap, arith, ◌∙◌, Bool-cases, inl, inr,
}
use apache_cacher.Apr.{Strtok, is_sep, AllSep, NoSep, EndsToken}

module _ (t : Strtok) where
  unfoldable pub token_loop : ℕ → Bytes → Bytes → List Bytes
  token_loop zero sep s = []
  token_loop (suc f) sep s = elim (t.strtok sep s) [
    | none ↦ []
    | some (tok, rest) ↦ tok ∷ token_loop f sep rest
  ]

  unfoldable pub tokens : Bytes → Bytes → List Bytes
  unfolding token_loop
  tokens sep s = token_loop (length s + 1) sep s

-- Every text is separators only, or has a first token.
pub data Split (sep : Bytes) (s : Bytes) : Type 0 where
  no_token : AllSep sep s → Split sep s
  first :
      (skip tok rest : Bytes)
      → s ≡ skip ++ (tok ++ rest)
      → AllSep sep skip
      → NoSep sep tok
      → tok ≢ []
      → EndsToken sep rest
      → Split sep s

-- The longest run of bytes that are no separators.
record Run (sep : Bytes) (s : Bytes) : Type 0 where
  tok : Bytes
  rest : Bytes
  splits : s ≡ tok ++ rest
  no_sep : NoSep sep tok
  ends : EndsToken sep rest

run : (sep s : Bytes) → Run sep s
run sep [] = record { tok = []; rest = []; splits = refl; no_sep = tt; ends = tt }
run sep (c ∷ s) = elim (Bool-cases (is_sep sep c)) [
  | inl e ↦ record { tok = []; rest = c ∷ s; splits = refl; no_sep = tt; ends = e }
  | inr e ↦
      let r = run sep s in
      record {
        tok = c ∷ r.tok;
        rest = r.rest;
        splits = ap (◌∷◌ c) r.splits;
        no_sep = (e, r.no_sep);
        ends = r.ends;
      }
]

Split-cons :
    (sep : Bytes) (c : ℕ) (s : Bytes) → is_sep sep c ≡ true → Split sep s → Split sep (c ∷ s)
Split-cons sep c s e (no_token h) = no_token (e, h)
Split-cons sep c s e (first skip tok rest q h n k d) =
    first (c ∷ skip) tok rest (ap (◌∷◌ c) q) (e, h) n k d

split : (sep s : Bytes) → Split sep s
split sep [] = no_token tt
split sep (c ∷ s) = elim (Bool-cases (is_sep sep c)) [
  | inl e ↦ Split-cons sep c s e (split sep s)
  | inr e ↦
      let r = run sep s in
      first [] (c ∷ r.tok) r.rest (ap (◌∷◌ c) r.splits) tt (e, r.no_sep) (λ q. cc) r.ends
]

length-drop_one : (s : Bytes) → length (drop 1 s) ≤ length s
length-drop_one [] = omega arith
length-drop_one (c ∷ s) = omega arith

module _ (t : Strtok) (sep : Bytes) where
  -- One round on a text whose first token is known.
  pub token_loop-first :
      (f : ℕ) (skip tok rest : Bytes)
      → AllSep sep skip
      → NoSep sep tok
      → tok ≢ []
      → EndsToken sep rest
      → token_loop t (suc f) sep (skip ++ (tok ++ rest)) ≡ tok ∷ token_loop t f sep (drop 1 rest)
  unfolding token_loop
  token_loop-first f skip tok rest h n k e =
      rw (t.strtok_token sep skip tok rest h n k e, token_loop)

  pub token_loop_end : (f : ℕ) (s : Bytes) → AllSep sep s → token_loop t f sep s ≡ []
  unfolding token_loop
  token_loop_end zero s h = refl
  token_loop_end (suc f) s h = rw (t.strtok_end sep s h, token_loop)

  shorter :
      (skip tok rest : Bytes) → tok ≢ [] → length (drop 1 rest) < length (skip ++ (tok ++ rest))
  shorter skip [] rest k = absurd (k refl)
  shorter skip (c ∷ tok) rest k = omega (
    arith,
    length-append {0} skip ((c ∷ tok) ++ rest),
    length-append {0} tok rest,
    length-drop_one rest,
  )

  round_total :
      (f g : ℕ) (s : Bytes)
      → ((rest : Bytes)
          → length rest < length s
          → token_loop t f sep rest ≡ token_loop t g sep rest)
      → Split sep s
      → token_loop t (suc f) sep s ≡ token_loop t (suc g) sep s
  round_total f g s ih (no_token a) = token_loop_end (suc f) s a ∙ sym (token_loop_end (suc g) s a)
  round_total f g s ih (first skip tok rest q a b c d) =
      let fewer = shorter skip tok rest c in
      let size = ap length q in
      rw q (
        token_loop-first f skip tok rest a b c d
        ∙ ap (◌∷◌ tok) (ih (drop 1 rest) (omega arith))
        ∙ sym (token_loop-first g skip tok rest a b c d))

  -- More rounds than bytes give the same tokens.
  loop_total :
      (n f g : ℕ) (s : Bytes)
      → length s < n
      → length s < f
      → length s < g
      → token_loop t f sep s ≡ token_loop t g sep s
  loop_total zero f g s h k l = absurd (omega arith)
  loop_total (suc n) zero g s h k l = absurd (omega arith)
  loop_total (suc n) (suc f) zero s h k l = absurd (omega arith)
  loop_total (suc n) (suc f) (suc g) s h k l =
      round_total f g s (λ rest m. loop_total n f g rest (omega arith) (omega arith) (omega arith))
        (split sep s)

  -- The loop ends by itself: any fuel above the text's length gives the same tokens.
  pub tokens_total : (f : ℕ) (s : Bytes) → length s < f → token_loop t f sep s ≡ tokens t sep s
  unfolding tokens
  tokens_total f s h = loop_total (length s + 1) f (length s + 1) s (omega arith) h (omega arith)

  -- What `apr_strtok` splits off first.
  pub tokens-first :
      (skip tok rest : Bytes)
      → AllSep sep skip
      → NoSep sep tok
      → tok ≢ []
      → EndsToken sep rest
      → tokens t sep (skip ++ (tok ++ rest)) ≡ tok ∷ tokens t sep (drop 1 rest)
  tokens-first skip tok rest h n k e =
      let s = skip ++ (tok ++ rest) in
      sym (tokens_total (suc (length s)) s (omega arith))
      ∙ token_loop-first (length s) skip tok rest h n k e
      ∙ ap (◌∷◌ tok) (tokens_total (length s) (drop 1 rest) (shorter skip tok rest k))

  pub tokens_end : (s : Bytes) → AllSep sep s → tokens t sep s ≡ []
  unfolding tokens
  tokens_end s h = token_loop_end (length s + 1) s h
