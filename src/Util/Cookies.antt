-- ===== src/Util/Cookies.antt =====
-- The cookie loop of src/cacher_util.c on a Cookie header.
use apache_cacher.Prelude.{
  ℕ, List, [], ◌∷◌, ◌++◌, some, Bytes, codes, All, Lacks, All-append, drop, ◌≡◌, ◌≢◌, refl, ap,
  arith,
}
use apache_cacher.Apr.{Strtok, Tables, NoSep, EndsToken}
use apache_cacher.Apr.Tokens.{tokens, tokens-first, tokens_end}
use apache_cacher.Util.{skip_spaces, split_at, cookie_pair, pairs_of, header_pairs}

abbrev pub Cookie : Type 0
Cookie = Bytes × Bytes

-- What a browser may send: no separator in name or value, no space before the name.
pub record IsCookie (c : Cookie) : Type 0 where
  pub name_no_semicolon : Lacks b';' c.0
  pub name_no_equals : Lacks b'=' c.0
  pub name_no_space : Lacks b' ' c.0
  pub value_no_semicolon : Lacks b';' c.1

-- "n1=v1; n2=v2", with a separator in front of each pair but the first
abbrev pub pair_text : Cookie → Bytes
pair_text c = c.0 ++ (b'=' ∷ c.1)

abbrev pub more_text : List Cookie → Bytes
more_text [] = []
more_text (c ∷ cs) = b';' ∷ b' ' ∷ (pair_text c ++ more_text cs)

abbrev pub cookie_text : List Cookie → Bytes
cookie_text [] = []
cookie_text (c ∷ cs) = pair_text c ++ more_text cs

pub split_at-append : (b : ℕ) (s t : Bytes) → Lacks b s → split_at b (s ++ b ∷ t) ≡ some (s, t)
unfolding split_at
split_at-append b [] t h = ground arith
split_at-append b (c ∷ s) t h = ground (arith, split_at-append b s t h.1)

skip_spaces-append : (s t : Bytes) → Lacks b' ' s → skip_spaces (s ++ b'=' ∷ t) ≡ s ++ b'=' ∷ t
unfolding skip_spaces
skip_spaces-append [] t h = refl
skip_spaces-append (c ∷ s) t h = ground arith

cookie_pair_first : (c : Cookie) → IsCookie c → cookie_pair (pair_text c) ≡ some c
unfolding cookie_pair
cookie_pair_first (n, v) i =
    rw (skip_spaces-append n v i.name_no_space) (split_at-append b'=' n v i.name_no_equals)

cookie_pair_next : (c : Cookie) → IsCookie c → cookie_pair (b' ' ∷ pair_text c) ≡ some c
unfolding cookie_pair skip_spaces
cookie_pair_next c i = cookie_pair_first c i

pairs_of-cons :
    (tok : Bytes) (toks : List Bytes) (c : Cookie)
    → cookie_pair tok ≡ some c
    → pairs_of (tok ∷ toks) ≡ c ∷ pairs_of toks
unfolding pairs_of
pairs_of-cons tok toks c e = rw (e, pairs_of)

Lacks→NoSep : (s : Bytes) → Lacks b';' s → NoSep (codes ";") s
Lacks→NoSep [] h = tt
Lacks→NoSep (c ∷ s) h = (ground arith, Lacks→NoSep s h.1)

pair_text-NoSep : (c : Cookie) → IsCookie c → NoSep (codes ";") (pair_text c)
pair_text-NoSep (n, v) i =
    All-append _ n (b'=' ∷ v) (Lacks→NoSep n i.name_no_semicolon)
      (refl, Lacks→NoSep v i.value_no_semicolon)

pair_text-ne-nil : (c : Cookie) → pair_text c ≢ []
pair_text-ne-nil ([], v) e = cc
pair_text-ne-nil (x ∷ n, v) e = cc

more_text-EndsToken : (cs : List Cookie) → EndsToken (codes ";") (more_text cs)
more_text-EndsToken [] = tt
more_text-EndsToken (c ∷ cs) = refl

module _ (tk : Strtok) where
  pairs_next :
      (cs : List Cookie)
      → All IsCookie cs
      → pairs_of (tokens tk (codes ";") (drop 1 (more_text cs))) ≡ cs
  pairs_next [] h = rw (tokens_end tk (codes ";") [] tt) (unfold pairs_of in refl)
  pairs_next (c ∷ cs) h =
      rw
        (
          tokens-first tk (codes ";") [] (b' ' ∷ pair_text c) (more_text cs) tt
              (refl, pair_text-NoSep c h.0) (λ e. cc) (more_text-EndsToken cs),
          pairs_of-cons (b' ' ∷ pair_text c) _ c (cookie_pair_next c h.0),
        )
        (ap (◌∷◌ c) (pairs_next cs h.1))

  -- The loop reads back every list of cookies from the header that a client writes for it.
  pub header_pairs-cookie_text :
      (tb : Tables) (cs : List Cookie)
      → All IsCookie cs
      → header_pairs tk tb (some (cookie_text cs)) ≡ cs
  unfolding header_pairs
  header_pairs-cookie_text tb [] h = rw (tokens_end tk (codes ";") [] tt) (unfold pairs_of in refl)
  header_pairs-cookie_text tb (c ∷ cs) h =
      rw
        (
          tokens-first tk (codes ";") [] (pair_text c) (more_text cs) tt (pair_text-NoSep c h.0)
              (pair_text-ne-nil c) (more_text-EndsToken cs),
          pairs_of-cons (pair_text c) _ c (cookie_pair_first c h.0),
        )
        (ap (◌∷◌ c) (pairs_next cs h.1))
