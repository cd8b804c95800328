-- ===== src/Cache/Meta/Text.antt =====
-- Texts made of lines: where the first blank line is, and their tokens.
use apache_cacher.Prelude.{
  ℕ, zero, suc, List, [], ◌∷◌, ◌++◌, append_assoc, append-nil, Option, some, Bytes, codes, All,
  Lacks, ◌≡◌, ◌≢◌, refl, sym, ◌∙◌, ap, arith,
}
use apache_cacher.Apr.{Strtok, NoSep}
use apache_cacher.Apr.Tokens.{tokens, tokens-first, tokens_end}
use apache_cacher.Config.RulesCache.{c_text}
use apache_cacher.Cache.Meta.{cons_before, find_blank_line}

-- A line that is not empty.
pub record IsLine (s : Bytes) : Type 0 where
  pub no_newline : Lacks b'\n' s
  pub filled : s ≢ []

-- Lines with a newline between them.
abbrev pub joined : Bytes → List Bytes → Bytes
joined line [] = line
joined line (next ∷ lines) = line ++ (b'\n' ∷ joined next lines)

abbrev before_all : Bytes → Option (Bytes × Bytes) → Option (Bytes × Bytes)
before_all [] o = o
before_all (c ∷ s) o = cons_before c (before_all s o)

find_blank_line-cons :
    (c : ℕ) (s : Bytes) → c ≢ b'\n' → find_blank_line (c ∷ s) ≡ cons_before c (find_blank_line s)
unfolding find_blank_line
find_blank_line-cons c [] h = refl
find_blank_line-cons c (d ∷ s) h = ground arith

find_blank_line-append :
    (s t : Bytes) → Lacks b'\n' s → find_blank_line (s ++ t) ≡ before_all s (find_blank_line t)
find_blank_line-append [] t h = refl
find_blank_line-append (c ∷ s) t h =
    find_blank_line-cons c (s ++ t) h.0 ∙ ap (cons_before c) (find_blank_line-append s t h.1)

find_blank_line_break :
    (c : ℕ) (s : Bytes)
    → c ≢ b'\n'
    → find_blank_line (b'\n' ∷ c ∷ s) ≡ cons_before b'\n' (find_blank_line (c ∷ s))
unfolding find_blank_line
find_blank_line_break c s h = ground arith

before_all-some :
    (s block after : Bytes) → before_all s (some (block, after)) ≡ some (s ++ block, after)
before_all-some [] block after = refl
before_all-some (c ∷ s) block after = ap (cons_before c) (before_all-some s block after)

break_then :
    (next : Bytes) (t block after : Bytes)
    → IsLine next
    → find_blank_line (next ++ t) ≡ some (block, after)
    → find_blank_line (b'\n' ∷ (next ++ t)) ≡ some (b'\n' ∷ block, after)
break_then [] t block after i e = absurd (i.filled refl)
break_then (c ∷ next) t block after i e =
    find_blank_line_break c (next ++ t) i.no_newline.0 ∙ ap (cons_before b'\n') e

find_blank_line_end : (s : Bytes) → find_blank_line (b'\n' ∷ b'\n' ∷ s) ≡ some ([], s)
unfolding find_blank_line
find_blank_line_end s = refl

-- The first blank line of a text of lines is the one behind the last line.
pub find_blank_line-joined :
    (line : Bytes) (lines : List Bytes) (after : Bytes)
    → IsLine line
    → All IsLine lines
    → find_blank_line (joined line lines ++ (b'\n' ∷ b'\n' ∷ after))
      ≡ some (joined line lines, after)
find_blank_line-joined line [] after i is =
    find_blank_line-append line (b'\n' ∷ b'\n' ∷ after) i.no_newline
    ∙ ap (before_all line) (find_blank_line_end after)
    ∙ before_all-some line [] after
    ∙ ap (λ s. some (s, after)) (append-nil line)
find_blank_line-joined line (next ∷ []) after i is =
    ap find_blank_line (append_assoc line (b'\n' ∷ next) (b'\n' ∷ b'\n' ∷ after))
    ∙ find_blank_line-append line _ i.no_newline
    ∙ ap (before_all line)
        (break_then next _ _ after is.0 (find_blank_line-joined next [] after is.0 is.1))
    ∙ before_all-some line _ after
find_blank_line-joined line (next ∷ third ∷ lines) after i is =
    let rest = find_blank_line-joined next (third ∷ lines) after is.0 is.1 in
    let spread = append_assoc next (b'\n' ∷ joined third lines) (b'\n' ∷ b'\n' ∷ after) in
    ap find_blank_line
      (append_assoc line (b'\n' ∷ joined next (third ∷ lines)) (b'\n' ∷ b'\n' ∷ after))
    ∙ find_blank_line-append line _ i.no_newline
    ∙ ap (λ t. before_all line (find_blank_line (b'\n' ∷ t))) spread
    ∙ ap (before_all line) (break_then next _ _ after is.0 (ap find_blank_line (sym spread) ∙ rest))
    ∙ before_all-some line _ after

Lacks→NoSep : (s : Bytes) → Lacks b'\n' s → NoSep (codes "\n") s
Lacks→NoSep [] h = tt
Lacks→NoSep (c ∷ s) h = (ground arith, Lacks→NoSep s h.1)

-- The tokens of a text of lines are its lines.
pub tokens-joined :
    (tk : Strtok) (line : Bytes) (lines : List Bytes)
    → IsLine line
    → All IsLine lines
    → tokens tk (codes "\n") (joined line lines) ≡ line ∷ lines
tokens-joined tk line [] i is =
    ap (tokens tk (codes "\n")) (sym (append-nil line))
    ∙ tokens-first tk (codes "\n") [] line [] tt (Lacks→NoSep line i.no_newline) i.filled tt
    ∙ ap (◌∷◌ line) (tokens_end tk (codes "\n") [] tt)
tokens-joined tk line (next ∷ lines) i is =
    tokens-first tk (codes "\n") [] line (b'\n' ∷ joined next lines) tt
      (Lacks→NoSep line i.no_newline) i.filled refl
    ∙ ap (◌∷◌ line) (tokens-joined tk next lines is.0 is.1)

-- A text that holds no zero byte is read whole.
pub c_text_id : (s : Bytes) → Lacks 0 s → c_text s ≡ s
unfolding c_text
c_text_id [] h = refl
c_text_id (zero ∷ s) h = absurd (h.0 refl)
c_text_id (suc c ∷ s) h = ap (◌∷◌ (suc c)) (c_text_id s h.1)
