-- ===== src/Util.antt =====
-- The helpers of src/cacher_util.c: redirect chains, comparison and cookies.
pub mod Header
pub mod Cookies
pub mod Bypass
use apache_cacher.Prelude.{
  ℕ, Bool, true, false, ◌&&◌, not, List, [], ◌∷◌, Option, none, some, ◌==◌, if◌then◌else◌, Bytes,
  codes, str_eq, get_or,
}
use apache_cacher.Ctype.{to_lower}
use apache_cacher.Apr.{Strtok, Tables, Headers}
use apache_cacher.Apr.Tokens.{tokens}
use apache_cacher.Rules.{CacherRule}
use apache_cacher.Rules.Fields.{bypasses_cookie}
use apache_cacher.Request.{RequestRec, Request}

-- while (top->prev) top = top->prev;
unfoldable pub last_prev : RequestRec → List RequestRec → RequestRec
last_prev top [] = top
last_prev top (prev ∷ prevs) = last_prev prev prevs

unfoldable pub original_request : Request → RequestRec
unfolding last_prev
original_request q = last_prev q.r q.prevs

-- the loop of `cacher_streq_ci`, on strings that are there
unfoldable pub streq_loop : Bytes → Bytes → Bool
unfolding to_lower
streq_loop [] [] = true
streq_loop [] (y ∷ b) = false
streq_loop (x ∷ a) [] = false
streq_loop (x ∷ a) (y ∷ b) = to_lower x == to_lower y && streq_loop a b

unfoldable pub streq_ci : Option Bytes → Option Bytes → Bool
unfolding streq_loop
streq_ci none b = false
streq_ci (some a) none = false
streq_ci (some a) (some b) = streq_loop a b

-- while (*s == ' ') s++;
unfoldable pub skip_spaces : Bytes → Bytes
skip_spaces [] = []
skip_spaces (c ∷ s) = let rest = skip_spaces s in if c == b' ' then rest else c ∷ s

-- The text up to the first `b` (strchr) and the text behind it.
unfoldable pub split_at : ℕ → Bytes → Option (Bytes × Bytes)
split_at b [] = none
split_at b (c ∷ s) = elim (c == b) [
  | true ↦ some ([], s)
  | false ↦ elim (split_at b s) [ none ↦ none | some (before, after) ↦ some (c ∷ before, after) ]
]

-- the body of the loop: no pair where there is no '='
unfoldable pub cookie_pair : Bytes → Option (Bytes × Bytes)
unfolding skip_spaces split_at
cookie_pair tok = split_at b'=' (skip_spaces tok)

unfoldable pub pairs_of : List Bytes → List (Bytes × Bytes)
unfolding cookie_pair
pairs_of [] = []
pairs_of (tok ∷ toks) =
    let rest = pairs_of toks in elim (cookie_pair tok) [ none ↦ rest | some p ↦ p ∷ rest ]

-- `bypass_cb`
unfoldable pub bypass_cb : CacherRule → Bytes → Bool → Bool
bypass_cb rule name bypass =
    if not bypass && bypasses_cookie (some rule) (some name) then true else bypass

-- `lookup_cb`
unfoldable pub lookup_cb : Bytes → Bytes → Bytes → Option Bytes → Option Bytes
lookup_cb wanted name value (some v) = some v
lookup_cb wanted name value none = if str_eq name wanted then some value else none

-- One call of `cb` for each pair, threading the context.
abbrev pub call_each : {C : Type 0} → (Bytes → Bytes → C → C) → List (Bytes × Bytes) → C → C
call_each cb [] ctx = ctx
call_each cb ((name, value) ∷ ps) ctx = call_each cb ps (cb name value ctx)

module _ (tk : Strtok) (tb : Tables) where
  -- the pairs of a Cookie header, if there is one
  unfoldable pub header_pairs : Option Bytes → List (Bytes × Bytes)
  unfolding pairs_of
  header_pairs none = []
  header_pairs (some header) = pairs_of (tokens tk (codes ";") header)

  -- the pairs that `for_each_cookie` hands to its callback
  unfoldable pub cookies : Request → List (Bytes × Bytes)
  unfolding header_pairs
  cookies q = header_pairs (tb.table_get q.r.headers_in (codes "Cookie"))

  unfoldable pub for_each_cookie : {C : Type 0} → Request → (Bytes → Bytes → C → C) → C → C
  unfolding cookies
  for_each_cookie q cb ctx = call_each cb (cookies q) ctx

  unfoldable pub rule_bypassed : Option (List Bytes) → Request → CacherRule → Bool
  unfolding for_each_cookie bypass_cb
  rule_bypassed none q rule = false
  rule_bypassed (some _) q rule = for_each_cookie q (λ name value. bypass_cb rule name) false

  unfoldable pub request_bypasses : Request → Option CacherRule → Bool
  unfolding rule_bypassed
  request_bypasses q none = false
  request_bypasses q (some rule) = rule_bypassed rule.bypass_cookies q rule

  unfoldable pub get_cookie : Request → Bytes → Option Bytes
  unfolding for_each_cookie lookup_cb
  get_cookie q name = for_each_cookie q (lookup_cb name) none
