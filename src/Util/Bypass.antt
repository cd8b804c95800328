-- ===== src/Util/Bypass.antt =====
-- The two callbacks of the cookie loop of src/cacher_util.c.
use apache_cacher.Prelude.{
  Bool, true, false, List, [], ◌∷◌, Option, none, some, Bytes, codes, Any, All, Lacks, str_eq, any,
  if◌then◌else◌, ◌≡◌, ◌↔◌, inl, inr, refl, Bool-cases, subst, sym,
}
use apache_cacher.Apr.{Strtok, Tables}
use apache_cacher.Request.{Request}
use apache_cacher.Rules.{CacherRule}
use apache_cacher.Rules.Allowed.{AnyGlob, bypasses_cookie_iff}
use apache_cacher.Rules.First.{any_iff}
use apache_cacher.Rules.Fields.{bypasses_cookie}
use apache_cacher.Util.{
  bypass_cb, lookup_cb, call_each, cookies, for_each_cookie, rule_bypassed, request_bypasses,
  get_cookie,
}
use apache_cacher.Util.Cookies.{Cookie, IsCookie, cookie_text, header_pairs-cookie_text}

-- The value of the first pair of that name.
abbrev pub first_value : Bytes → List Cookie → Option Bytes
first_value name [] = none
first_value name ((n, v) ∷ cs) = if str_eq n name then some v else first_value name cs

-- A cookie whose name a glob of the rule matches, byte by byte.
abbrev pub Bypassed : CacherRule → Cookie → Type 0
Bypassed rule (n, v) = AnyGlob false n rule.bypass_cookies

abbrev NameLacks : Cookie → Type 0
NameLacks (n, v) = Lacks b'*' n

abbrev by_rule : CacherRule → Cookie → Bool
by_rule rule (n, v) = bypasses_cookie (some rule) (some n)

call_each-bypass_cb_done :
    (rule : CacherRule) (cs : List Cookie) → call_each (λ n v. bypass_cb rule n) cs true ≡ true
unfolding bypass_cb
call_each-bypass_cb_done rule [] = refl
call_each-bypass_cb_done rule ((n, v) ∷ cs) = call_each-bypass_cb_done rule cs

call_each-bypass_cb :
    (rule : CacherRule) (cs : List Cookie)
    → call_each (λ n v. bypass_cb rule n) cs false ≡ any (by_rule rule) cs
unfolding bypass_cb
call_each-bypass_cb rule [] = refl
call_each-bypass_cb rule ((n, v) ∷ cs) = elim (Bool-cases (bypasses_cookie (some rule) (some n))) [
  | inl e ↦ rw e (call_each-bypass_cb_done rule cs)
  | inr e ↦ rw e (call_each-bypass_cb rule cs)
]

no_globs :
    (rule : CacherRule) (cs : List Cookie) → rule.bypass_cookies ≡ none → ¬ Any (Bypassed rule) cs
no_globs rule [] e h = h
no_globs rule ((n, v) ∷ cs) e (inl h) = rw e at h
no_globs rule ((n, v) ∷ cs) e (inr h) = no_globs rule cs e h

call_each-lookup_cb_done :
    (name v : Bytes) (cs : List Cookie) → call_each (lookup_cb name) cs (some v) ≡ some v
unfolding lookup_cb
call_each-lookup_cb_done name v [] = refl
call_each-lookup_cb_done name v ((n, w) ∷ cs) = call_each-lookup_cb_done name v cs

call_each-lookup_cb :
    (name : Bytes) (cs : List Cookie) → call_each (lookup_cb name) cs none ≡ first_value name cs
unfolding lookup_cb
call_each-lookup_cb name [] = refl
call_each-lookup_cb name ((n, v) ∷ cs) = elim (Bool-cases (str_eq n name)) [
  | inl e ↦ rw e (call_each-lookup_cb_done name v cs)
  | inr e ↦ rw e (call_each-lookup_cb name cs)
]

module _ (tk : Strtok) (tb : Tables) where
  rule_bypassed_iff :
      (globs : Option (List Bytes)) (q : Request) (rule : CacherRule)
      → rule.bypass_cookies ≡ globs
      → All NameLacks (cookies tk tb q)
      → (rule_bypassed tk tb globs q rule ≡ true) ↔ Any (Bypassed rule) (cookies tk tb q)
  unfolding rule_bypassed for_each_cookie
  rule_bypassed_iff none q rule e h = (λ t. cc, λ a. absurd (no_globs rule _ e a))
  rule_bypassed_iff (some gs) q rule e h = rw (call_each-bypass_cb rule (cookies tk tb q)) (
      any_iff (by_rule rule) (Bypassed rule) NameLacks (λ c k. bypasses_cookie_iff rule c.0 k)
        (cookies tk tb q) h)

  cookies-cookie_text :
      (q : Request) (cs : List Cookie)
      → tb.table_get q.r.headers_in (codes "Cookie") ≡ some (cookie_text cs)
      → All IsCookie cs
      → cookies tk tb q ≡ cs
  unfolding cookies
  cookies-cookie_text q cs e h = rw e (header_pairs-cookie_text tk tb cs h)

  -- From a Cookie header that holds a list of cookies, none with a '*' in its name, the request
  -- bypasses a rule exactly when a glob of the rule matches the name of one of them, letter case
  -- included: a name that differs from a glob in case alone does not count.
  pub request_bypasses_iff :
      (q : Request) (rule : CacherRule) (cs : List Cookie)
      → tb.table_get q.r.headers_in (codes "Cookie") ≡ some (cookie_text cs)
      → All IsCookie cs
      → All NameLacks cs
      → (request_bypasses tk tb q (some rule) ≡ true) ↔ Any (Bypassed rule) cs
  unfolding request_bypasses
  request_bypasses_iff q rule cs e i h =
      let same = cookies-cookie_text q cs e i in
      subst (λ xs. (rule_bypassed tk tb rule.bypass_cookies q rule ≡ true) ↔ Any (Bypassed rule) xs)
        same
        (rule_bypassed_iff rule.bypass_cookies q rule refl
          (subst (λ xs. All NameLacks xs) (sym same) h))

  -- From a Cookie header that holds a list of cookies, the lookup returns the value of the first
  -- cookie of the name asked for, and null if there is none.
  pub get_cookie-cookie_text :
      (q : Request) (cs : List Cookie) (name : Bytes)
      → tb.table_get q.r.headers_in (codes "Cookie") ≡ some (cookie_text cs)
      → All IsCookie cs
      → get_cookie tk tb q name ≡ first_value name cs
  unfolding get_cookie cookies
  get_cookie-cookie_text q cs name e h =
      rw (e, header_pairs-cookie_text tk tb cs h) (call_each-lookup_cb name cs)
