-- ===== src/Rules/Allowed.antt =====
-- What a rule admits: cookies that bypass it, status codes, content types.
use apache_cacher.Prelude.{
  ℕ, zero, suc, Bool, true, false, List, [], ◌∷◌, ◌++◌, Option, none, some, Bytes, Any, All, Lacks,
  length, ◌≤◌, ◌≡◌, ◌≢◌, ◌↔◌, ◌⊎◌, inl, inr, refl, arith, Bool-cases,
}
use apache_cacher.Prelude.Int.{ℤ, negsuc, eq_ℤ, eq_ℤ_iff}
use apache_cacher.Glob.{glob, glob_match}
use apache_cacher.Glob.Matches.{Matches}
use apache_cacher.Glob.Complete.{glob_iff}
use apache_cacher.Rules.{CacherRule}
use apache_cacher.Rules.First.{any_iff}
use apache_cacher.Rules.Fields.{
  any_glob, bypasses_cookie, base_room, content_base, type_passes, allows_content_type, scan_status,
  status_passes, allows_status,
}

-- Some glob of the array matches the text.
abbrev pub AnyGlob : Bool → Bytes → Option (List Bytes) → Type 0
AnyGlob ci text none = ⊥
AnyGlob ci text (some gs) = Any (λ g. Matches ci g text) gs

All-unit : (gs : List Bytes) → All (λ (_ : Bytes). Unit {0}) gs
All-unit [] = tt
All-unit (g ∷ gs) = (tt, All-unit gs)

any_glob_iff :
    (gs : Option (List Bytes)) (text : Bytes) (ci : Bool)
    → Lacks b'*' text
    → (any_glob gs text ci ≡ true) ↔ AnyGlob ci text gs
unfolding any_glob glob_match
any_glob_iff none text ci h = (λ e. cc, λ e. absurd e)
any_glob_iff (some gs) text ci h =
    any_iff (λ g. glob g text ci) (λ g. Matches ci g text) (λ _. Unit {0})
      (λ g _. glob_iff g text ci h) gs (All-unit gs)

-- A cookie bypasses a rule exactly when a glob of the rule matches its name, letter case
-- included, if the name holds no '*'.
pub bypasses_cookie_iff :
    (r : CacherRule) (name : Bytes)
    → Lacks b'*' name
    → (bypasses_cookie (some r) (some name) ≡ true) ↔ AnyGlob false name r.bypass_cookies
unfolding bypasses_cookie
bypasses_cookie_iff r name h = any_glob_iff r.bypass_cookies name false h

scan_status_iff :
    (body : List ℤ) (status : ℤ)
    → All (λ c. c ≢ negsuc 0) body
    → (scan_status (body ++ negsuc 0 ∷ []) status ≡ true) ↔ Any (λ c. c ≡ status) body
unfolding scan_status
scan_status_iff [] status h = (λ e. cc, λ e. absurd e)
scan_status_iff (x ∷ body) status h = elim (Bool-cases (eq_ℤ x (negsuc 0))) [
  | inl e ↦ absurd (h.0 ((eq_ℤ_iff x (negsuc 0)).0 e))
  | inr e ↦ elim (Bool-cases (eq_ℤ x status)) [
    | inl s ↦ rw (e, s) (λ _. inl ((eq_ℤ_iff x status).0 s), λ _. refl)
    | inr s ↦
        rw (e, s)
          (let rest = scan_status_iff body status h.1 in
            (
              λ t. inr (rest.0 t),
              λ t. elim t [ inl q ↦ cc (s, (eq_ℤ_iff x status).1 q) | inr q ↦ rest.1 q ],
            ))
  ]
]

-- A status is allowed exactly when it stands before the -1 that ends the array.
pub allows_status_iff :
    (r : CacherRule) (body : List ℤ) (status : ℤ)
    → r.status_codes ≡ some (body ++ negsuc 0 ∷ [])
    → All (λ c. c ≢ negsuc 0) body
    → (allows_status (some r) status ≡ true) ↔ Any (λ c. c ≡ status) body
unfolding allows_status status_passes
allows_status_iff r body status e h = rw e (scan_status_iff body status h)

-- A rule without content types takes any; one with them takes a type that a glob of them matches,
-- in either letter case.
abbrev pub TypeFits : Option (List Bytes) → Bytes → Type 0
TypeFits none base = Unit
TypeFits (some gs) base = AnyGlob true base (some gs)

-- What may stand behind the type itself: nothing, or a ';' or a space and any text.
abbrev pub IsParams : Bytes → Type 0
IsParams [] = Unit
IsParams (c ∷ s) = (c ≡ b';') ⊎ (c ≡ b' ')

content_base_lem :
    (room : ℕ) (base params : Bytes)
    → Lacks b';' base
    → Lacks b' ' base
    → IsParams params
    → length base ≤ room
    → content_base room (base ++ params) ≡ base
unfolding content_base
content_base_lem zero [] params h k p l = refl
content_base_lem zero (c ∷ base) params h k p l = absurd (omega (arith, l))
content_base_lem (suc room) [] [] h k p l = refl
content_base_lem (suc room) [] (c ∷ s) h k p l = ground arith
content_base_lem (suc room) (c ∷ base) params h k p l =
    ground (arith, content_base_lem room base params h.1 k.1 p (omega (arith, l)))

type_passes_iff :
    (gs : Option (List Bytes)) (ct base : Bytes)
    → content_base base_room ct ≡ base
    → Lacks b'*' base
    → (type_passes gs (some ct) ≡ true) ↔ TypeFits gs base
unfolding type_passes
type_passes_iff none ct base e h = (λ _. tt, λ _. refl)
type_passes_iff (some gs) ct base e h = rw e (any_glob_iff (some gs) base true h)

-- A content type is a type of at most 127 bytes without ';', space or '*', and behind it nothing
-- or a ';' or a space and any text. It is allowed exactly when the rule names no types, or one of
-- its globs matches the type in front, in either letter case.
pub allows_content_type_iff :
    (r : CacherRule) (base params : Bytes)
    → Lacks b';' base
    → Lacks b' ' base
    → Lacks b'*' base
    → length base ≤ 127
    → IsParams params
    → (allows_content_type (some r) (some (base ++ params)) ≡ true) ↔ TypeFits r.content_types base
unfolding allows_content_type
allows_content_type_iff r base params h k s l p =
    type_passes_iff r.content_types (base ++ params) base
      (content_base_lem base_room base params h k p l) s

content_base-params :
    (room sep : ℕ) (t params : Bytes)
    → (sep ≡ b';') ⊎ (sep ≡ b' ')
    → Lacks b';' t
    → Lacks b' ' t
    → content_base room (t ++ sep ∷ params) ≡ content_base room t
unfolding content_base
content_base-params zero sep t params s h k = refl
content_base-params (suc room) sep [] params s h k = ground arith
content_base-params (suc room) sep (c ∷ t) params s h k =
    ground (arith, content_base-params room sep t params s h.1 k.1)

type_passes-params :
    (gs : Option (List Bytes)) (sep : ℕ) (t params : Bytes)
    → content_base base_room (t ++ sep ∷ params) ≡ content_base base_room t
    → type_passes gs (some (t ++ sep ∷ params)) ≡ type_passes gs (some t)
unfolding type_passes
type_passes-params none sep t params e = refl
type_passes-params (some gs) sep t params e = rw e

-- What stands behind the first ';' or space of a content type makes no difference, however long
-- the type is.
pub allows_content_type-params :
    (r : CacherRule) (sep : ℕ) (t params : Bytes)
    → (sep ≡ b';') ⊎ (sep ≡ b' ')
    → Lacks b';' t
    → Lacks b' ' t
    → allows_content_type (some r) (some (t ++ sep ∷ params))
      ≡ allows_content_type (some r) (some t)
unfolding allows_content_type
allows_content_type-params r sep t params s h k =
    type_passes-params r.content_types sep t params
      (content_base-params base_room sep t params s h k)
