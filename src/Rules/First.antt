-- ===== src/Rules/First.antt =====
-- `cacher_ruleset_match` of src/cacher_rules.c, and the first rule that applies.
use apache_cacher.Prelude.{
  ℕ, Bool, true, false, ◌&&◌, List, [], ◌∷◌, ◌++◌, Option, none, some, map, ◌==◌, ==_iff, Bytes,
  get_or, any, Any, All, ◌≡◌, subst, ◌↔◌, inl, inr, refl, ap, arith, Bool-cases, Lacks, &&-eq-true,
  ||-eq-true,
}
use apache_cacher.Prelude.Int.{pos, ◌-ℤ◌, eq_ℤ_iff}
use apache_cacher.Ctype.{to_lower}
use apache_cacher.Glob.{glob_match}
use apache_cacher.Glob.Matches.{Matches}
use apache_cacher.Glob.Complete.{glob_iff}
use apache_cacher.Rules.{CacherRule, CacherRuleset}
use apache_cacher.Rules.Select.{
  strcasecmp, text_passes, same_method, method_passes, rule_matches, first_rule, ruleset_match,
}

-- The two texts differ in the case of their letters only.
abbrev pub SameLetters : Bytes → Bytes → Type 0
SameLetters a b = map to_lower a ≡ map to_lower b

-- C strings hold no terminator byte.
abbrev pub IsText : Bytes → Type 0
IsText = Lacks 0

zero_diff : (a b : ℕ) → (pos a -ℤ pos b ≡ pos 0) ↔ (a ≡ b)
unfolding ◌-ℤ◌
zero_diff a b = (λ h. ground arith, λ h. ground arith)

-- Two strings compare equal exactly when they differ in the case of letters only.
pub strcasecmp_iff :
    (a b : Bytes) → IsText a → IsText b → (strcasecmp a b ≡ pos 0) ↔ SameLetters a b
unfolding strcasecmp
strcasecmp_iff [] [] ta tb = (λ _. refl, λ _. refl)
strcasecmp_iff [] (y ∷ b) ta tb =
    (λ h. absurd (tb.0 (ground (arith, (zero_diff 0 y).0 h))), λ h. cc)
strcasecmp_iff (x ∷ a) [] ta tb = (λ h. absurd (ta.0 (cc)), λ h. cc)
strcasecmp_iff (x ∷ a) (y ∷ b) ta tb = elim (Bool-cases (to_lower x == to_lower y)) [
  | inl e ↦ rw e (
      let heads = (==_iff (to_lower x) (to_lower y)).0 e in
      let tails = strcasecmp_iff a b ta.1 tb.1 in (λ h. cc (heads, tails.0 h), λ h. tails.1 (cc)))
  | inr e ↦ rw e (
      (
        λ h. cc (e, (==_iff (to_lower x) (to_lower y)).1 ((zero_diff _ _).0 h)),
        λ h. cc (e, (==_iff (to_lower x) (to_lower y)).1 (cc)),
      ))
]

-- The request's text, or the empty one where it is null, matches the glob if there is one.
abbrev pub TextFits : Option Bytes → Option Bytes → Type 0
TextFits none text = Unit
TextFits (some g) text = Matches false g (get_or text [])

abbrev pub MethodIs : Option Bytes → Bytes → Type 0
MethodIs none m = ⊥
MethodIs (some method) m = SameLetters m method

abbrev pub MethodFits : Option (List Bytes) → Option Bytes → Type 0
MethodFits none method = Unit
MethodFits (some ms) method = Any (MethodIs method) ms

-- The rule's match clause covers the request.
pub record Applies (path query method : Option Bytes) (r : CacherRule) : Type 0 where
  pub path_fits : TextFits r.path path
  pub query_fits : TextFits r.query query
  pub method_fits : MethodFits r.methods method

-- `r` applies and no rule before it does.
pub record IsFirst (P : CacherRule → Type 0) (rs : List CacherRule) (r : CacherRule) : Type 0 where
  pub before : List CacherRule
  pub after : List CacherRule
  pub splits : rs ≡ before ++ r ∷ after
  pub none_before : All (λ s. ¬ P s) before
  pub applies : P r

-- No string of an array, and no string that is there, holds the terminator.
abbrev pub ArrayText : Option (List Bytes) → Type 0
ArrayText none = Unit
ArrayText (some ss) = All IsText ss

abbrev pub OptionText : Option Bytes → Type 0
OptionText none = Unit
OptionText (some s) = IsText s

text_passes_iff :
    (g text : Option Bytes)
    → Lacks b'*' (get_or text [])
    → (text_passes g text ≡ true) ↔ TextFits g text
unfolding text_passes glob_match
text_passes_iff none text h = (λ _. tt, λ _. refl)
text_passes_iff (some g) text h = glob_iff g (get_or text []) false h

same_method_iff :
    (method : Option Bytes) (m : Bytes)
    → OptionText method
    → IsText m
    → (same_method method m ≡ true) ↔ MethodIs method m
unfolding same_method
same_method_iff none m tm t = (λ h. cc, λ h. absurd h)
same_method_iff (some method) m tm t =
    let zero = eq_ℤ_iff (strcasecmp m method) (pos 0) in
    let same = strcasecmp_iff m method t tm in (λ h. same.0 (zero.0 h), λ h. zero.1 (same.1 h))

-- A Boolean search finds something exactly when the predicate that it decides holds somewhere.
pub any_iff :
    {A : Type 0} (p : A → Bool) (P : A → Type 0) (D : A → Type 0)
    → ((a : A) → D a → (p a ≡ true) ↔ P a)
    → (xs : List A) → All D xs
    → (any p xs ≡ true) ↔ Any P xs
any_iff p P D h [] d = (λ e. cc, λ e. absurd e)
any_iff p P D h (x ∷ xs) d =
    let here = h x d.0 in
    let there = any_iff p P D h xs d.1 in
    let split = ||-eq-true (p x) (any p xs) in
    (
      λ e. elim (split.0 e) [ inl a ↦ inl (here.0 a) | inr b ↦ inr (there.0 b) ],
      λ e. split.1 (elim e [ inl a ↦ inl (here.1 a) | inr b ↦ inr (there.1 b) ]),
    )

method_passes_iff :
    (ms : Option (List Bytes)) (method : Option Bytes)
    → ArrayText ms
    → OptionText method
    → (method_passes ms method ≡ true) ↔ MethodFits ms method
unfolding method_passes
method_passes_iff none method ta tm = (λ _. tt, λ _. refl)
method_passes_iff (some ms) method ta tm =
    any_iff (same_method method) (MethodIs method) IsText (λ m t. same_method_iff method m tm t) ms
      ta

module _ (path query method : Option Bytes) (path_plain : Lacks b'*' (get_or path []))
    (query_plain : Lacks b'*' (get_or query [])) (method_text : OptionText method) where
  abbrev Hit : CacherRule → Type 0
  Hit = Applies path query method

  rule_matches_iff :
      (r : CacherRule) → ArrayText r.methods → (rule_matches r path query method ≡ true) ↔ Hit r
  unfolding rule_matches
  rule_matches_iff r t =
      let p = text_passes_iff r.path path path_plain in
      let q = text_passes_iff r.query query query_plain in
      let m = method_passes_iff r.methods method t method_text in
      let outer =
        &&-eq-true (text_passes r.path path)
          (text_passes r.query query && method_passes r.methods method) in
      let inner = &&-eq-true (text_passes r.query query) (method_passes r.methods method) in
      (
        λ e. record {
          path_fits = p.0 (outer.0 e).0;
          query_fits = q.0 (inner.0 (outer.0 e).1).0;
          method_fits = m.0 (inner.0 (outer.0 e).1).1;
        },
        λ a. outer.1 (p.1 a.path_fits, inner.1 (q.1 a.query_fits, m.1 a.method_fits)),
      )

  first_rule-IsFirst :
      (rs : List CacherRule) (r : CacherRule)
      → All (λ s. ArrayText s.methods) rs
      → first_rule rs path query method ≡ some r
      → IsFirst Hit rs r
  unfolding first_rule
  first_rule-IsFirst [] r t h = absurd (cc)
  first_rule-IsFirst (s ∷ rs) r t h = elim (Bool-cases (rule_matches s path query method)) [
    | inl e ↦
        let same : s ≡ r = ground arith in
        record {
          before = [];
          after = rs;
          splits = ap (λ x. x ∷ rs) same;
          none_before = tt;
          applies = subst Hit same ((rule_matches_iff s t.0).0 e);
        }
    | inr e ↦
        let i = first_rule-IsFirst rs r t.1 (rw e at h) in
        record {
          before = s ∷ i.before;
          after = i.after;
          splits = ap (◌∷◌ s) i.splits;
          none_before = (λ a. cc ((rule_matches_iff s t.0).1 a), i.none_before);
          applies = i.applies;
        }
  ]

  passes_over :
      (before after : List CacherRule) (r : CacherRule)
      → All (λ s. ArrayText s.methods) (before ++ r ∷ after)
      → All (λ s. ¬ Hit s) before
      → Hit r
      → first_rule (before ++ r ∷ after) path query method ≡ some r
  unfolding first_rule
  passes_over [] after r t n a = rw ((rule_matches_iff r t.0).1 a)
  passes_over (s ∷ before) after r t n a = elim (Bool-cases (rule_matches s path query method)) [
    | inl e ↦ absurd (n.0 ((rule_matches_iff s t.0).0 e))
    | inr e ↦ rw e (passes_over before after r t.1 n.1 a)
  ]

  IsFirst-first_rule :
      (rs : List CacherRule) (r : CacherRule)
      → All (λ s. ArrayText s.methods) rs
      → IsFirst Hit rs r
      → first_rule rs path query method ≡ some r
  IsFirst-first_rule rs r t i = rw i.splits (
      passes_over i.before i.after r (subst (All (λ s. ArrayText s.methods)) i.splits t)
        i.none_before i.applies)

  -- The match returns a rule exactly when it is the first in order that covers the request,
  -- disabled rules included, if neither path nor query holds a '*' and no method holds a
  -- terminator.
  pub ruleset_match_iff :
      (rs : CacherRuleset) (r : CacherRule)
      → All (λ s. ArrayText s.methods) rs.rules
      → (ruleset_match (some rs) path query method ≡ some r) ↔ IsFirst Hit rs.rules r
  unfolding ruleset_match
  ruleset_match_iff rs r t = (first_rule-IsFirst rs.rules r t, IsFirst-first_rule rs.rules r t)
