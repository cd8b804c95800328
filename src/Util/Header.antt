-- ===== src/Util/Header.antt =====
-- `cacher_streq_ci` of src/cacher_util.c beside `cacher_strcasecmp`, and redirect chains.
use apache_cacher.Prelude.{
  true, List, [], ◌∷◌, ◌++◌, some, ◌==◌, ==_iff, Bytes, ◌≡◌, ◌↔◌, refl, &&-eq-true,
}
use apache_cacher.Prelude.Int.{pos}
use apache_cacher.Ctype.{to_lower}
use apache_cacher.Rules.First.{SameLetters, IsText, strcasecmp_iff}
use apache_cacher.Rules.Select.{strcasecmp}
use apache_cacher.Request.{RequestRec}
use apache_cacher.Util.{streq_loop, streq_ci, original_request}

-- `cacher_streq_ci` holds of two strings exactly when they differ in letter case only.
pub streq_ci_iff : (a b : Bytes) → (streq_ci (some a) (some b) ≡ true) ↔ SameLetters a b
unfolding streq_ci
streq_ci_iff [] [] = (λ _. refl, λ _. refl)
streq_ci_iff [] (y ∷ b) = (λ h. cc, λ h. cc)
streq_ci_iff (x ∷ a) [] = (λ h. cc, λ h. cc)
streq_ci_iff (x ∷ a) (y ∷ b) =
    let heads = ==_iff (to_lower x) (to_lower y) in
    let tails = streq_ci_iff a b in
    let both = &&-eq-true (to_lower x == to_lower y) (streq_loop a b) in
    (λ h. cc (heads.0 (both.0 h).0, tails.0 (both.0 h).1), λ h. both.1 (heads.1 (cc), tails.1 (cc)))

-- On C strings the comparison of cacher_util.c and the one of cacher_rules.c agree.
pub streq_ci-strcasecmp :
    (a b : Bytes)
    → IsText a
    → IsText b
    → (streq_ci (some a) (some b) ≡ true) ↔ (strcasecmp a b ≡ pos 0)
streq_ci-strcasecmp a b ta tb =
    let same = streq_ci_iff a b in
    let zero = strcasecmp_iff a b ta tb in (λ h. zero.1 (same.0 h), λ h. same.1 (zero.0 h))

-- However many internal redirects came after it, the request that is found is the first of all.
pub original_request_lem :
    (r first : RequestRec) (prevs : List RequestRec)
    → original_request (record { r = r; prevs = prevs ++ first ∷ [] }) ≡ first
unfolding original_request
original_request_lem r first [] = refl
original_request_lem r first (p ∷ prevs) = original_request_lem p first prevs
