-- ===== src/Glob/Starred.antt =====
-- `cacher_glob_match` of src/cacher_rules.c, on values that start with '*'.
use apache_cacher.Prelude.{
  ℕ, suc, ◌-◌, Bool, true, false, [], ◌∷◌, none, some, Bytes, get_or, ◌≡◌, refl, ap, ◌∙◌, arith,
}
use apache_cacher.Ctype.{to_lower}
use apache_cacher.Glob.{glob, glob_loop, glob_fuel, accepts, retry, fold}

star_consumed :
    (f c : ℕ) (v : Bytes) (ci : Bool)
    → glob_loop (suc (suc f)) ci (b'*' ∷ []) (b'*' ∷ c ∷ v) none ≡ some false
unfolding glob_loop accepts fold to_lower retry
star_consumed f c v true = refl
star_consumed f c v false = refl

-- The pattern "*" does not match a value of two bytes or more that starts with '*'.
pub glob_starred : (c : ℕ) (v : Bytes) (ci : Bool) → glob (b'*' ∷ []) (b'*' ∷ c ∷ v) ci ≡ false
unfolding glob
glob_starred c v ci =
    let n = glob_fuel (b'*' ∷ []) (b'*' ∷ c ∷ v) in
    let two : n ≡ suc (suc (n - 2)) = omega arith in
    ap (λ o. get_or o false)
      (ap (λ f. glob_loop f ci (b'*' ∷ []) (b'*' ∷ c ∷ v) none) two ∙ star_consumed (n - 2) c v ci)
