-- ===== src/Glob.antt =====
-- `cacher_glob_match` of src/cacher_rules.c.
pub mod Matches
pub mod Sound
pub mod Complete
pub mod Total
pub mod Starred
use apache_cacher.Prelude.{
  ℕ, zero, suc, ◌+◌, ◌*◌, Bool, true, false, ◌||◌, List, [], ◌∷◌, Option, none, some, ◌==◌,
  if◌then◌else◌, length, Bytes, get_or,
}
use apache_cacher.Ctype.{to_lower}

-- `pc` and `vc`: the byte that is compared, lower-cased if `ci`
unfoldable pub fold : Bool → ℕ → ℕ
fold true c = to_lower c
fold false c = c

-- *p == '?' || (*p && pc == vc), where *p is not the terminator
unfoldable pub accepts : Bool → ℕ → ℕ → Bool
unfolding fold
accepts ci x c = x == b'?' || fold ci x == fold ci c

-- `star_p + 1` and `star_v`, once a star has been met
abbrev pub Back : Type 0
Back = Option (Bytes × Bytes)

abbrev pub Round : Type 0
Round = Bytes → Bytes → Back → Option Bool

-- The last two branches of the loop. `none` is a read past the end of the value.
unfoldable pub retry : Back → Round → Option Bool
retry none next = some false
retry (some (sp, [])) next = none
retry (some (sp, c ∷ sv)) next = next sp sv (some (sp, sv))

-- while (*p == '*') p++; return *p == '\0';
unfoldable pub only_stars : Bytes → Bool
only_stars [] = true
only_stars (x ∷ p) = elim (x == b'*') [ true ↦ only_stars p | false ↦ false ]

-- The loop, on fuel: `none` also where the fuel runs out.
unfoldable pub glob_loop : ℕ → Bool → Round
unfolding retry accepts only_stars
glob_loop zero ci p v back = none
glob_loop (suc f) ci p [] back = some (only_stars p)
glob_loop (suc f) ci [] (c ∷ v) back = retry back (glob_loop f ci)
glob_loop (suc f) ci (x ∷ p) (c ∷ v) back =
    let onward = glob_loop f ci p v back in
    let at_star = glob_loop f ci p (c ∷ v) (some (p, c ∷ v)) in
    let again = retry back (glob_loop f ci) in
    if accepts ci x c then onward else if x == b'*' then at_star else again

abbrev pub glob_fuel : Bytes → Bytes → ℕ
glob_fuel p v = (length v + 1) * (length p + 2) + length p + 1

-- The loop on two strings that are there.
unfoldable pub glob : Bytes → Bytes → Bool → Bool
unfolding glob_loop
glob p v ci = get_or (glob_loop (glob_fuel p v) ci p v none) false

-- A null pointer on either side matches nothing.
unfoldable pub glob_match : Option Bytes → Option Bytes → Bool → Bool
unfolding glob
glob_match none v ci = false
glob_match (some p) none ci = false
glob_match (some p) (some v) ci = glob p v ci
