-- ===== src/Rules/Fields.antt =====
-- `cacher_rule_bypasses_cookie`, `cacher_rule_allows_content_type` and
-- `cacher_rule_allows_status` of src/cacher_rules.c.
use apache_cacher.Prelude.{
  ℕ, zero, suc, Bool, true, false, ◌||◌, List, [], ◌∷◌, Option, none, some, ◌==◌, if◌then◌else◌,
  Bytes, any,
}
use apache_cacher.Prelude.Int.{ℤ, negsuc, eq_ℤ}
use apache_cacher.Glob.{glob_match}
use apache_cacher.Rules.{CacherRule}

-- the loop over an array of globs
unfoldable pub any_glob : Option (List Bytes) → Bytes → Bool → Bool
any_glob none text ci = false
any_glob (some gs) text ci = any (λ g. glob_match (some g) (some text) ci) gs

unfoldable pub bypasses_cookie : Option CacherRule → Option Bytes → Bool
unfolding any_glob
bypasses_cookie none name = false
bypasses_cookie (some r) none = false
bypasses_cookie (some r) (some name) = any_glob r.bypass_cookies name false

-- sizeof(base) - 1
abbrev pub base_room : ℕ
base_room = 127

-- the copying loop, with the room that is left
unfoldable pub content_base : ℕ → Bytes → Bytes
content_base zero ct = []
content_base (suc room) [] = []
content_base (suc room) (c ∷ ct) =
    let rest = content_base room ct in if c == b';' || c == b' ' then [] else c ∷ rest

unfoldable pub type_passes : Option (List Bytes) → Option Bytes → Bool
unfolding any_glob content_base
type_passes none ct = true
type_passes (some gs) none = false
type_passes (some gs) (some ct) = any_glob (some gs) (content_base base_room ct) true

unfoldable pub allows_content_type : Option CacherRule → Option Bytes → Bool
unfolding type_passes
allows_content_type none ct = true
allows_content_type (some r) ct = type_passes r.content_types ct

-- the scan up to -1
unfoldable pub scan_status : List ℤ → ℤ → Bool
unfolding eq_ℤ
scan_status [] status = false
scan_status (x ∷ xs) status =
    let rest = scan_status xs status in
    if eq_ℤ x (negsuc 0) then false else if eq_ℤ x status then true else rest

unfoldable pub status_passes : Option (List ℤ) → ℤ → Bool
unfolding scan_status
status_passes none status = false
status_passes (some codes) status = scan_status codes status

unfoldable pub allows_status : Option CacherRule → ℤ → Bool
unfolding status_passes
allows_status none status = false
allows_status (some r) status = status_passes r.status_codes status
