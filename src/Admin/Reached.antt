-- ===== src/Admin/Reached.antt =====
-- Which header files the walk of src/cacher_admin.c reaches, said without its tests.
use apache_cacher.Prelude.{
  Bool, true, false, not, List, [], ◌∷◌, ◌++◌, some, some_inj, Bytes, codes, ◌==◌, ==_iff, ==_refl,
  strip_prefix, strip_prefix-append, &&-eq-true, ◌≡◌, ◌⊎◌, refl, ◌∙◌, ap, inl, inr, arith,
  Bool-cases, Option-cases,
}
use apache_cacher.Cache.FileSystem.{DirTree, closed, opened, DirItems, done, file, dir}
use apache_cacher.Admin.{is_some, has_part, is_hidden, is_entry_name, child_path}
use apache_cacher.Admin.Walk.{headers_in, headers_among}

-- The part stands somewhere in the text.
abbrev pub Holds : Bytes → Bytes → Type 0
Holds part s = (before : Bytes) × (behind : Bytes) × (s ≡ before ++ (part ++ behind))

abbrev pub StartsWithDot : Bytes → Type 0
StartsWithDot name = (rest : Bytes) × (name ≡ b'.' ∷ rest)

-- The name of a header file, and not of one that is still written.
abbrev pub IsHeaderName : Bytes → Type 0
IsHeaderName name = Holds (codes ".header") name × (¬ Holds (codes ".XXXXXX") name)

-- The header files of a tree of directories, in the order of its listings: no name that starts with
-- a dot, nor what is below one.
mutual
  pub data Walks : Bytes → DirTree → List Bytes → Type 0 where
    not_opened : {parent : Bytes} → Walks parent closed []
    was_opened :
        {parent : Bytes} {items : DirItems} {ps : List Bytes}
        → WalksAmong parent items ps
        → Walks parent (opened items) ps

  pub data WalksAmong : Bytes → DirItems → List Bytes → Type 0 where
    at_end : {parent : Bytes} → WalksAmong parent done []
    header_file :
        {parent name : Bytes} {items : DirItems} {ps : List Bytes}
        → ¬ StartsWithDot name
        → IsHeaderName name
        → WalksAmong parent items ps
        → WalksAmong parent (file name items) ((parent ++ (b'/' ∷ name)) ∷ ps)
    other_file :
        {parent name : Bytes} {items : DirItems} {ps : List Bytes}
        → StartsWithDot name ⊎ (¬ IsHeaderName name)
        → WalksAmong parent items ps
        → WalksAmong parent (file name items) ps
    directory :
        {parent name : Bytes} {below : DirTree} {items : DirItems} {ps qs : List Bytes}
        → ¬ StartsWithDot name
        → Walks (parent ++ (b'/' ∷ name)) below ps
        → WalksAmong parent items qs
        → WalksAmong parent (dir name below items) (ps ++ qs)
    dot_directory :
        {parent name : Bytes} {below : DirTree} {items : DirItems} {ps : List Bytes}
        → StartsWithDot name
        → WalksAmong parent items ps
        → WalksAmong parent (dir name below items) ps

strip_prefix_inv : (part s rest : Bytes) → strip_prefix part s ≡ some rest → s ≡ part ++ rest
unfolding strip_prefix
strip_prefix_inv [] s rest e = some_inj _ _ e
strip_prefix_inv (x ∷ part) [] rest e = absurd (cc)
strip_prefix_inv (x ∷ part) (c ∷ s) rest e = elim (Bool-cases (x == c)) [
  | inl same ↦ cc ((==_iff x c).0 same, strip_prefix_inv part s rest (rw (same, strip_prefix) at e))
  | inr other ↦ absurd (cc (rw (other, strip_prefix) at e))
]

prefix-Holds : (part s : Bytes) → is_some (strip_prefix part s) ≡ true → Holds part s
prefix-Holds part s e = elim (Option-cases (strip_prefix part s)) [
  | inl n ↦ absurd (cc (rw n at e))
  | inr (rest, r) ↦ ([], rest, strip_prefix_inv part s rest r)
]

has_part-Holds : (part s : Bytes) → has_part part s ≡ true → Holds part s
unfolding has_part
has_part-Holds part [] e = prefix-Holds part [] e
has_part-Holds part (c ∷ s) e = elim (Bool-cases (is_some (strip_prefix part (c ∷ s)))) [
  | inl t ↦ prefix-Holds part (c ∷ s) t
  | inr f ↦
      let (before, behind, same) = has_part-Holds part s (rw f at e) in
      (c ∷ before, behind, ap (λ x. c ∷ x) same)
]

has_part-prefix : (part s rest : Bytes) → strip_prefix part s ≡ some rest → has_part part s ≡ true
unfolding has_part
has_part-prefix part [] rest e = rw e refl
has_part-prefix part (c ∷ s) rest e = rw e refl

has_part-append : (part before behind : Bytes) → has_part part (before ++ (part ++ behind)) ≡ true
unfolding has_part
has_part-append part [] behind =
    has_part-prefix part (part ++ behind) behind (strip_prefix-append part behind)
has_part-append part (c ∷ before) behind = ground (arith, has_part-append part before behind)

Holds-has_part : (part s : Bytes) → Holds part s → has_part part s ≡ true
Holds-has_part part s (before, behind, e) =
    ap (λ x. has_part part x) e ∙ has_part-append part before behind

no_part : (part s : Bytes) → has_part part s ≡ false → ¬ Holds part s
no_part part s e h = absurd (cc (e, Holds-has_part part s h))

not-true : (b : Bool) → not b ≡ true → b ≡ false
not-true b e = ground arith

is_entry_name-IsHeaderName : (name : Bytes) → is_entry_name name ≡ true → IsHeaderName name
unfolding is_entry_name
is_entry_name-IsHeaderName name e =
    let both =
      &&-eq-true (has_part (codes ".header") name) (not (has_part (codes ".XXXXXX") name)) in
    (
      has_part-Holds (codes ".header") name (both.0 e).0,
      no_part (codes ".XXXXXX") name (not-true _ (both.0 e).1),
    )

IsHeaderName-is_entry_name : (name : Bytes) → IsHeaderName name → is_entry_name name ≡ true
unfolding is_entry_name
IsHeaderName-is_entry_name name (h, n) = elim (Bool-cases (has_part (codes ".XXXXXX") name)) [
  | inl e ↦ absurd (n (has_part-Holds (codes ".XXXXXX") name e))
  | inr e ↦ rw (e, Holds-has_part (codes ".header") name h) refl
]

not_entry : (name : Bytes) → is_entry_name name ≡ false → ¬ IsHeaderName name
not_entry name e h = absurd (cc (e, IsHeaderName-is_entry_name name h))

is_hidden-StartsWithDot : (name : Bytes) → is_hidden name ≡ true → StartsWithDot name
unfolding is_hidden
is_hidden-StartsWithDot [] e = absurd (cc)
is_hidden-StartsWithDot (c ∷ name) e = (name, ap (λ x. x ∷ name) ((==_iff c b'.').0 e))

not_hidden : (name : Bytes) → is_hidden name ≡ false → ¬ StartsWithDot name
unfolding is_hidden
not_hidden name e (rest, same) = absurd (cc (e, ap is_hidden same, ==_refl b'.'))

mutual
  unfolding headers_in

  pub headers_in-Walks : (t : DirTree) (parent : Bytes) → Walks parent t (headers_in parent t)
  headers_in-Walks closed parent = not_opened
  headers_in-Walks (opened items) parent = was_opened (headers_among-Walks items parent)

  headers_among-Walks :
      (items : DirItems) (parent : Bytes) → WalksAmong parent items (headers_among parent items)
  headers_among-Walks done parent = at_end
  headers_among-Walks (file name items) parent = elim (Bool-cases (is_hidden name)) [
    | inl e ↦
        rw e (other_file (inl (is_hidden-StartsWithDot name e)) (headers_among-Walks items parent))
    | inr e ↦ elim (Bool-cases (is_entry_name name)) [
      | inl n ↦
          rw (e, n)
            (header_file (not_hidden name e) (is_entry_name-IsHeaderName name n)
              (headers_among-Walks items parent))
      | inr n ↦ rw (e, n) (other_file (inr (not_entry name n)) (headers_among-Walks items parent))
    ]
  ]
  headers_among-Walks (dir name below items) parent = elim (Bool-cases (is_hidden name)) [
    | inl e ↦
        rw e (dot_directory (is_hidden-StartsWithDot name e) (headers_among-Walks items parent))
    | inr e ↦ rw e (
        directory (not_hidden name e) (headers_in-Walks below (child_path parent name))
          (headers_among-Walks items parent))
  ]
