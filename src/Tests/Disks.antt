-- ===== src/Tests/Disks.antt =====
-- A concrete instance of `FileSystem` of Cache/FileSystem.antt: the content of each path, and a
-- fixed listing.
use apache_cacher.Prelude.{
  ℕ, suc, subst, ◌≡◌, ◌≢◌, Bool, true, false, [], ◌∷◌, ◌++◌, Option, none, some, Bytes, map, length,
  refl, sym, ap, ◌∙◌, Bool-cases, inl, inr, str_eq, str_eq_iff, ◌==◌, if◌then◌else◌, some_inj,
}
use apache_cacher.Cache.FileSystem.{FileSystem, DirTree}

abbrev pub Contents : Type 0
Contents = Bytes → Option Bytes

pub record ToyDisk : Type 0 where
  pub at : Contents
  pub listing : DirTree

abbrev pub put : Contents → Bytes → Option Bytes → Contents
put d p v x = elim (str_eq x p) [ true ↦ v | false ↦ d x ]

pub put_self : (d : Contents) (p : Bytes) (v : Option Bytes) → put d p v p ≡ v
put_self d p v = rw ((str_eq_iff p p).1 refl, put)

pub put_other : (d : Contents) (p x : Bytes) (v : Option Bytes) → x ≢ p → put d p v x ≡ d x
put_other d p x v n = elim (Bool-cases (str_eq x p)) [
  | inl e ↦ absurd (n ((str_eq_iff x p).0 e))
  | inr e ↦ rw (e, put)
]

abbrev pub set_at : ToyDisk → Bytes → Option Bytes → ToyDisk
set_at d p v = record d { at = put d.at p v }

abbrev size_of : Option Bytes → Option ℕ
size_of none = none
size_of (some s) = some (length s)

abbrev pub move : ToyDisk → Bytes → Bytes → Option Bytes → Bool × ToyDisk
move d p q none = (false, d)
move d p q (some s) = (true, set_at (set_at d p none) q (some s))

abbrev pub fill_template : Bytes → Bytes
fill_template t = map (λ c. if c == b'X' then b'a' else c) t

pub length-map : (t : Bytes) → length (fill_template t) ≡ length t
length-map [] = refl
length-map (c ∷ t) = ap (λ n. suc n) (length-map t)

abbrev pub make_temp : ToyDisk → Bytes → Option Bytes → Option Bytes × ToyDisk
make_temp d p none = (some p, set_at d p (some []))
make_temp d p (some _) = (none, d)

abbrev pub append_to : ToyDisk → Bytes → Bytes → Option Bytes → Bool × ToyDisk
append_to d p more none = (false, d)
append_to d p more (some s) = (true, set_at d p (some (s ++ more)))

pub size_content :
    (o : Option Bytes) (n : ℕ) → size_of o ≡ some n → (s : Bytes) × (o ≡ some s) × (length s ≡ n)
size_content none n h = absurd (no h)
  where
    no : none ≡ some n → ⊥
    no e = cc
size_content (some s) n h = (s, refl, some_inj (length s) n h)

pub move_moves :
    (d : ToyDisk) (p q : Bytes) (o : Option Bytes)
    → o ≡ d.at p
    → (move d p q o).0 ≡ true
    → (move d p q o).1.at q ≡ o
move_moves d p q none e h = cc
move_moves d p q (some s) e h = put_self (put d.at p none) q (some s)

pub move_other :
    (d : ToyDisk) (p q x : Bytes) (o : Option Bytes)
    → x ≢ p
    → x ≢ q
    → (move d p q o).1.at x ≡ d.at x
move_other d p q x none n m = refl
move_other d p q x (some s) n m =
    put_other (put d.at p none) q x (some s) m ∙ put_other d.at p x none n

pub move_fails :
    (d : ToyDisk) (p q x : Bytes) (o : Option Bytes)
    → (move d p q o).0 ≡ false
    → (move d p q o).1.at x ≡ d.at x
move_fails d p q x none h = refl
move_fails d p q x (some s) h = cc

pub temp_named :
    (d : ToyDisk) (t p : Bytes) (o : Option Bytes)
    → o ≡ d.at t
    → (make_temp d t o).0 ≡ some p
    → (p ≡ t) × (o ≡ none)
temp_named d t p none e h = (sym (some_inj t p h), refl)
temp_named d t p (some _) e h = absurd (no h)
  where
    no : none ≡ some p → ⊥
    no i = cc

pub temp_empty :
    (d : ToyDisk) (t p : Bytes) (o : Option Bytes)
    → (make_temp d t o).0 ≡ some p
    → (make_temp d t o).1.at p ≡ some []
temp_empty d t p none h =
    subst (λ x. put d.at t (some []) x ≡ some []) (some_inj t p h) (put_self d.at t (some []))
temp_empty d t p (some _) h = cc

pub temp_other :
    (d : ToyDisk) (t x : Bytes) (o : Option Bytes)
    → (make_temp d t o).0 ≢ some x
    → (make_temp d t o).1.at x ≡ d.at x
temp_other d t x none n = put_other d.at t x (some []) (λ e. n (ap (λ y. some y) (sym e)))
temp_other d t x (some _) n = refl

pub append_appends :
    (d : ToyDisk) (p s more : Bytes) (o : Option Bytes)
    → (append_to d p more o).0 ≡ true
    → o ≡ some s
    → (append_to d p more o).1.at p ≡ some (s ++ more)
append_appends d p s more none h e = cc
append_appends d p s more (some t) h e =
    put_self d.at p (some (t ++ more)) ∙ ap (λ u. some (u ++ more)) (some_inj t s e)

pub append_other :
    (d : ToyDisk) (p x more : Bytes) (o : Option Bytes)
    → x ≢ p
    → (append_to d p more o).1.at x ≡ d.at x
append_other d p x more none n = refl
append_other d p x more (some t) n = put_other d.at p x (some (t ++ more)) n

abbrev pub toy_fs : FileSystem
toy_fs = record {
  Disk = ToyDisk;
  content = λ d p. d.at p;
  file_read = λ d p. d.at p;
  file_open = λ d p. size_of (d.at p);
  stat_size = λ d p. size_of (d.at p);
  tree = λ d p. d.listing;
  remove = λ d p. set_at d p none;
  rename = λ d p q. move d p q (d.at p);
  mktemp = λ d t. make_temp d (fill_template t) (d.at (fill_template t));
  write_full = λ d p more. append_to d p more (d.at p);
  make_dirs = λ d p. (true, d);
  file_read_content = λ d p s h. h;
  file_open_content = λ d p n h. size_content (d.at p) n h;
  remove_other = λ d p x n. put_other d.at p x none n;
  remove_self = λ d p. inl (put_self d.at p none);
  rename_moves = λ d p q h. move_moves d p q (d.at p) refl h;
  rename_other = λ d p q x n m. move_other d p q x (d.at p) n m;
  rename_fails = λ d p q x h. move_fails d p q x (d.at p) h;
  mktemp_length = λ d t p h.
      ap length (temp_named d (fill_template t) p (d.at (fill_template t)) refl h).0 ∙ length-map t;
  mktemp_empty = λ d t p h. temp_empty d (fill_template t) p (d.at (fill_template t)) h;
  mktemp_new = λ d t p h.
      let k = temp_named d (fill_template t) p (d.at (fill_template t)) refl h in ap d.at k.0 ∙ k.1;
  mktemp_other = λ d t x n. temp_other d (fill_template t) x (d.at (fill_template t)) n;
  write_appends = λ d p s more h e. append_appends d p s more (d.at p) h e;
  write_other = λ d p x more n. append_other d p x more (d.at p) n;
  make_dirs_content = λ d p x. refl;
}
