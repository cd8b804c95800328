-- ===== src/Rules/Memory/Owned.antt =====
-- The parser of src/cacher_rules.c hands out exactly the blocks that its result owns.
use apache_cacher.Prelude.{
  ℕ, Bool, List, [], ◌∷◌, Option, none, some, Bytes, arith, ◌==◌, Bool-cases, inl, inr,
}
use apache_cacher.Prelude.Int.{ℤ}
use apache_cacher.Cjson.{Cjson}
use apache_cacher.Rules.Parse.{string_of}
use apache_cacher.Rules.Memory.Heap.{
  Heap, malloc, block_onto, Owes, Owes-same, malloc-Owes, free-Owes,
}
use apache_cacher.Rules.Memory.Freed.{
  string_onto, strings_onto, array_onto, ints_onto, count-strings_onto,
}
use apache_cacher.Rules.Memory.{
  CString, CArray, copied, strdup, keep_copy, finish_strings, finish_ints, default_ints,
  ints_or_default, copy_items, fill_strings, string_array, fill_ints, int_array,
}

module _ {h : Heap} {k : ℕ} where
  copied-Owes :
      (s : Bytes) (p : Option ℕ) (rest : List ℕ) {h' : Heap}
      → Owes h h' (block_onto p rest) k
      → Owes h h' (string_onto (copied s p) rest) k
  unfolding string_onto
  copied-Owes s none rest o = o
  copied-Owes s (some p) rest o = o

  pub strdup-Owes :
      (s : Option Bytes) (rest : List ℕ) {h' : Heap}
      → Owes h h' rest k
      → Owes h (strdup s h').1 (string_onto (strdup s h').0 rest) k
  unfolding strdup string_onto
  strdup-Owes none rest o = o
  strdup-Owes (some s) rest {h' = h'} o = copied-Owes s (malloc h').0 rest (malloc-Owes o)

  finish_strings-Owes :
      (out : ℕ) (cs : List CString) (rest : List ℕ) {h' : Heap}
      → Owes h h' (strings_onto cs (out ∷ rest)) k
      → Owes h (finish_strings out cs h').1 (array_onto (finish_strings out cs h').0 rest) k
  unfolding finish_strings array_onto strings_onto
  finish_strings-Owes out [] rest o = free-Owes out o
  finish_strings-Owes out (c ∷ cs) rest o = o

  finish_ints-Owes :
      (out : ℕ) (xs : List ℤ) (rest : List ℕ) {h' : Heap}
      → Owes h h' (out ∷ rest) k
      → Owes h (finish_ints out xs h').1 (ints_onto (finish_ints out xs h').0 rest) k
  unfolding finish_ints ints_onto
  finish_ints-Owes out [] rest o = free-Owes out o
  finish_ints-Owes out (x ∷ xs) rest o = o

  default_ints-Owes :
      (p : Option ℕ) (rest : List ℕ) {h' : Heap}
      → Owes h h' (block_onto p rest) k
      → Owes h h' (ints_onto (default_ints p) rest) k
  unfolding ints_onto
  default_ints-Owes none rest o = o
  default_ints-Owes (some p) rest o = o

  pub ints_or_default-Owes :
      (given : Option (CArray ℤ)) (rest : List ℕ) {h' : Heap}
      → Owes h h' (ints_onto given rest) k
      → Owes h (ints_or_default given h').1 (ints_onto (ints_or_default given h').0 rest) k
  unfolding ints_or_default ints_onto
  ints_or_default-Owes (some arr) rest o = o
  ints_or_default-Owes none rest {h' = h'} o = default_ints-Owes (malloc h').0 rest (malloc-Owes o)

  keep_copy-Owes :
      (upper : Bool) (c : Option CString) (cs : List CString) (rest : List ℕ) {h' : Heap}
      → Owes h h' (strings_onto cs (string_onto c rest)) k
      → Owes h h' (strings_onto (keep_copy upper c cs) rest) k
  unfolding strings_onto string_onto
  keep_copy-Owes upper none cs rest o = o
  keep_copy-Owes upper (some c) cs rest o =
      Owes-same o _
        (λ x. omega (arith, count-strings_onto x cs rest, count-strings_onto x cs (c.at ∷ rest)))

  module _ (j : Cjson) where
    copy_items-Owes :
        (upper : Bool) (items : List j.Node) (rest : List ℕ) {h' : Heap}
        → Owes h h' rest k
        → Owes h
            (copy_items j upper items h').1
            (strings_onto (copy_items j upper items h').0 rest)
            k
    unfolding copy_items strings_onto
    copy_items-Owes upper [] rest o = o
    copy_items-Owes upper (item ∷ items) rest {h' = h'} o =
        keep_copy-Owes upper _ _ rest
          (copy_items-Owes upper items _ (strdup-Owes (string_of j (some item)) rest o))

    fill_strings-Owes :
        (arr : j.Node) (upper : Bool) (out : Option ℕ) (rest : List ℕ) {h' : Heap}
        → Owes h h' (block_onto out rest) k
        → Owes h
            (fill_strings j arr upper out h').1
            (array_onto (fill_strings j arr upper out h').0 rest)
            k
    unfolding fill_strings
    fill_strings-Owes arr upper none rest o = unfold array_onto in o
    fill_strings-Owes arr upper (some out) rest o =
        finish_strings-Owes out _ rest (copy_items-Owes upper (j.children arr) (out ∷ rest) o)

    pub string_array-Owes :
        (arr : Option j.Node) (upper : Bool) (rest : List ℕ) {h' : Heap}
        → Owes h h' rest k
        → Owes h (string_array j arr upper h').1 (array_onto (string_array j arr upper h').0 rest) k
    unfolding string_array
    string_array-Owes none upper rest o = unfold array_onto in o
    string_array-Owes (some arr) upper rest {h' = h'} o = elim (Bool-cases (j.is_array arr)) [
      | inr a ↦ rw a (unfold array_onto in o)
      | inl a ↦ rw a (elim (Bool-cases (j.array_size arr == 0)) [
        | inl e ↦ rw e (unfold array_onto in o)
        | inr e ↦ rw e (fill_strings-Owes arr upper (malloc h').0 rest (malloc-Owes o))
      ])
    ]

    fill_ints-Owes :
        (arr : j.Node) (out : Option ℕ) (rest : List ℕ) {h' : Heap}
        → Owes h h' (block_onto out rest) k
        → Owes h (fill_ints j arr out h').1 (ints_onto (fill_ints j arr out h').0 rest) k
    unfolding fill_ints
    fill_ints-Owes arr none rest o = unfold ints_onto in o
    fill_ints-Owes arr (some out) rest o = finish_ints-Owes out _ rest o

    pub int_array-Owes :
        (arr : Option j.Node) (rest : List ℕ) {h' : Heap}
        → Owes h h' rest k
        → Owes h (int_array j arr h').1 (ints_onto (int_array j arr h').0 rest) k
    unfolding int_array
    int_array-Owes none rest o = unfold ints_onto in o
    int_array-Owes (some arr) rest {h' = h'} o = elim (Bool-cases (j.is_array arr)) [
      | inr a ↦ rw a (unfold ints_onto in o)
      | inl a ↦ rw a (elim (Bool-cases (j.array_size arr == 0)) [
        | inl e ↦ rw e (unfold ints_onto in o)
        | inr e ↦ rw e (fill_ints-Owes arr (malloc h').0 rest (malloc-Owes o))
      ])
    ]
