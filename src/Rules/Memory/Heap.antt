-- ===== src/Rules/Memory/Heap.antt =====
-- What src/cacher_rules.c uses of malloc, calloc and free, and of the memory of cJSON documents. The
-- allocator hands out a new address or refuses, as it pleases.
use apache_cacher.Prelude.{
  ℕ, suc, ◌+◌, ◌-◌, ◌≤◌, ◌≡◌, Bool, true, false, List, [], ◌∷◌, ◌++◌, Option, none, some, ◌==◌,
  ==_iff, subst, if◌then◌else◌, arith, refl, Bool-cases, inl, inr,
}

pub record Heap : Type 0 where
  -- no address from here on was handed out
  pub next : ℕ
  -- the blocks that were handed out and not given back
  pub live : List ℕ
  -- cJSON documents that were parsed and not deleted
  pub documents : ℕ
  -- will the next allocations be granted? All of them are, behind the end of the list.
  pub grants : List Bool
  -- something was freed that was not live
  pub broken : Bool

abbrev pub M : Type 0 → Type 0
M A = Heap → A × Heap

abbrev pub pure : {A : Type 0} → A → M A
pure a h = (a, h)

infixl 5 ◌>>=◌ ◌>>◌
abbrev pub ◌>>=◌ : {A B : Type 0} → M A → (A → M B) → M B
◌>>=◌ m f h = f (m h).0 (m h).1

abbrev pub ◌>>◌ : {A B : Type 0} → M A → M B → M B
◌>>◌ m k h = k (m h).1

-- how often an address stands in a list
abbrev pub count : ℕ → List ℕ → ℕ
count x [] = 0
count x (y ∷ ys) = (if y == x then 1 else 0) + count x ys

abbrev pub is_live : ℕ → List ℕ → Bool
is_live p [] = false
is_live p (x ∷ xs) = if x == p then true else is_live p xs

abbrev pub remove : ℕ → List ℕ → List ℕ
remove p [] = []
remove p (x ∷ xs) = if x == p then xs else x ∷ remove p xs

abbrev granted : List Bool → M (Option ℕ)
granted [] h = (some h.next, record h { next = h.next + 1; live = h.next ∷ h.live })
granted (true ∷ gs) h =
    (some h.next, record h { next = h.next + 1; live = h.next ∷ h.live; grants = gs })
granted (false ∷ gs) h = (none, record h { grants = gs })

unfoldable pub malloc : M (Option ℕ)
malloc h = granted h.grants h

-- free of a pointer that is not null
unfoldable pub free : ℕ → M (Unit {0})
free p h =
    (tt, record h { live = remove p h.live; broken = if is_live p h.live then h.broken else true })

-- the document of a successful cJSON_Parse
unfoldable pub open_document : M (Unit {0})
open_document h = (tt, record h { documents = h.documents + 1 })

-- cJSON_Delete
unfoldable pub delete_document : M (Unit {0})
delete_document h = (
  tt,
  record h { documents = h.documents - 1; broken = if h.documents == 0 then true else h.broken },
)

pub count-append : (x : ℕ) (xs ys : List ℕ) → count x (xs ++ ys) ≡ count x xs + count x ys
count-append x [] ys = omega arith
count-append x (y ∷ xs) ys = omega (arith, count-append x xs ys)

count-remove_ne : (p x : ℕ) (xs : List ℕ) → (p == x) ≡ false → count x (remove p xs) ≡ count x xs
count-remove_ne p x [] h = refl
count-remove_ne p x (y ∷ xs) h = ground (arith, count-remove_ne p x xs)

count-remove_eq :
    (p : ℕ) (xs : List ℕ)
    → 1 ≤ count p xs
    → (count p (remove p xs) + 1 ≡ count p xs) × (is_live p xs ≡ true)
count-remove_eq p [] h = absurd (omega arith)
count-remove_eq p (y ∷ xs) h = ground (arith, count-remove_eq p xs)

-- From `h` to `h'`, the blocks `bs` were handed out and not given back, `k` documents were opened and
-- not deleted, and nothing was freed that was not live.
pub record Owes (h h' : Heap) (bs : List ℕ) (k : ℕ) : Type 0 where
  pub blocks : (x : ℕ) → count x h'.live ≡ count x bs + count x h.live
  pub documents : h'.documents ≡ k + h.documents
  pub sound : h'.broken ≡ h.broken

pub Owes-refl : (h : Heap) → Owes h h [] 0
Owes-refl h = record { blocks = λ x. omega arith; documents = omega arith; sound = refl }

-- The address that malloc returned, if any, in front of others.
abbrev pub block_onto : Option ℕ → List ℕ → List ℕ
block_onto none rest = rest
block_onto (some p) rest = p ∷ rest

module _ {h h' : Heap} {bs : List ℕ} {k : ℕ} (o : Owes h h' bs k) where
  -- The order of the blocks does not matter.
  pub Owes-same : (cs : List ℕ) → ((x : ℕ) → count x cs ≡ count x bs) → Owes h h' cs k
  Owes-same cs e = record {
    blocks = λ x. omega (arith, e x, o.blocks x);
    documents = o.documents;
    sound = o.sound;
  }

  granted-Owes : (gs : List Bool) → Owes h (granted gs h').1 (block_onto (granted gs h').0 bs) k
  granted-Owes [] = record {
    blocks = λ x. omega (arith, o.blocks x);
    documents = o.documents;
    sound = o.sound;
  }
  granted-Owes (true ∷ gs) = record {
    blocks = λ x. omega (arith, o.blocks x);
    documents = o.documents;
    sound = o.sound;
  }
  granted-Owes (false ∷ gs) = record { blocks = o.blocks; documents = o.documents; sound = o.sound }

  pub malloc-Owes : Owes h (malloc h').1 (block_onto (malloc h').0 bs) k
  unfolding malloc
  malloc-Owes = granted-Owes h'.grants

  pub open_document-Owes : Owes h (open_document h').1 bs (suc k)
  unfolding open_document
  open_document-Owes = record {
    blocks = o.blocks;
    documents = omega (arith, o.documents);
    sound = o.sound;
  }

module _ {h h' : Heap} {bs : List ℕ} {k : ℕ} where
  was_live : (p : ℕ) → Owes h h' (p ∷ bs) k → 1 ≤ count p h'.live
  was_live p o = ground (arith, o.blocks p)

  count_removed :
      (p x : ℕ) → Owes h h' (p ∷ bs) k → count x (remove p h'.live) ≡ count x bs + count x h.live
  count_removed p x o = elim (Bool-cases (p == x)) [
    | inl e ↦
        let same = (==_iff p x).0 e in
        subst (λ y. count y (remove p h'.live) ≡ count y bs + count y h.live) same
          (ground (arith, o.blocks p, (count-remove_eq p h'.live (was_live p o)).0))
    | inr e ↦ ground (arith, o.blocks x, count-remove_ne p x h'.live e)
  ]

  pub free-Owes : (p : ℕ) → Owes h h' (p ∷ bs) k → Owes h (free p h').1 bs k
  unfolding free
  free-Owes p o = record {
    blocks = λ x. count_removed p x o;
    documents = o.documents;
    sound = rw ((count-remove_eq p h'.live (was_live p o)).1) o.sound;
  }

  pub delete_document-Owes : Owes h h' bs (suc k) → Owes h (delete_document h').1 bs k
  unfolding delete_document
  delete_document-Owes o = record {
    blocks = o.blocks;
    documents = omega (arith, o.documents);
    sound = ground (arith, o.documents, o.sound);
  }
