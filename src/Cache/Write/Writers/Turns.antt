-- ===== src/Cache/Write/Writers/Turns.antt =====
-- One turn of a request in the filter of src/cacher_cache.c: what it does to the files of entries, to
-- its own temporary files and to those of the others.
use apache_cacher.Prelude.{
  ℕ, ◌+◌, ◌≤◌, Bool, true, false, List, [], Option, none, some, Bytes, length, All, str_eq,
  str_eq_iff, ◌≡◌, ◌≢◌, inl, inr, refl, sym, ◌∙◌, ap, subst, arith, Bool-cases,
}
use apache_cacher.Apr.{Decimal, Tables}
use apache_cacher.Cache.FileSystem.{FileSystem}
use apache_cacher.Cache.Write.Writers.{Job, Phase, removing, Turn, on, when, with_temp, claim}
use apache_cacher.Cache.Write.Writers.Invariant.{
  Whole, Whole_by, remove-Whole, Mine, Removable, Stands,
}

by_length : (p q : Bytes) → length p ≢ length q → p ≢ q
by_length p q n e = n (ap length e)

module _ (dec : Decimal) (tb : Tables) (fs : FileSystem) (jobs : ℕ → Job) (size : ℕ) (d₀ : fs.Disk)
    (owner : Bytes → Option ℕ) (i : ℕ) where
  open fs use {Disk, content}

  abbrev job : Job
  job = jobs i

  abbrev IsWhole : Disk → Bytes → Type 0
  IsWhole = Whole dec tb fs jobs size d₀

  abbrev IsMine : ℕ → Bytes → Type 0
  IsMine = Mine dec tb fs jobs size d₀ owner i

  -- What a turn of request `i` on the disk `d` is allowed to do.
  pub record Sound (d : Disk) (t : Turn dec tb fs) : Type 0 where
    pub entries : (x : Bytes) → length x ≤ size + 2 → IsWhole d x → IsWhole t.disk x
    pub others :
        (x : Bytes)
        → size + 7 ≤ length x
        → owner x ≢ some i
        → t.made ≢ some x
        → content t.disk x ≡ content d x
    pub stands : Stands dec tb fs jobs size d₀ t.disk (claim dec tb fs owner i t.made) i t.phase

  abbrev StandsIn : Disk → Phase → Type 0
  StandsIn d = Stands dec tb fs jobs size d₀ d owner i

  -- a turn without a call on a file
  pub on-Sound : (d : Disk) (p : Phase) → StandsIn d p → Sound d (on dec tb fs p d)
  on-Sound d p s = record { entries = λ x l w. w; others = λ x l o m. refl; stands = s }

  not_mine : (x p : Bytes) (k : ℕ) → owner x ≢ some i → IsMine k p → x ≢ p
  not_mine x p k n m e = n (ap owner e ∙ m.owned)

  -- a write to one of the own temporary files
  pub write-Sound :
      (d : Disk) (p : Bytes) (k : ℕ) (w : Bool × Disk) (good bad : Phase)
      → ((x : Bytes) → x ≢ p → content w.1 x ≡ content d x)
      → 7 ≤ k
      → IsMine k p
      → (w.0 ≡ true → StandsIn w.1 good)
      → (w.0 ≡ false → StandsIn w.1 bad)
      → Sound d (when dec tb fs good bad w)
  write-Sound d p k w good bad kept ge m f g =
      by_result w (λ x small. kept x (by_length _ _ (omega (arith, m.long))))
        (λ x o. kept x (not_mine x p k o m)) f g
    where
      by_result :
          (w : Bool × Disk)
          → ((x : Bytes) → length x ≤ size + 2 → content w.1 x ≡ content d x)
          → ((x : Bytes) → owner x ≢ some i → content w.1 x ≡ content d x)
          → (w.0 ≡ true → StandsIn w.1 good)
          → (w.0 ≡ false → StandsIn w.1 bad)
          → Sound d (when dec tb fs good bad w)
      by_result (true, d') a b f g = record {
        entries = λ x small. Whole_by dec tb fs jobs size d₀ x (a x small);
        others = λ x large o _. b x o;
        stands = f refl;
      }
      by_result (false, d') a b f g = record {
        entries = λ x small. Whole_by dec tb fs jobs size d₀ x (a x small);
        others = λ x large o _. b x o;
        stands = g refl;
      }

  pub claimed : (t : Bytes) → claim dec tb fs owner i (some t) t ≡ some i
  claimed t = rw ((str_eq_iff t t).1 refl) refl

  pub claim_kept : (t x : Bytes) → owner x ≡ some i → claim dec tb fs owner i (some t) x ≡ some i
  claim_kept t x o = elim (Bool-cases (str_eq x t)) [ inl e ↦ rw e refl | inr e ↦ rw e o ]

  -- the making of a temporary file
  pub mktemp-Sound :
      (d : Disk) (k : ℕ) (m : Option Bytes × Disk) (good : Bytes → Phase) (bad : Phase)
      → ((x : Bytes) → m.0 ≢ some x → content m.1 x ≡ content d x)
      → ((x : Bytes) → m.0 ≡ some x → (length x ≡ size + k) × (content m.1 x ≡ some []))
      → 7 ≤ k
      → ((tmp : Bytes)
          → m.0 ≡ some tmp
          → length tmp ≡ size + k
          → content m.1 tmp ≡ some []
          → Stands dec tb fs jobs size d₀ m.1 (claim dec tb fs owner i (some tmp)) i (good tmp))
      → StandsIn m.1 bad
      → Sound d (with_temp dec tb fs good bad m)
  mktemp-Sound d k (some tmp, d') good bad kept named ge f g =
      let (long, empty) = named tmp refl in
      record {
        entries = λ x small.
            Whole_by dec tb fs jobs size d₀ x (kept x (λ h. absurd (omega (arith, (named x h).0))));
        others = λ x large o n. kept x n;
        stands = f tmp refl long empty;
      }
  mktemp-Sound d k (none, d') good bad kept named ge f g = record {
    entries = λ x small. Whole_by dec tb fs jobs size d₀ x (kept x (λ h. cc));
    others = λ x large o n. kept x (λ h. cc);
    stands = g;
  }

  -- the rename of one of the own temporary files to a path of the entry
  pub rename-Sound :
      (d : Disk) (p q : Bytes) (k : ℕ) (good bad : Phase)
      → 7 ≤ k
      → IsMine k p
      → length q ≤ size + 2
      → (content (fs.rename d p q).1 q ≡ content d p → IsWhole (fs.rename d p q).1 q)
      → ((fs.rename d p q).0 ≡ true → StandsIn (fs.rename d p q).1 good)
      → ((fs.rename d p q).0 ≡ false → StandsIn (fs.rename d p q).1 bad)
      → Sound d (when dec tb fs good bad (fs.rename d p q))
  rename-Sound d p q k good bad ge m small_q arrives f g =
      by_result (fs.rename d p q)
        (λ e x small w. elim (Bool-cases (str_eq x q)) [
          | inl h ↦
              subst (λ y. IsWhole (fs.rename d p q).1 y) (sym ((str_eq_iff x q).0 h))
                (arrives (fs.rename_moves d p q e))
          | inr h ↦
              Whole_by dec tb fs jobs size d₀ x
                (fs.rename_other d p q x (by_length _ _ (omega (arith, m.long)))
                  (λ j. cc (h, (str_eq_iff x q).1 j)))
                w
        ])
        (λ e x. fs.rename_fails d p q x e)
        (λ x large o. fs.rename_other d p q x (not_mine x p k o m) (by_length _ _ (omega arith))) f
        g
    where
      by_result :
          (w : Bool × Disk)
          → (w.0 ≡ true → (x : Bytes) → length x ≤ size + 2 → IsWhole d x → IsWhole w.1 x)
          → (w.0 ≡ false → (x : Bytes) → content w.1 x ≡ content d x)
          → ((x : Bytes) → size + 7 ≤ length x → owner x ≢ some i → content w.1 x ≡ content d x)
          → (w.0 ≡ true → StandsIn w.1 good)
          → (w.0 ≡ false → StandsIn w.1 bad)
          → Sound d (when dec tb fs good bad w)
      by_result (true, d') a b c f g = record {
        entries = a refl;
        others = λ x large o _. c x large o;
        stands = f refl;
      }
      by_result (false, d') a b c f g = record {
        entries = λ x small. Whole_by dec tb fs jobs size d₀ x (b refl x);
        others = λ x large o _. c x large o;
        stands = g refl;
      }

  -- the removal of an own temporary file or of the body of an entry
  pub remove-Sound :
      (d : Disk) (p : Bytes) (ps : List Bytes)
      → Removable dec tb fs jobs size d₀ owner i p
      → All (Removable dec tb fs jobs size d₀ owner i) ps
      → Sound d (on dec tb fs (removing ps) (fs.remove d p))
  remove-Sound d p ps r rs = record {
    entries = λ x small. remove-Whole dec tb fs jobs size d₀ d p x;
    others = λ x large o _. fs.remove_other d p x (other x large o r);
    stands = rs;
  }
    where
      other :
          (x : Bytes)
          → size + 7 ≤ length x
          → owner x ≢ some i
          → Removable dec tb fs jobs size d₀ owner i p
          → x ≢ p
      other x large o (inl m) = not_mine x p 7 o m
      other x large o (inr (inl m)) = not_mine x p 9 o m
      other x large o (inr (inr e)) = by_length _ _ (omega arith)
