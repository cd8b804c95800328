-- ===== src/Cache/Write/Writers/Invariant.antt =====
-- What holds of the disk whatever the order of the turns: `finalize_cache_entry` of src/cacher_cache.c
-- publishes nothing that is torn.
use apache_cacher.Prelude.{
  ℕ, zero, suc, ◌+◌, ◌≤◌, true, List, [], ◌∷◌, ◌++◌, Option, none, some, Bytes, length, All, str_eq,
  str_eq_iff, ◌≡◌, ◌≢◌, ◌⊎◌, inl, inr, sym, ◌∙◌, ap, subst, Bool-cases,
}
use apache_cacher.Apr.{Decimal, Tables}
use apache_cacher.Cache.FileSystem.{FileSystem}
use apache_cacher.Cache.Write.{Bucket, eos, metadata, bytes, unreadable, is_complete, entry_text}
use apache_cacher.Cache.Write.Writers.{
  Job, Phase, waiting, with_dirs, capturing, header_open, header_written, body_moved, removing,
  finished, ctx_of, sent, World,
}

by_length : (p q : Bytes) → length p ≢ length q → p ≢ q
by_length p q n e = n (ap length e)

-- No read failed before the end of the response. The read of a bucket that states no length may
-- fail unnoticed: the code passes over such a bucket.
abbrev pub Reads : List Bucket → Type 0
Reads [] = Unit
Reads (eos ∷ bs) = Unit
Reads (metadata ∷ bs) = Reads bs
Reads (bytes s ∷ bs) = Reads bs
Reads (unreadable zero ∷ bs) = Reads bs
Reads (unreadable (suc n) ∷ bs) = ⊥

module _ (dec : Decimal) (tb : Tables) (fs : FileSystem) (jobs : ℕ → Job) (size : ℕ)
    (d₀ : fs.Disk) where
  open fs use {Disk, content}

  abbrev pub body_sent : ℕ → Bytes
  body_sent i = sent (jobs i).buckets

  abbrev pub text_of : ℕ → Bytes
  text_of i = entry_text dec tb fs (jobs i).clock (jobs i).request (ctx_of (jobs i) [] 0)

  -- The response was complete, and no read of its buckets failed.
  abbrev pub Complete : ℕ → Type 0
  Complete i =
      (is_complete dec tb fs (jobs i).request.r (ctx_of (jobs i) [] (length (body_sent i))) ≡ true)
      × Reads (jobs i).buckets

  -- What a path of an entry may hold: what it held at first, nothing, or the whole header or the
  -- whole body of one response of that entry that was complete and of which all was read.
  pub data Whole (d : Disk) (x : Bytes) : Type 0 where
    as_before : content d x ≡ content d₀ x → Whole d x
    gone : content d x ≡ none → Whole d x
    header_of :
        (i : ℕ) → (jobs i).header_path ≡ x → content d x ≡ some (text_of i) → Complete i → Whole d x
    body_of_job :
        (i : ℕ) → (jobs i).body_path ≡ x → content d x ≡ some (body_sent i) → Complete i → Whole d x

  pub Whole_by : {d d' : Disk} (x : Bytes) → content d' x ≡ content d x → Whole d x → Whole d' x
  Whole_by x e (as_before h) = as_before (e ∙ h)
  Whole_by x e (gone h) = gone (e ∙ h)
  Whole_by x e (header_of i p h c) = header_of i p (e ∙ h) c
  Whole_by x e (body_of_job i p h c) = body_of_job i p (e ∙ h) c

  pub remove-Whole : (d : Disk) (p x : Bytes) → Whole d x → Whole (fs.remove d p) x
  remove-Whole d p x w = elim (Bool-cases (str_eq x p)) [
    | inl e ↦ elim (fs.remove_self d p) [
      | inl none_left ↦
          gone
            (subst (λ y. content (fs.remove d p) y ≡ none) (sym ((str_eq_iff x p).0 e)) none_left)
      | inr same ↦
          Whole_by x
            (subst (λ y. content (fs.remove d p) y ≡ content d y) (sym ((str_eq_iff x p).0 e)) same)
            w
    ]
    | inr e ↦ Whole_by x (fs.remove_other d p x (λ f. cc (e, (str_eq_iff x p).1 f))) w
  ]

  -- A temporary name of request `i`, `k` bytes longer than the path of a body.
  pub record Mine (owner : Bytes → Option ℕ) (i k : ℕ) (p : Bytes) : Type 0 where
    pub owned : owner p ≡ some i
    pub long : length p ≡ size + k

  -- What may be removed: the own temporary files, and the body of the entry.
  abbrev pub Removable : (Bytes → Option ℕ) → ℕ → Bytes → Type 0
  Removable owner i p = Mine owner i 7 p ⊎ (Mine owner i 9 p ⊎ (length p ≡ size))

  pub record Capturing (d : Disk) (owner : Bytes → Option ℕ) (i : ℕ) (tmp : Bytes) (len : ℕ)
      (left : List Bucket) : Type 0 where
    pub acc : Bytes
    pub mine : Mine owner i 7 tmp
    pub there : content d tmp ≡ some acc
    pub counted : len ≡ length acc
    pub rest : acc ++ sent left ≡ body_sent i
    pub reads_rest : Reads left → Reads (jobs i).buckets

  pub record Publishing (d : Disk) (owner : Bytes → Option ℕ) (i : ℕ) (tmp header text : Bytes)
      : Type 0 where
    pub mine : Mine owner i 7 tmp
    pub there : content d tmp ≡ some (body_sent i)
    pub complete : Complete i
    pub header_mine : Mine owner i 9 header
    pub header_there : content d header ≡ some text

  pub record Moved (d : Disk) (owner : Bytes → Option ℕ) (i : ℕ) (tmp header : Bytes) : Type 0 where
    pub mine : Mine owner i 7 tmp
    pub complete : Complete i
    pub header_mine : Mine owner i 9 header
    pub header_there : content d header ≡ some (text_of i)

  abbrev pub Stands : Disk → (Bytes → Option ℕ) → ℕ → Phase → Type 0
  Stands d owner i waiting = Unit
  Stands d owner i with_dirs = Unit
  Stands d owner i (capturing tmp len left) = Capturing d owner i tmp len left
  Stands d owner i (header_open tmp header) = Publishing d owner i tmp header []
  Stands d owner i (header_written tmp header) = Publishing d owner i tmp header (text_of i)
  Stands d owner i (body_moved tmp header) = Moved d owner i tmp header
  Stands d owner i (removing ps) = All (Removable owner i) ps
  Stands d owner i finished = Unit

  pub record Sane (w : World dec tb fs) : Type 0 where
    pub entries : (x : Bytes) → length x ≤ size + 2 → Whole w.disk x
    pub requests : (i : ℕ) → Stands w.disk w.owner i (w.phases i)
