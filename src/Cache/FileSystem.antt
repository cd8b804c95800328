-- ===== src/Cache/FileSystem.antt =====
-- What src/cacher_cache.c uses of APR's files, as a parameter. A path's content stands for the
-- regular file there; each call returns the disk that it leaves.
use apache_cacher.Prelude.{
  ℕ, Bool, true, false, [], ◌++◌, Option, none, some, Bytes, length, ◌≡◌, ◌≢◌, ◌⊎◌,
}

-- What the walk over a directory finds: nothing where it cannot be opened, else its entries, those
-- of subdirectories with what is found below.
mutual
  pub data DirTree : Type 0 where
    closed : DirTree
    opened : DirItems → DirTree

  pub data DirItems : Type 0 where
    done : DirItems
    file : Bytes → DirItems → DirItems
    dir : Bytes → DirTree → DirItems → DirItems

pub record FileSystem : Type 1 where
  pub Disk : Type 0
  pub content : Disk → Bytes → Option Bytes
  -- apr_file_open, apr_file_info_get and apr_file_read_full: the whole file
  pub file_read : Disk → Bytes → Option Bytes
  -- apr_file_open and apr_file_info_get: the size
  pub file_open : Disk → Bytes → Option ℕ
  -- apr_stat: the size
  pub stat_size : Disk → Bytes → Option ℕ
  -- apr_dir_open and apr_dir_read
  pub tree : Disk → Bytes → DirTree
  -- apr_file_remove
  pub remove : Disk → Bytes → Disk
  -- apr_file_rename
  pub rename : Disk → Bytes → Bytes → Bool × Disk
  -- apr_file_mktemp: the name that the template became
  pub mktemp : Disk → Bytes → Option Bytes × Disk
  -- apr_file_write_full, at the end of an open file
  pub write_full : Disk → Bytes → Bytes → Bool × Disk
  -- apr_dir_make_recursive
  pub make_dirs : Disk → Bytes → Bool × Disk
  pub file_read_content : (d : Disk) (p s : Bytes) → file_read d p ≡ some s → content d p ≡ some s
  pub file_open_content :
      (d : Disk) (p : Bytes) (n : ℕ)
      → file_open d p ≡ some n
      → (s : Bytes) × (content d p ≡ some s) × (length s ≡ n)
  pub remove_other : (d : Disk) (p x : Bytes) → x ≢ p → content (remove d p) x ≡ content d x
  pub remove_self :
      (d : Disk) (p : Bytes)
      → (content (remove d p) p ≡ none) ⊎ (content (remove d p) p ≡ content d p)
  pub rename_moves :
      (d : Disk) (p q : Bytes) → (rename d p q).0 ≡ true → content (rename d p q).1 q ≡ content d p
  pub rename_other :
      (d : Disk) (p q x : Bytes) → x ≢ p → x ≢ q → content (rename d p q).1 x ≡ content d x
  pub rename_fails :
      (d : Disk) (p q x : Bytes)
      → (rename d p q).0 ≡ false
      → content (rename d p q).1 x ≡ content d x
  -- The new file has a name as long as the template, is empty, and was not there before.
  pub mktemp_length : (d : Disk) (t p : Bytes) → (mktemp d t).0 ≡ some p → length p ≡ length t
  pub mktemp_empty :
      (d : Disk) (t p : Bytes) → (mktemp d t).0 ≡ some p → content (mktemp d t).1 p ≡ some []
  pub mktemp_new : (d : Disk) (t p : Bytes) → (mktemp d t).0 ≡ some p → content d p ≡ none
  pub mktemp_other :
      (d : Disk) (t x : Bytes) → (mktemp d t).0 ≢ some x → content (mktemp d t).1 x ≡ content d x
  pub write_appends :
      (d : Disk) (p s more : Bytes)
      → (write_full d p more).0 ≡ true
      → content d p ≡ some s
      → content (write_full d p more).1 p ≡ some (s ++ more)
  pub write_other :
      (d : Disk) (p x more : Bytes) → x ≢ p → content (write_full d p more).1 x ≡ content d x
  pub make_dirs_content : (d : Disk) (p x : Bytes) → content (make_dirs d p).1 x ≡ content d x
