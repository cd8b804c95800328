-- ===== src/Cache/Write/Publish.antt =====
-- `finalize_cache_entry` of src/cacher_cache.c: the files of the entry afterwards.
use apache_cacher.Prelude.{
  ◌+◌, Bool, true, false, [], ◌++◌, Option, none, some, Bytes, length, length-append, ◌≡◌, ◌≢◌, ◌⊎◌,
  inl, inr, refl, ◌∙◌, ap, arith,
}
use apache_cacher.Apr.{Decimal, Tables}
use apache_cacher.Request.{Request}
use apache_cacher.Cache.FileSystem.{FileSystem}
use apache_cacher.Cache.Write.{
  CacherOutCtx, Clock, temp_suffix, is_complete, withdraw, rename_header, rename_body, after_write,
  after_mktemp, entry_text, finalize_cache_entry,
}

-- Some call on a file failed.
pub data Failure (fs : FileSystem) : Type 0 where
  rename_failed : (d : fs.Disk) (p q : Bytes) → (fs.rename d p q).0 ≡ false → Failure fs
  write_failed : (d : fs.Disk) (p s : Bytes) → (fs.write_full d p s).0 ≡ false → Failure fs
  mktemp_failed : (d : fs.Disk) (t : Bytes) → (fs.mktemp d t).0 ≡ none → Failure fs
  dirs_failed : (d : fs.Disk) (p : Bytes) → (fs.make_dirs d p).0 ≡ false → Failure fs

-- The names of the files of one entry differ in length.
pub record PathsFit (ctx : CacherOutCtx) : Type 0 where
  pub header_length : length ctx.header_path ≡ length ctx.body_path + 2
  pub tmp_length : length ctx.tmp_body_path ≡ length ctx.body_path + 7

by_length : (p q : Bytes) → length p ≢ length q → p ≢ q
by_length p q n e = n (ap length e)

module _ (dec : Decimal) (tb : Tables) (fs : FileSystem) where
  open fs use {Disk, content}

  -- The header is still `before`, for a reason, or the entry is there, header and body.
  abbrev pub Outcome : CacherOutCtx → Option Bytes → Bytes → Bytes → Disk → Type 0
  Outcome ctx before text body d =
      ((content d ctx.header_path ≡ before) × Failure fs)
      ⊎ ((content d ctx.header_path ≡ some text) × (content d ctx.body_path ≡ some body))

  module _ (ctx : CacherOutCtx) (fit : PathsFit ctx) (before : Option Bytes)
      (text body : Bytes) where
    abbrev Ends : Disk → Type 0
    Ends = Outcome ctx before text body

    abbrev IsTempHeader : Bytes → Type 0
    IsTempHeader p = length p ≡ length ctx.body_path + 9

    record HeaderRenamed (w : Bool × Disk) : Type 0 where
      done :
          w.0 ≡ true
          → (content w.1 ctx.header_path ≡ some text) × (content w.1 ctx.body_path ≡ some body)
      failed : w.0 ≡ false → (content w.1 ctx.header_path ≡ before) × Failure fs

    withdraw_header :
        (tmp : Bytes) (d : Disk)
        → IsTempHeader tmp
        → content (withdraw dec tb fs ctx tmp d) ctx.header_path ≡ content d ctx.header_path
    unfolding withdraw
    withdraw_header tmp d t =
        fs.remove_other _ ctx.body_path ctx.header_path (by_length _ _ (omega arith))
        ∙ fs.remove_other _ tmp ctx.header_path (by_length _ _ (omega arith))
        ∙ fs.remove_other d ctx.tmp_body_path ctx.header_path (by_length _ _ (omega arith))

    rename_header-Ends :
        (tmp : Bytes) (w : Bool × Disk)
        → IsTempHeader tmp
        → HeaderRenamed w
        → Ends (rename_header dec tb fs ctx tmp w)
    unfolding rename_header
    rename_header-Ends tmp (true, d) t h = inr (h.done refl)
    rename_header-Ends tmp (false, d) t h =
        inl (withdraw_header tmp d t ∙ (h.failed refl).0, (h.failed refl).1)

    record BodyRenamed (tmp : Bytes) (w : Bool × Disk) : Type 0 where
      header_kept : content w.1 ctx.header_path ≡ before
      temp_kept : content w.1 tmp ≡ some text
      done : w.0 ≡ true → content w.1 ctx.body_path ≡ some body
      failed : w.0 ≡ false → Failure fs

    rename_body-Ends :
        (tmp : Bytes) (w : Bool × Disk)
        → IsTempHeader tmp
        → BodyRenamed tmp w
        → Ends (rename_body dec tb fs ctx tmp w)
    unfolding rename_body
    rename_body-Ends tmp (false, d) t h =
        inl (withdraw_header tmp d t ∙ h.header_kept, h.failed refl)
    rename_body-Ends tmp (true, d) t h =
        rename_header-Ends tmp (fs.rename d tmp ctx.header_path) t (record {
          done = λ e. (
            fs.rename_moves d tmp ctx.header_path e ∙ h.temp_kept,
            fs.rename_other d tmp ctx.header_path ctx.body_path (by_length _ _ (omega arith))
                  (by_length _ _ (omega arith))
                ∙ h.done refl,
          );
          failed = λ e. (
            fs.rename_fails d tmp ctx.header_path ctx.header_path e ∙ h.header_kept,
            rename_failed d tmp ctx.header_path e,
          );
        })

    record Written (tmp : Bytes) (w : Bool × Disk) : Type 0 where
      header_kept : content w.1 ctx.header_path ≡ before
      body_kept : content w.1 ctx.tmp_body_path ≡ some body
      done : w.0 ≡ true → content w.1 tmp ≡ some text
      failed : w.0 ≡ false → Failure fs

    after_write-Ends :
        (tmp : Bytes) (w : Bool × Disk)
        → IsTempHeader tmp
        → Written tmp w
        → Ends (after_write dec tb fs ctx tmp w)
    unfolding after_write
    after_write-Ends tmp (false, d) t h = inl (
      fs.remove_other _ ctx.tmp_body_path ctx.header_path (by_length _ _ (omega arith))
          ∙ fs.remove_other d tmp ctx.header_path (by_length _ _ (omega arith))
          ∙ h.header_kept,
      h.failed refl,
    )
    after_write-Ends tmp (true, d) t h =
        rename_body-Ends tmp (fs.rename d ctx.tmp_body_path ctx.body_path) t (record {
          header_kept =
              fs.rename_other d ctx.tmp_body_path ctx.body_path ctx.header_path
                (by_length _ _ (omega arith)) (by_length _ _ (omega arith))
              ∙ h.header_kept;
          temp_kept =
              fs.rename_other d ctx.tmp_body_path ctx.body_path tmp (by_length _ _ (omega arith))
                (by_length _ _ (omega arith))
              ∙ h.done refl;
          done = λ e. fs.rename_moves d ctx.tmp_body_path ctx.body_path e ∙ h.body_kept;
          failed = λ e. rename_failed d ctx.tmp_body_path ctx.body_path e;
        })

    record HeaderOpened (m : Option Bytes × Disk) : Type 0 where
      header_kept : content m.1 ctx.header_path ≡ before
      body_kept : content m.1 ctx.tmp_body_path ≡ some body
      done : (tmp : Bytes) → m.0 ≡ some tmp → IsTempHeader tmp × (content m.1 tmp ≡ some [])
      failed : m.0 ≡ none → Failure fs

    after_mktemp-Ends :
        (m : Option Bytes × Disk) → HeaderOpened m → Ends (after_mktemp dec tb fs ctx text m)
    unfolding after_mktemp
    after_mktemp-Ends (none, d) h = inl (
      fs.remove_other d ctx.tmp_body_path ctx.header_path (by_length _ _ (omega arith))
          ∙ h.header_kept,
      h.failed refl,
    )
    after_mktemp-Ends (some tmp, d) h =
        let (t, empty) = h.done tmp refl in
        after_write-Ends tmp (fs.write_full d tmp text) t (record {
          header_kept =
              fs.write_other d tmp ctx.header_path text (by_length _ _ (omega arith))
              ∙ h.header_kept;
          body_kept =
              fs.write_other d tmp ctx.tmp_body_path text (by_length _ _ (omega arith))
              ∙ h.body_kept;
          done = λ e. fs.write_appends d tmp [] text e empty;
          failed = λ e. write_failed d tmp text e;
        })

    -- The temporary header has a name of its own.
    opened_facts :
        (d : Disk)
        → content d ctx.header_path ≡ before
        → content d ctx.tmp_body_path ≡ some body
        → HeaderOpened (fs.mktemp d (ctx.header_path ++ temp_suffix))
    opened_facts d h b =
        let template = ctx.header_path ++ temp_suffix in
        let size = length-append ctx.header_path temp_suffix in
        record {
          header_kept =
              fs.mktemp_other d template ctx.header_path
                (λ e. absurd (omega (arith, fs.mktemp_length d template ctx.header_path e)))
              ∙ h;
          body_kept =
              fs.mktemp_other d template ctx.tmp_body_path
                (λ e. absurd (omega (arith, fs.mktemp_length d template ctx.tmp_body_path e)))
              ∙ b;
          done = λ tmp e.
              (omega (arith, fs.mktemp_length d template tmp e), fs.mktemp_empty d template tmp e);
          failed = λ e. mktemp_failed d template e;
        }

  -- A captured response that is complete is published whole, its header behind its body, or a call
  -- on a file failed and the header is as it was.
  pub finalize_cache_entry_complete :
      (clock : Clock) (q : Request) (ctx : CacherOutCtx) (d : Disk) (body : Bytes)
      → PathsFit ctx
      → content d ctx.tmp_body_path ≡ some body
      → is_complete dec tb fs q.r ctx ≡ true
      → Outcome ctx
          (content d ctx.header_path)
          (entry_text dec tb fs clock q ctx)
          body
          (finalize_cache_entry dec tb fs clock q ctx d)
  unfolding finalize_cache_entry
  finalize_cache_entry_complete clock q ctx d body fit b e =
      rw e (after_mktemp-Ends ctx fit _ _ body _ (opened_facts ctx fit _ _ body d refl b))

  -- A response of an aborted connection, or of another length than it declared, changes neither
  -- the header nor the body of the entry.
  pub finalize_cache_entry_incomplete :
      (clock : Clock) (q : Request) (ctx : CacherOutCtx) (d : Disk)
      → PathsFit ctx
      → is_complete dec tb fs q.r ctx ≡ false
      → (content (finalize_cache_entry dec tb fs clock q ctx d) ctx.header_path
          ≡ content d ctx.header_path)
        × (content (finalize_cache_entry dec tb fs clock q ctx d) ctx.body_path
            ≡ content d ctx.body_path)
  unfolding finalize_cache_entry
  finalize_cache_entry_incomplete clock q ctx d fit e = rw e (
    fs.remove_other d ctx.tmp_body_path ctx.header_path (by_length _ _ (omega arith)),
    fs.remove_other d ctx.tmp_body_path ctx.body_path (by_length _ _ (omega arith)),
  )
