-- ===== src/Cache/Write/Working.antt =====
-- `finalize_cache_entry` and `cacher_output_filter` of src/cacher_cache.c on a disk whose calls
-- succeed.
pub mod Response
use apache_cacher.Prelude.{
  ℕ, zero, suc, ◌+◌, Bool, true, false, List, [], ◌∷◌, ◌++◌, append_assoc, append-nil, Option, none,
  some, Bytes, length, length-append, All, ◌≡◌, ◌≢◌, refl, sym, ◌∙◌, ap, arith,
}
use apache_cacher.Apr.{Decimal, Tables}
use apache_cacher.Request.{Request}
use apache_cacher.Rules.{CacherRule}
use apache_cacher.Cache.FileSystem.{FileSystem}
use apache_cacher.Cache.Write.{
  CacherOutCtx, Bucket, eos, metadata, bytes, unreadable, Clock, temp_suffix, before_last,
  shard_dir_of, fresh_ctx, is_complete, rename_header, rename_body, after_write, after_mktemp,
  entry_text, finalize_cache_entry, after_capture, capture_bucket, bucket_step, bucket_loop,
  decide_cacheable, opened, after_dirs, start, output_filter,
}
use apache_cacher.Cache.Write.Publish.{PathsFit}
use apache_cacher.Cache.Write.Buckets.{Readable, body_of, loop}
use apache_cacher.Cache.Write.Untorn.{mktemp_kept}

-- A disk with room, on which nobody else makes a temporary file for this entry: the calls of the
-- filter succeed, from an idle disk through the capture of the body to the two renames.
pub record Working (fs : FileSystem) (header_path body_path : Bytes) : Type 1 where
  pub Idle : fs.Disk → Type 0
  pub Capturing : fs.Disk → Type 0
  pub Writing : fs.Disk → Type 0
  pub dirs :
      (d : fs.Disk) (p : Bytes) → Idle d → ((fs.make_dirs d p).0 ≡ true) × Idle (fs.make_dirs d p).1
  pub body_temp :
      (d : fs.Disk)
      → Idle d
      → ((fs.mktemp d (body_path ++ temp_suffix)).0 ≢ none)
        × Capturing (fs.mktemp d (body_path ++ temp_suffix)).1
  pub append :
      (d : fs.Disk) (p s more : Bytes)
      → Capturing d
      → fs.content d p ≡ some s
      → ((fs.write_full d p more).0 ≡ true) × Capturing (fs.write_full d p more).1
  pub header_temp :
      (d : fs.Disk)
      → Capturing d
      → ((fs.mktemp d (header_path ++ temp_suffix)).0 ≢ none)
        × Writing (fs.mktemp d (header_path ++ temp_suffix)).1
  pub write :
      (d : fs.Disk) (p s more : Bytes)
      → Writing d
      → fs.content d p ≡ some s
      → ((fs.write_full d p more).0 ≡ true) × Writing (fs.write_full d p more).1
  pub move :
      (d : fs.Disk) (p q s : Bytes)
      → Writing d
      → fs.content d p ≡ some s
      → ((fs.rename d p q).0 ≡ true) × Writing (fs.rename d p q).1

by_length : (p q : Bytes) → length p ≢ length q → p ≢ q
by_length p q n e = n (ap length e)

module _ (dec : Decimal) (tb : Tables) (fs : FileSystem) (clock : Clock) (q : Request) where
  open fs use {Disk, content}

  module _ (ctx : CacherOutCtx) (fit : PathsFit ctx) (data_of : Bytes)
      (wk : Working fs ctx.header_path ctx.body_path) where
    abbrev text : Bytes
    text = entry_text dec tb fs clock q ctx

    abbrev here : CacherOutCtx
    here = record ctx { body_len = length data_of }

    abbrev pub Done : Disk → Type 0
    Done d = (content d ctx.header_path ≡ some text) × (content d ctx.body_path ≡ some data_of)

    rename_header-Done :
        (tmp : Bytes) (w : Bool × Disk)
        → w.0 ≡ true
        → Done w.1
        → Done (rename_header dec tb fs here tmp w)
    unfolding rename_header
    rename_header-Done tmp (true, d) e done = done
    rename_header-Done tmp (false, d) e done = absurd (cc)

    rename_body-Done :
        (tmp : Bytes) (w : Bool × Disk)
        → w.0 ≡ true
        → length tmp ≡ length ctx.body_path + 9
        → wk.Writing w.1
        → content w.1 tmp ≡ some text
        → content w.1 ctx.body_path ≡ some data_of
        → Done (rename_body dec tb fs here tmp w)
    unfolding rename_body
    rename_body-Done tmp (false, d) e t k h b = absurd (cc)
    rename_body-Done tmp (true, d) e t k h b =
        let (moved, _) = wk.move d tmp ctx.header_path text k h in
        rename_header-Done tmp (fs.rename d tmp ctx.header_path) moved (
          fs.rename_moves d tmp ctx.header_path moved ∙ h,
          fs.rename_other d tmp ctx.header_path ctx.body_path (by_length _ _ (omega arith))
                (by_length _ _ (omega arith))
              ∙ b,
        )

    after_write-Done :
        (tmp : Bytes) (w : Bool × Disk)
        → w.0 ≡ true
        → length tmp ≡ length ctx.body_path + 9
        → wk.Writing w.1
        → content w.1 tmp ≡ some text
        → content w.1 ctx.tmp_body_path ≡ some data_of
        → Done (after_write dec tb fs here tmp w)
    unfolding after_write
    after_write-Done tmp (false, d) e t k h b = absurd (cc)
    after_write-Done tmp (true, d) e t k h b =
        let (moved, k₂) = wk.move d ctx.tmp_body_path ctx.body_path data_of k b in
        rename_body-Done tmp (fs.rename d ctx.tmp_body_path ctx.body_path) moved t k₂
          (fs.rename_other d ctx.tmp_body_path ctx.body_path tmp (by_length _ _ (omega arith))
              (by_length _ _ (omega arith))
            ∙ h)
          (fs.rename_moves d ctx.tmp_body_path ctx.body_path moved ∙ b)

    after_mktemp-Done :
        (m : Option Bytes × Disk)
        → m.0 ≢ none
        → ((tmp : Bytes)
            → m.0 ≡ some tmp
            → (length tmp ≡ length ctx.body_path + 9) × (content m.1 tmp ≡ some []))
        → wk.Writing m.1
        → content m.1 ctx.tmp_body_path ≡ some data_of
        → Done (after_mktemp dec tb fs here text m)
    unfolding after_mktemp
    after_mktemp-Done (none, d) n named k b = absurd (n refl)
    after_mktemp-Done (some tmp, d) n named k b =
        let (t, empty) = named tmp refl in
        let (wrote, k₂) = wk.write d tmp [] text k empty in
        after_write-Done tmp (fs.write_full d tmp text) wrote t k₂
          (fs.write_appends d tmp [] text wrote empty)
          (fs.write_other d tmp ctx.tmp_body_path text (by_length _ _ (omega arith)) ∙ b)

    -- A complete response is published.
    finalize_cache_entry-Done :
        (d : Disk)
        → wk.Capturing d
        → content d ctx.tmp_body_path ≡ some data_of
        → is_complete dec tb fs q.r here ≡ true
        → Done (finalize_cache_entry dec tb fs clock q here d)
    unfolding finalize_cache_entry
    finalize_cache_entry-Done d k b e =
        let template = ctx.header_path ++ temp_suffix in
        let size = length-append ctx.header_path temp_suffix in
        let (made, k₂) = wk.header_temp d k in
        rw e (
          after_mktemp-Done (fs.mktemp d template) made
            (λ tmp m.
              (omega (arith, fs.mktemp_length d template tmp m), fs.mktemp_empty d template tmp m))
            k₂ (mktemp_kept dec tb fs clock q d template ctx.tmp_body_path (omega arith) ∙ b))

  module _ (ctx : CacherOutCtx) (fit : PathsFit ctx) (on : ctx.cacheable ≡ true)
      (wk : Working fs ctx.header_path ctx.body_path) (all : Bytes)
      (whole : is_complete dec tb fs q.r (record ctx { body_len = length all }) ≡ true) where
    abbrev at : ℕ → CacherOutCtx
    at n = record ctx { body_len = n }

    step_on :
        (n : ℕ) (d : Disk) (b : Bucket)
        → bucket_step dec tb fs clock q (at n, d) b ≡ capture_bucket dec tb fs clock q (at n) d b
    unfolding bucket_step
    step_on n d b = simp on

    loop_on :
        (n : ℕ) (d : Disk) (b : Bucket) (bs : List Bucket)
        → loop dec tb fs clock q (at n, d) (b ∷ bs)
          ≡ loop dec tb fs clock q (capture_bucket dec tb fs clock q (at n) d b) bs
    unfolding bucket_loop
    loop_on n d b bs = ap (λ st. loop dec tb fs clock q st bs) (step_on n d b)

    loop_nil : (st : CacherOutCtx × Disk) → loop dec tb fs clock q st [] ≡ st
    unfolding bucket_loop
    loop_nil st = refl

    after_capture-true :
        (n len : ℕ) (w : Bool × Disk)
        → w.0 ≡ true
        → after_capture dec tb fs (at n) len w ≡ (at (n + len), w.1)
    unfolding after_capture
    after_capture-true n len (true, d) e = refl
    after_capture-true n len (false, d) e = absurd (cc)

    pub loop-Done :
        (bs : List Bucket) (acc : Bytes) (d : Disk)
        → All Readable bs
        → wk.Capturing d
        → content d ctx.tmp_body_path ≡ some acc
        → acc ++ body_of bs ≡ all
        → Done ctx fit all wk (loop dec tb fs clock q (at (length acc), d) (bs ++ eos ∷ [])).1
    unfolding capture_bucket
    loop-Done [] acc d r k b e =
        let same = sym (append-nil acc) ∙ e in
        rw (loop_on (length acc) d eos [], loop_nil, same)
          (finalize_cache_entry-Done ctx fit all wk d k (b ∙ ap (λ x. some x) same) whole)
    loop-Done (eos ∷ bs) acc d r k b e = absurd r.0
    loop-Done (unreadable n ∷ bs) acc d r k b e = absurd r.0
    loop-Done (metadata ∷ bs) acc d r k b e =
        rw (loop_on (length acc) d metadata (bs ++ eos ∷ [])) (loop-Done bs acc d r.1 k b e)
    loop-Done (bytes [] ∷ bs) acc d r k b e =
        rw (loop_on (length acc) d (bytes []) (bs ++ eos ∷ [])) (loop-Done bs acc d r.1 k b e)
    loop-Done (bytes (c ∷ s) ∷ bs) acc d r k b e =
        let (wrote, k₂) = wk.append d ctx.tmp_body_path acc (c ∷ s) k b in
        rw
          (
            loop_on (length acc) d (bytes (c ∷ s)) (bs ++ eos ∷ []),
            after_capture-true (length acc) (length (c ∷ s))
                (fs.write_full d ctx.tmp_body_path (c ∷ s)) wrote,
            ← length-append acc (c ∷ s),
          )
          (loop-Done bs (acc ++ c ∷ s) _ r.1 k₂
            (fs.write_appends d ctx.tmp_body_path acc (c ∷ s) wrote b)
            (append_assoc acc (c ∷ s) (body_of bs) ∙ e))
