-- ===== src/Cache/Write/Untorn.antt =====
-- `finalize_cache_entry` and `cacher_output_filter` of src/cacher_cache.c: what stands under the two
-- names of an entry, whatever calls fail.
pub mod Filter
pub mod Response
use apache_cacher.Prelude.{
  ℕ, zero, suc, ◌+◌, Bool, true, false, List, [], ◌∷◌, ◌++◌, append_assoc, append-nil, Option, none,
  some, Bytes, length, length-append, All, ◌≡◌, ◌≢◌, ◌≤◌, ◌⊎◌, inl, inr, refl, ◌∙◌, ap, arith,
  Bool-cases,
}
use apache_cacher.Apr.{Decimal, Tables}
use apache_cacher.Request.{Request}
use apache_cacher.Rules.{CacherRule}
use apache_cacher.Cache.FileSystem.{FileSystem}
use apache_cacher.Cache.Write.{
  CacherOutCtx, Bucket, eos, metadata, bytes, unreadable, Clock, temp_suffix, before_last,
  shard_dir_of, fresh_ctx, is_complete, withdraw, rename_header, rename_body, after_write,
  after_mktemp, entry_text, finalize_cache_entry, abandon, after_capture, capture_bucket,
  bucket_step, bucket_loop, decide_cacheable, opened, after_dirs, start, output_filter,
}
use apache_cacher.Cache.Write.Publish.{PathsFit}
use apache_cacher.Cache.Write.Buckets.{body_of, loop, loop_idle}

by_length : (p q : Bytes) → length p ≢ length q → p ≢ q
by_length p q n e = n (ap length e)

module _ (dec : Decimal) (tb : Tables) (fs : FileSystem) (clock : Clock) (q : Request) where
  open fs use {Disk, content}

  -- The entry is not torn, `all_read` saying that every part of the response was read. Its header
  -- is as before, and its body as before or gone; or the header and the whole body of a complete
  -- response of which all was read are there; or such a body is there below the old header, stuck
  -- between two calls that failed, the rename of the header and then the removal of that body.
  pub data Untorn (ctx : CacherOutCtx) (header body : Option Bytes) (data_of : Bytes)
      (all_read : Type 0) (d : Disk) : Type 0 where
    kept :
        content d ctx.header_path ≡ header
        → (content d ctx.body_path ≡ body) ⊎ (content d ctx.body_path ≡ none)
        → Untorn ctx header body data_of all_read d
    published :
        content d ctx.header_path ≡ some (entry_text dec tb fs clock q ctx)
        → content d ctx.body_path ≡ some data_of
        → is_complete dec tb fs q.r (record ctx { body_len = length data_of }) ≡ true
        → all_read
        → Untorn ctx header body data_of all_read d
    stuck :
        (renamed_from removed_from : Disk) (tmp : Bytes)
        → (fs.rename renamed_from tmp ctx.header_path).0 ≡ false
        → d ≡ fs.remove removed_from ctx.body_path
        → content d ctx.header_path ≡ header
        → content d ctx.body_path ≡ some data_of
        → is_complete dec tb fs q.r (record ctx { body_len = length data_of }) ≡ true
        → all_read
        → Untorn ctx header body data_of all_read d

  -- mktemp leaves a file of another length alone.
  pub mktemp_kept :
      (d : Disk) (template x : Bytes)
      → length x ≢ length template
      → content (fs.mktemp d template).1 x ≡ content d x
  mktemp_kept d template x n =
      fs.mktemp_other d template x (λ e. n (fs.mktemp_length d template x e))

  module _ (ctx : CacherOutCtx) (fit : PathsFit ctx) (header body : Option Bytes) where
    abbrev pub at : ℕ → CacherOutCtx
    at n = record ctx { body_len = n }

    -- Neither name of the entry was touched.
    abbrev pub Quiet : Disk → Type 0
    Quiet d = (content d ctx.header_path ≡ header) × (content d ctx.body_path ≡ body)

    pub dropped_temp-Quiet :
        (tmp : Bytes) (d : Disk)
        → length ctx.body_path + 7 ≤ length tmp
        → Quiet d
        → Quiet (fs.remove d tmp)
    dropped_temp-Quiet tmp d t (h, b) = (
      fs.remove_other d tmp ctx.header_path (by_length _ _ (omega arith)) ∙ h,
      fs.remove_other d tmp ctx.body_path (by_length _ _ (omega arith)) ∙ b,
    )

    module _ (data_of : Bytes) (all_read : Type 0) where
      abbrev pub Safe : Disk → Type 0
      Safe = Untorn ctx header body data_of all_read

      abbrev here : CacherOutCtx
      here = at (length data_of)

      abbrev text : Bytes
      text = entry_text dec tb fs clock q ctx

      pub Quiet-Safe : (d : Disk) → Quiet d → Safe d
      Quiet-Safe d (h, b) = kept h (inl b)

      record Withdrawn (d d' : Disk) : Type 0 where
        header_kept : content d' ctx.header_path ≡ content d ctx.header_path
        body_left :
            (content d' ctx.body_path ≡ content d ctx.body_path) ⊎ (content d' ctx.body_path ≡ none)
        removed_from : Disk
        by_removal : d' ≡ fs.remove removed_from ctx.body_path

      withdraw-Withdrawn :
          (tmp : Bytes) (d : Disk)
          → length tmp ≡ length ctx.body_path + 9
          → Withdrawn d (withdraw dec tb fs here tmp d)
      unfolding withdraw
      withdraw-Withdrawn tmp d t =
          let d₁ = fs.remove d ctx.tmp_body_path in
          let d₂ = fs.remove d₁ tmp in
          record {
            header_kept =
                fs.remove_other d₂ ctx.body_path ctx.header_path (by_length _ _ (omega arith))
                ∙ fs.remove_other d₁ tmp ctx.header_path (by_length _ _ (omega arith))
                ∙ fs.remove_other d ctx.tmp_body_path ctx.header_path (by_length _ _ (omega arith));
            body_left = elim (fs.remove_self d₂ ctx.body_path) [
              | inl gone ↦ inr gone
              | inr same ↦ inl (
                  same
                  ∙ fs.remove_other d₁ tmp ctx.body_path (by_length _ _ (omega arith))
                  ∙ fs.remove_other d ctx.tmp_body_path ctx.body_path (by_length _ _ (omega arith)))
            ];
            removed_from = d₂;
            by_removal = refl;
          }

      withdraw-Safe :
          (tmp : Bytes) (d : Disk)
          → length tmp ≡ length ctx.body_path + 9
          → Quiet d
          → Safe (withdraw dec tb fs here tmp d)
      withdraw-Safe tmp d t (h, b) =
          let w = withdraw-Withdrawn tmp d t in
          kept (w.header_kept ∙ h)
            (elim w.body_left [ inl same ↦ inl (same ∙ b) | inr gone ↦ inr gone ])

      record Renamed (w : Bool × Disk) : Type 0 where
        renamed_from : Disk
        temp : Bytes
        failed : w.0 ≡ false → (fs.rename renamed_from temp ctx.header_path).0 ≡ false
        there : w.0 ≡ true → content w.1 ctx.header_path ≡ some text
        not_there : w.0 ≡ false → content w.1 ctx.header_path ≡ header
        body_there : content w.1 ctx.body_path ≡ some data_of

      rename_header-Safe :
          (tmp : Bytes) (w : Bool × Disk)
          → length tmp ≡ length ctx.body_path + 9
          → is_complete dec tb fs q.r here ≡ true
          → all_read
          → Renamed w
          → Safe (rename_header dec tb fs here tmp w)
      unfolding rename_header
      rename_header-Safe tmp (true, d) t c a r = published (r.there refl) r.body_there c a
      rename_header-Safe tmp (false, d) t c a r =
          let w = withdraw-Withdrawn tmp d t in
          let h = w.header_kept ∙ r.not_there refl in
          elim w.body_left [
            | inl same ↦
                stuck r.renamed_from w.removed_from r.temp (r.failed refl) w.by_removal h
                  (same ∙ r.body_there) c a
            | inr gone ↦ kept h (inr gone)
          ]

      record Moved (tmp : Bytes) (w : Bool × Disk) : Type 0 where
        header_kept : content w.1 ctx.header_path ≡ header
        text_there : content w.1 tmp ≡ some text
        body_there : w.0 ≡ true → content w.1 ctx.body_path ≡ some data_of
        body_kept : w.0 ≡ false → content w.1 ctx.body_path ≡ body

      rename_body-Safe :
          (tmp : Bytes) (w : Bool × Disk)
          → length tmp ≡ length ctx.body_path + 9
          → is_complete dec tb fs q.r here ≡ true
          → all_read
          → Moved tmp w
          → Safe (rename_body dec tb fs here tmp w)
      unfolding rename_body
      rename_body-Safe tmp (false, d) t c a m =
          withdraw-Safe tmp d t (m.header_kept, m.body_kept refl)
      rename_body-Safe tmp (true, d) t c a m =
          rename_header-Safe tmp (fs.rename d tmp ctx.header_path) t c a (record {
            renamed_from = d;
            temp = tmp;
            failed = λ e. e;
            there = λ e. fs.rename_moves d tmp ctx.header_path e ∙ m.text_there;
            not_there =
                λ e. fs.rename_fails d tmp ctx.header_path ctx.header_path e ∙ m.header_kept;
            body_there =
                fs.rename_other d tmp ctx.header_path ctx.body_path (by_length _ _ (omega arith))
                  (by_length _ _ (omega arith))
                ∙ m.body_there refl;
          })

      record Written (tmp : Bytes) (w : Bool × Disk) : Type 0 where
        quiet : Quiet w.1
        captured : content w.1 ctx.tmp_body_path ≡ some data_of
        text_there : w.0 ≡ true → content w.1 tmp ≡ some text

      after_write-Safe :
          (tmp : Bytes) (w : Bool × Disk)
          → length tmp ≡ length ctx.body_path + 9
          → is_complete dec tb fs q.r here ≡ true
          → all_read
          → Written tmp w
          → Safe (after_write dec tb fs here tmp w)
      unfolding after_write
      after_write-Safe tmp (false, d) t c a r = Quiet-Safe _ (
          dropped_temp-Quiet ctx.tmp_body_path (fs.remove d tmp) (omega arith)
            (dropped_temp-Quiet tmp d (omega arith) r.quiet))
      after_write-Safe tmp (true, d) t c a r =
          rename_body-Safe tmp (fs.rename d ctx.tmp_body_path ctx.body_path) t c a (record {
            header_kept =
                fs.rename_other d ctx.tmp_body_path ctx.body_path ctx.header_path
                  (by_length _ _ (omega arith)) (by_length _ _ (omega arith))
                ∙ r.quiet.0;
            text_there =
                fs.rename_other d ctx.tmp_body_path ctx.body_path tmp (by_length _ _ (omega arith))
                  (by_length _ _ (omega arith))
                ∙ r.text_there refl;
            body_there = λ e. fs.rename_moves d ctx.tmp_body_path ctx.body_path e ∙ r.captured;
            body_kept =
                λ e. fs.rename_fails d ctx.tmp_body_path ctx.body_path ctx.body_path e ∙ r.quiet.1;
          })

      record TempMade (m : Option Bytes × Disk) : Type 0 where
        quiet : Quiet m.1
        captured : content m.1 ctx.tmp_body_path ≡ some data_of
        named :
            (tmp : Bytes)
            → m.0 ≡ some tmp
            → (length tmp ≡ length ctx.body_path + 9) × (content m.1 tmp ≡ some [])

      written :
          (tmp : Bytes) (d : Disk)
          → length tmp ≡ length ctx.body_path + 9
          → Quiet d
          → content d ctx.tmp_body_path ≡ some data_of
          → content d tmp ≡ some []
          → Written tmp (fs.write_full d tmp text)
      written tmp d t (h, b) captured empty = record {
        quiet = (
          fs.write_other d tmp ctx.header_path text (by_length _ _ (omega arith)) ∙ h,
          fs.write_other d tmp ctx.body_path text (by_length _ _ (omega arith)) ∙ b,
        );
        captured =
            fs.write_other d tmp ctx.tmp_body_path text (by_length _ _ (omega arith)) ∙ captured;
        text_there = λ e. fs.write_appends d tmp [] text e empty;
      }

      after_mktemp-Safe :
          (m : Option Bytes × Disk)
          → is_complete dec tb fs q.r here ≡ true
          → all_read
          → TempMade m
          → Safe (after_mktemp dec tb fs here text m)
      unfolding after_mktemp
      after_mktemp-Safe (none, d) c a m =
          Quiet-Safe _ (dropped_temp-Quiet ctx.tmp_body_path d (omega arith) m.quiet)
      after_mktemp-Safe (some tmp, d) c a m =
          let (t, empty) = m.named tmp refl in
          after_write-Safe tmp (fs.write_full d tmp text) t c a
            (written tmp d t m.quiet m.captured empty)

      temp_made :
          (d : Disk)
          → Quiet d
          → content d ctx.tmp_body_path ≡ some data_of
          → TempMade (fs.mktemp d (ctx.header_path ++ temp_suffix))
      temp_made d (h, b) captured =
          let template = ctx.header_path ++ temp_suffix in
          let size = length-append ctx.header_path temp_suffix in
          record {
            quiet = (
              mktemp_kept d template ctx.header_path (omega arith) ∙ h,
              mktemp_kept d template ctx.body_path (omega arith) ∙ b,
            );
            captured = mktemp_kept d template ctx.tmp_body_path (omega arith) ∙ captured;
            named = λ tmp e. (
              omega (arith, fs.mktemp_length d template tmp e),
              fs.mktemp_empty d template tmp e,
            );
          }

      pub finalize_cache_entry-Untorn :
          (d : Disk)
          → all_read
          → Quiet d
          → content d ctx.tmp_body_path ≡ some data_of
          → Safe (finalize_cache_entry dec tb fs clock q here d)
      unfolding finalize_cache_entry
      finalize_cache_entry-Untorn d a quiet captured =
          elim (Bool-cases (is_complete dec tb fs q.r here)) [
            | inl c ↦ rw c (after_mktemp-Safe _ c a (temp_made d quiet captured))
            | inr c ↦
                rw c (Quiet-Safe _ (dropped_temp-Quiet ctx.tmp_body_path d (omega arith) quiet))
          ]
