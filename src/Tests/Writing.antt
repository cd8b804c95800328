-- ===== src/Tests/Writing.antt =====
-- Runs of the theorems on whole responses that pass the filter, and on their lookup.
use apache_cacher.Prelude.{
  All, true, List, [], ◌∷◌, ◌++◌, none, some, Bytes, codes, ◌≡◌, ◌≢◌, ◌⊎◌, refl, ap, ◌∙◌, arith,
  str_eq,
}
use apache_cacher.Prelude.Int.{pos, ◌+ℤ◌}
use apache_cacher.Rules.Fields.{allows_status, allows_content_type}
use apache_cacher.Glob.{glob_match}
use apache_cacher.Ctype.{to_lower}
use apache_cacher.Util.{streq_ci}
use apache_cacher.Cache.Key.Paths.{digest_of, cache_key_paths-digest_of}
use apache_cacher.Admin.{body_path_of}
use apache_cacher.Cache.Headers.{dump_headers}
use apache_cacher.Cache.Meta.RoundTrip.{stored_meta}
use apache_cacher.Cache.Lookup.{CacheHit, cache_lookup, entry_age}
use apache_cacher.Cache.Lookup.Served.{Serves, cache_lookup-output_filter}
use apache_cacher.Cache.Lookup.Found.{ReadableFiles, cache_lookup_after_filter}
use apache_cacher.Cache.Write.{
  Bucket, bytes, unreadable, eos, temp_suffix, fresh_ctx, is_complete, decide_cacheable,
  output_filter,
}
use apache_cacher.Cache.Write.Brigades.{filter_brigades, filter_brigades-joined}
use apache_cacher.Cache.Write.Untorn.{Untorn}
use apache_cacher.Cache.Write.Untorn.Filter.{NotLost}
use apache_cacher.Cache.Write.Untorn.Response.{output_filter-Untorn}
use apache_cacher.Cache.Write.Working.{Working}
use apache_cacher.Tests.Libs.{toy_strtok, toy_tables, toy_digest}
use apache_cacher.Tests.Decimals.{toy_decimal}
use apache_cacher.Tests.Disks.{ToyDisk, toy_fs, fill_template, put_other}
use apache_cacher.Tests.Matching.{blog_rule}
use apache_cacher.Tests.Requests.{visitor, visit}
use apache_cacher.Tests.Entries.{
  visitor-IsHeader, visit-IsStorable, clock, header_path, body_path, fresh, empty_disk, reply,
  plain_rule, key_header, key_body, key_paths,
}

-- a response one of whose buckets cannot be read
abbrev broken_reply : List Bucket
broken_reply = bytes (codes "h") ∷ unreadable 3 ∷ bytes (codes "i") ∷ []

output_filter-Untorn_example :
    Untorn toy_decimal toy_tables toy_fs clock visit fresh
      (empty_disk.at header_path)
      (empty_disk.at body_path)
      (codes "hi")
      (All NotLost broken_reply)
      (output_filter toy_decimal toy_tables toy_fs clock visit fresh empty_disk
        (broken_reply ++ eos ∷ [])).1
output_filter-Untorn_example =
    output_filter-Untorn toy_decimal toy_tables toy_fs clock visit blog_rule header_path body_path
      refl empty_disk broken_reply (tt, (tt, (tt, tt)))

filter_brigades-joined_example :
    filter_brigades toy_decimal toy_tables toy_fs clock visit
      (fresh, empty_disk)
      (reply ∷ broken_reply ∷ (eos ∷ []) ∷ [])
    ≡ output_filter toy_decimal toy_tables toy_fs clock visit fresh empty_disk
        (reply ++ broken_reply ++ eos ∷ [])
filter_brigades-joined_example =
    filter_brigades-joined toy_decimal toy_tables toy_fs clock visit fresh empty_disk reply
      (broken_reply ∷ (eos ∷ []) ∷ []) refl refl

module _ (header_path body_path : Bytes)
    (apart : fill_template (header_path ++ temp_suffix)
      ≢ fill_template (body_path ++ temp_suffix)) where
  abbrev pub header_temp_name : Bytes
  header_temp_name = fill_template (header_path ++ temp_suffix)

  abbrev pub body_temp_name : Bytes
  body_temp_name = fill_template (body_path ++ temp_suffix)

  pub body_made :
      (d : ToyDisk)
      → (d.at body_temp_name ≡ none) × (d.at header_temp_name ≡ none)
      → ((toy_fs.mktemp d (body_path ++ temp_suffix)).0 ≢ none)
        × ((toy_fs.mktemp d (body_path ++ temp_suffix)).1.at header_temp_name ≡ none)
  body_made d (b, h) =
      simp b (λ e. cc, put_other d.at body_temp_name header_temp_name (some []) apart ∙ h)

  pub appended :
      (d : ToyDisk) (p s more : Bytes)
      → d.at header_temp_name ≡ none
      → d.at p ≡ some s
      → ((toy_fs.write_full d p more).0 ≡ true)
        × ((toy_fs.write_full d p more).1.at header_temp_name ≡ none)
  appended d p s more h e =
      simp e (refl, put_other d.at p header_temp_name (some (s ++ more)) (λ f. cc (f, h, e)) ∙ h)

  pub header_made :
      (d : ToyDisk)
      → d.at header_temp_name ≡ none
      → ((toy_fs.mktemp d (header_path ++ temp_suffix)).0 ≢ none) × Unit {0}
  header_made d h = simp h (λ e. cc, tt)

  pub written :
      (d : ToyDisk) (p s more : Bytes)
      → Unit {0}
      → d.at p ≡ some s
      → ((toy_fs.write_full d p more).0 ≡ true) × Unit {0}
  written d p s more h e = simp e (refl, tt)

  pub moved :
      (d : ToyDisk) (p q s : Bytes)
      → Unit {0}
      → d.at p ≡ some s
      → ((toy_fs.rename d p q).0 ≡ true) × Unit {0}
  moved d p q s h e = simp e (refl, tt)

  abbrev pub toy_working : Working toy_fs header_path body_path
  toy_working = record {
    Idle = λ d. (d.at body_temp_name ≡ none) × (d.at header_temp_name ≡ none);
    Capturing = λ d. d.at header_temp_name ≡ none;
    Writing = λ d. Unit;
    dirs = λ d p h. (refl, h);
    body_temp = body_made;
    append = appended;
    header_temp = header_made;
    write = written;
    move = moved;
  }

temps_apart : fill_template (header_path ++ temp_suffix) ≢ fill_template (body_path ++ temp_suffix)
temps_apart = ground arith

abbrev pub toy_readable : ReadableFiles toy_fs
toy_readable = record { reads = λ d p s h. h; opens = λ d p s h. rw h refl }

abbrev after_reply : ToyDisk
after_reply =
    (output_filter toy_decimal toy_tables toy_fs clock visit
      (fresh_ctx plain_rule (key_header, key_body)) empty_disk (reply ++ eos ∷ [])).1

abbrev reply_hit : CacheHit
reply_hit = record {
  body_path = key_body;
  status = pos 200;
  length = 2;
  age = entry_age (stored_meta (pos 100) (pos 160) visit) (pos 121);
}

reply_is_hit :
    (cache_lookup toy_strtok toy_tables toy_decimal toy_digest toy_fs visit after_reply
      (pos 120)
      (pos 121)
      (some (codes "/c"))
      plain_rule).1
    ≡ some reply_hit
unfolding decide_cacheable allows_status allows_content_type glob_match str_eq to_lower is_complete
    dump_headers streq_ci ◌+ℤ◌
reply_is_hit =
    ap (λ w. w.1)
      (cache_lookup_after_filter toy_strtok toy_tables toy_decimal toy_digest toy_fs toy_readable
        visit visit empty_disk reply clock (pos 120) (pos 121) 200 (some (codes "/c")) plain_rule
        key_header key_body (toy_working key_header key_body (ground arith)) (refl, refl) refl
        (tt, (tt, tt)) refl key_paths visit-IsStorable visitor-IsHeader (ground arith)
        (omega arith)).0

cache_lookup-output_filter_example :
    (is_complete toy_decimal toy_tables toy_fs visitor
        (record (fresh_ctx plain_rule (key_header, key_body)) { body_len = 2 })
      ≡ true)
    × All NotLost reply
    × Serves toy_strtok toy_tables toy_decimal toy_digest toy_fs visit visit after_reply
        (pos 120)
        (pos 121)
        (pos 100)
        (pos 160)
        key_body
        (codes "hi")
        reply_hit
        (cache_lookup toy_strtok toy_tables toy_decimal toy_digest toy_fs visit after_reply
          (pos 120)
          (pos 121)
          (some (codes "/c"))
          plain_rule).0
unfolding dump_headers streq_ci to_lower str_eq ◌+ℤ◌
cache_lookup-output_filter_example =
    cache_lookup-output_filter toy_strtok toy_tables toy_decimal toy_digest toy_fs visit visit
      empty_disk reply clock (pos 120) (pos 121) 200 (some (codes "/c")) plain_rule key_header
      key_body reply_hit (tt, (tt, tt)) refl key_paths visit-IsStorable visitor-IsHeader
      (ground arith) reply_is_hit

cache_key_paths-digest_of_example :
    (body_path_of key_header ≡ key_body)
    × ((key_header ≡ key_header) ⊎ (key_body ≡ key_body)
        → digest_of toy_strtok toy_tables toy_digest visit plain_rule
          ≡ digest_of toy_strtok toy_tables toy_digest visit plain_rule)
cache_key_paths-digest_of_example =
    cache_key_paths-digest_of toy_strtok toy_tables toy_digest visit visit plain_rule plain_rule
      (codes "/c") key_header key_body key_header key_body key_paths key_paths
