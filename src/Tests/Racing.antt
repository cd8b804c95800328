-- ===== src/Tests/Racing.antt =====
-- Runs of the theorems on requests that take turns.
use apache_cacher.Prelude.{
  ℕ, zero, suc, subst, some_inj, some, [], ◌∷◌, ◌++◌, none, length, str_eq, inl, refl, arith, ◌≡◌,
  codes,
}
use apache_cacher.Prelude.Int.{pos, ◌+ℤ◌}
use apache_cacher.Util.{streq_ci}
use apache_cacher.Cache.Headers.{dump_headers}
use apache_cacher.Cache.Lookup.{CacheHit, cache_lookup}
use apache_cacher.Cache.Lookup.Raced.{HitOf, Printable, Reach-HitOf}
use apache_cacher.Rules.Fields.{allows_status, allows_content_type}
use apache_cacher.Glob.{glob_match}
use apache_cacher.Ctype.{to_lower}
use apache_cacher.Cache.Write.{is_complete, eos, decide_cacheable, output_filter}
use apache_cacher.Cache.Write.Writers.{
  Job, World, waiting, after, Reach, begins, goes, takes_turn, removed, turn, bucket_turn,
}
use apache_cacher.Cache.Write.Writers.Invariant.{Whole}
use apache_cacher.Cache.Write.Writers.Safety.{Reach-Whole}
use apache_cacher.Cache.Write.Writers.Solo.{Runs, output_filter-Runs}
use apache_cacher.Tests.Libs.{toy_strtok, toy_tables, toy_digest}
use apache_cacher.Tests.Decimals.{toy_decimal}
use apache_cacher.Tests.Disks.{toy_fs}
use apache_cacher.Tests.Matching.{blog_rule}
use apache_cacher.Tests.Requests.{visit}
use apache_cacher.Tests.Entries.{
  clock, header_path, body_path, fresh, empty_disk, reply, plain_rule, key_header, key_body,
  key_paths, visit-IsStorable,
}

abbrev toy_job : Job
toy_job = record {
  clock = clock;
  request = visit;
  rule = blog_rule;
  header_path = header_path;
  body_path = body_path;
  buckets = reply ++ eos ∷ [];
}

abbrev at_first : World toy_decimal toy_tables toy_fs
at_first = record { disk = empty_disk; phases = λ i. waiting; owner = λ t. none }

-- both requests make their directories, the first one opens its temporary body, and the body of
-- the entry is removed
abbrev at_last : World toy_decimal toy_tables toy_fs
at_last =
    let w = after toy_decimal toy_tables toy_fs toy_job 0 (
      after toy_decimal toy_tables toy_fs toy_job 1
        (after toy_decimal toy_tables toy_fs toy_job 0 at_first)) in
    record w { disk = toy_fs.remove w.disk body_path }

raced : Reach toy_decimal toy_tables toy_fs (λ i. toy_job) (length body_path) empty_disk at_last
unfolding turn decide_cacheable allows_status allows_content_type glob_match to_lower str_eq
raced =
    goes
      (goes (goes (goes begins (takes_turn 0 (λ t e. refl))) (takes_turn 1 (λ t e. refl)))
        (takes_turn 0 (λ t e. refl)))
      (removed body_path (inl refl))

Reach-Whole_example :
    Whole toy_decimal toy_tables toy_fs
      (λ i. toy_job)
      (length body_path)
      empty_disk
      at_last.disk
      header_path
Reach-Whole_example =
    Reach-Whole toy_decimal toy_tables toy_fs (λ i. toy_job) (length body_path) empty_disk
      (λ i. refl) (λ i. refl) {w = at_last} header_path raced (omega arith)

output_filter-Runs_example :
    Runs toy_decimal toy_tables toy_fs toy_job waiting empty_disk
      (output_filter toy_decimal toy_tables toy_fs clock visit fresh empty_disk
        (reply ++ eos ∷ [])).1
output_filter-Runs_example =
    output_filter-Runs toy_decimal toy_tables toy_fs toy_job reply (tt, (tt, tt)) refl empty_disk

abbrev keyed_job : Job
keyed_job = record toy_job { rule = plain_rule; header_path = key_header; body_path = key_body }

-- the worlds in which the first request alone took its turns
abbrev turns : ℕ → World toy_decimal toy_tables toy_fs
turns zero = at_first
turns (suc n) = after toy_decimal toy_tables toy_fs keyed_job 0 (turns n)

abbrev Played : ℕ → Type 0
Played n =
    Reach toy_decimal toy_tables toy_fs (λ i. keyed_job) (length key_body) empty_disk (turns n)

opened_run : Played 2
unfolding turn decide_cacheable allows_status allows_content_type glob_match to_lower str_eq
opened_run = goes (goes begins (takes_turn 0 (λ t e. refl))) (takes_turn 0 (λ t e. refl))

captured_run : Played 4
unfolding turn bucket_turn decide_cacheable allows_status allows_content_type glob_match to_lower
    str_eq
captured_run =
    goes (goes opened_run (takes_turn 0 (λ t e. absurd (cc)))) (takes_turn 0 (λ t e. absurd (cc)))

ended_run : Played 5
unfolding turn bucket_turn decide_cacheable allows_status allows_content_type glob_match to_lower
    str_eq is_complete
ended_run =
    goes captured_run
      (takes_turn 0 (λ t e. subst (λ x. (turns 4).owner x ≡ none) (some_inj _ _ e) refl))

whole_run : Played 8
unfolding turn bucket_turn decide_cacheable allows_status allows_content_type glob_match to_lower
    str_eq is_complete
whole_run =
    goes
      (goes (goes ended_run (takes_turn 0 (λ t e. absurd (cc))))
        (takes_turn 0 (λ t e. absurd (cc))))
      (takes_turn 0 (λ t e. absurd (cc)))

abbrev raced_hit : CacheHit
raced_hit = record { body_path = key_body; status = pos 200; length = 2; age = pos 21 }

raced_is_hit :
    (cache_lookup toy_strtok toy_tables toy_decimal toy_digest toy_fs visit
      (turns 8).disk
      (pos 120)
      (pos 121)
      (some (codes "/c"))
      plain_rule).1
    ≡ some raced_hit
unfolding turn bucket_turn decide_cacheable allows_status allows_content_type glob_match to_lower
    str_eq is_complete cache_lookup apache_cacher.Util.original_request
    apache_cacher.Cache.Meta.file_text apache_cacher.Prelude.strip_prefix ◌+ℤ◌
    apache_cacher.Apr.Tokens.tokens
raced_is_hit = refl

visit-Printable :
    (i : ℕ)
    → Printable toy_strtok toy_tables toy_decimal toy_digest toy_fs
        (λ i. keyed_job)
        (length key_body)
        empty_disk
        i
unfolding dump_headers streq_ci to_lower str_eq ◌+ℤ◌
    apache_cacher.Cache.Headers.is_uncacheable_header
visit-Printable i = record { code = 200; storable = visit-IsStorable; no_zero = omega arith }

Reach-HitOf_example :
    HitOf toy_strtok toy_tables toy_decimal toy_digest toy_fs
      (λ i. keyed_job)
      (length key_body)
      empty_disk
      (turns 8).disk
      key_header
      key_body
      raced_hit
Reach-HitOf_example =
    Reach-HitOf toy_strtok toy_tables toy_decimal toy_digest toy_fs (λ i. keyed_job)
      (length key_body) empty_disk {w = turns 8} (λ i. refl) (λ i. refl) visit (pos 120) (pos 121)
      (some (codes "/c")) plain_rule key_header key_body raced_hit whole_run visit-Printable
      key_paths refl refl refl refl raced_is_hit
