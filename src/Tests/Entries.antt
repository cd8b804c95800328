-- ===== src/Tests/Entries.antt =====
-- Runs of the theorems on entries of the cache: header blocks, header files, and their lookup.
use apache_cacher.Prelude.{
  if◌then◌else◌, ap, ◌≡◌, true, false, List, [], ◌∷◌, ◌++◌, none, some, Bytes, codes, All, refl,
  arith, str_eq,
}
use apache_cacher.Prelude.Int.{pos}
use apache_cacher.Prelude.Int.{◌-ℤ◌}
use apache_cacher.Rules.{CacherRule}
use apache_cacher.Ctype.{to_lower}
use apache_cacher.Request.{Request}
use apache_cacher.Util.{streq_ci, original_request}
use apache_cacher.Cache.Key.{cache_key_paths}
use apache_cacher.Cache.Headers.{dump_headers, replay_headers}
use apache_cacher.Cache.Headers.Replay.{IsHeader, set_cookie, replay_headers-Private}
use apache_cacher.Cache.Meta.{read_meta, file_text}
use apache_cacher.Cache.Meta.RoundTrip.{IsStorable, stored_meta, read_meta-file_text}
use apache_cacher.Cache.FileSystem.{closed}
use apache_cacher.Cache.Lookup.{CacheHit, cache_lookup, entry_age}
use apache_cacher.Cache.Lookup.Hit.{Backed, cache_lookup_hit, cache_lookup_stored}
use apache_cacher.Cache.Write.{CacherOutCtx, Clock, Bucket, bytes, fresh_ctx, output_filter}
use apache_cacher.Cache.Write.Publish.{PathsFit}
use apache_cacher.Cache.Write.Capture.{authorized, output_filter_declines}
use apache_cacher.Tests.Libs.{toy_strtok, toy_tables, toy_digest}
use apache_cacher.Tests.Decimals.{toy_decimal}
use apache_cacher.Tests.Disks.{ToyDisk, toy_fs}
use apache_cacher.Tests.Matching.{blog_rule}
use apache_cacher.Tests.Requests.{visitor, visit}

pub visitor-IsHeader : All IsHeader visitor.headers_out
visitor-IsHeader = (
  record {
    name_no_colon = ground arith;
    name_no_break = ground arith;
    value_no_break = ground arith;
    value_trimmed = ground arith;
  },
  (
    record {
      name_no_colon = ground arith;
      name_no_break = ground arith;
      value_no_break = ground arith;
      value_trimmed = ground arith;
    },
    tt,
  ),
)

abbrev hostile_block : Bytes
hostile_block = codes "set-cookie: a=b"

replay_headers-Private_example :
    toy_tables.table_get
      (replay_headers toy_strtok toy_tables visitor hostile_block).headers_out
      (codes "Set-Cookie")
    ≡ toy_tables.table_get visitor.headers_out (codes "Set-Cookie")
replay_headers-Private_example =
    replay_headers-Private toy_strtok toy_tables visitor hostile_block (codes "Set-Cookie")
      (set_cookie refl)

pub visit-IsStorable : IsStorable (pos 100) (pos 160) 200 visit
unfolding original_request
visit-IsStorable = record {
  created_range = ground arith;
  expires_range = ground arith;
  status_is = refl;
  status_pos = ground arith;
  status_range = ground arith;
  method_word = record {
    no_space = ground arith;
    no_newline = ground arith;
    no_zero = ground arith;
    filled = ground arith;
  };
  host_word = record {
    no_space = ground arith;
    no_newline = ground arith;
    no_zero = ground arith;
    filled = ground arith;
  };
  url_no_newline = ground arith;
  url_no_zero = ground arith;
  url_filled = ground arith;
}

abbrev etag_block : Bytes
etag_block = codes "Etag: x"

read_meta-file_text_example :
    read_meta toy_strtok toy_decimal
      (some (file_text toy_decimal (pos 100) (pos 160) visit etag_block))
    ≡ some (stored_meta (pos 100) (pos 160) visit, etag_block)
read_meta-file_text_example =
    read_meta-file_text toy_strtok toy_decimal (pos 100) (pos 160) 200 visit etag_block
      visit-IsStorable (ground arith)

abbrev pub clock : Clock
clock = record { created = pos 100; before_expiry = pos 100 }

abbrev pub header_path : Bytes
header_path = codes "/c/a.header"

abbrev pub body_path : Bytes
body_path = codes "/c/a.body"

abbrev pub fresh : CacherOutCtx
fresh = fresh_ctx blog_rule (header_path, body_path)

-- the context once two bytes were captured
abbrev captured : CacherOutCtx
captured = record fresh {
  tmp_body_path = codes "/c/a.body.aaaaaa";
  body_len = 2;
  started = true;
  cacheable = true;
}

abbrev pub empty_disk : ToyDisk
empty_disk = record { at = λ p. none; listing = closed }

abbrev captured_disk : ToyDisk
captured_disk = record {
  at = λ p. elim (str_eq p captured.tmp_body_path) [ true ↦ some (codes "hi") | false ↦ none ];
  listing = closed;
}

captured-PathsFit : PathsFit captured
captured-PathsFit = record { header_length = refl; tmp_length = refl }

abbrev aborted_visit : Request
aborted_visit = record { r = record visitor { aborted = true }; prevs = [] }

abbrev pub reply : List Bucket
reply = bytes (codes "h") ∷ bytes (codes "i") ∷ []

-- a visitor that is logged in
abbrev known_visit : Request
known_visit = record {
  r = record visitor { headers_in = (codes "Authorization", codes "Basic YQ==") ∷ [] };
  prevs = [];
}

output_filter_declines_example :
    output_filter toy_decimal toy_tables toy_fs clock known_visit fresh empty_disk reply
    ≡ (record fresh { started = true; cacheable = false; removed = true }, empty_disk)
unfolding to_lower str_eq
output_filter_declines_example =
    output_filter_declines toy_decimal toy_tables toy_fs clock known_visit blog_rule header_path
      body_path refl empty_disk reply (authorized (codes "Basic YQ==") refl)

abbrev pub plain_rule : CacherRule
plain_rule = record blog_rule { vary = none }

-- the bytes that the digest makes of the key of `visit`
abbrev key_hex : Bytes
key_hex = codes "4745540a682e6f72670a2f703f713d31"

abbrev pub key_header : Bytes
key_header = codes "/c/47/45/" ++ (key_hex ++ codes ".header")

abbrev pub key_body : Bytes
key_body = codes "/c/47/45/" ++ (key_hex ++ codes ".body")

abbrev stored_text : Bytes
stored_text = file_text toy_decimal (pos 100) (pos 160) visit (dump_headers [] visitor.headers_out)

abbrev stored_disk : ToyDisk
stored_disk = record {
  at = λ p.
      if str_eq p key_header
      then some stored_text
      else if str_eq p key_body
      then some (codes "hi")
      else none;
  listing = closed;
}

pub key_paths :
    cache_key_paths toy_strtok toy_tables toy_digest visit (some (codes "/c")) plain_rule
    ≡ some (key_header, key_body)
unfolding cache_key_paths original_request
key_paths = refl

stored_header : stored_disk.at key_header ≡ some stored_text
unfolding str_eq
stored_header = refl

abbrev stored_hit : CacheHit
stored_hit = record { body_path = key_body; status = pos 200; length = 2; age = pos 21 }

stored_is_hit :
    (cache_lookup toy_strtok toy_tables toy_decimal toy_digest toy_fs visit stored_disk
      (pos 120)
      (pos 121)
      (some (codes "/c"))
      plain_rule).1
    ≡ some stored_hit
unfolding entry_age ◌-ℤ◌ original_request str_eq dump_headers to_lower streq_ci
stored_is_hit =
    ap (λ w. w.1)
      (cache_lookup_stored toy_strtok toy_tables toy_decimal toy_digest toy_fs visit visit
        stored_disk (pos 120) (pos 121) (pos 100) (pos 160) 200 2 (some (codes "/c")) plain_rule
        key_header key_body key_paths refl refl visit-IsStorable visitor-IsHeader (ground arith)
        (omega arith))

cache_lookup_hit_example :
    (ps : Bytes × Bytes) × (cache_key_paths toy_strtok toy_tables toy_digest visit
        (some (codes "/c"))
        plain_rule
      ≡ some ps)
    × Backed toy_strtok toy_tables toy_decimal toy_digest toy_fs visit stored_disk
        (pos 120)
        (pos 121)
        ps
        stored_hit
cache_lookup_hit_example =
    cache_lookup_hit toy_strtok toy_tables toy_decimal toy_digest toy_fs visit stored_disk (pos 120)
      (pos 121) (some (codes "/c")) plain_rule stored_hit stored_is_hit
