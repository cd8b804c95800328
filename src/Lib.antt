-- ===== src/Lib.antt =====
-- Cacher, an Apache module that caches responses on disk under rules written in JSON.
--
-- A request enters at `cacher_handler` (src/mod_cacher.c). The handler first serves the admin
-- endpoints (src/cacher_admin.c); then it takes the ruleset of the request's directory from the
-- configuration (src/cacher_config.c), finds the first rule that covers the request
-- (src/cacher_rules.c), looks for cookies that bypass it (src/cacher_util.c), and looks the entry up
-- on disk (src/cacher_cache.c). On a hit it sends the body; on a miss it adds the output filter of
-- src/cacher_cache.c, which captures the response and publishes it.
--
-- Files:
--   Prelude, Ctype     shared tests, lists and integers; tolower and toupper
--   Glob               cacher_glob_match of src/cacher_rules.c
--   Cjson              the interface of third_party/cJSON.h that the rules parser calls
--   Rules              cacher_rule and cacher_ruleset of src/cacher_rules.h; Parse, Select and Fields
--                      hold cacher_ruleset_parse, cacher_ruleset_match and the three field tests;
--                      Memory holds cacher_ruleset_parse and cacher_ruleset_free over a heap
--   Apr                the interfaces of APR: apr_strtok, decimal numbers, MD5, header tables; Tokens
--                      is the loop over apr_strtok
--   Request            the fields of request_rec that are read or written, and its chain of `prev`
--   Util               src/cacher_util.c
--   Config             the configuration records, merging and directives of src/cacher_config.c;
--                      Directives runs the table cacher_cmds over a section
--   Config/RulesCache  the process-wide cache of rules files; Threads is its concurrent use
--   Cache              src/cacher_cache.c: Key (hex_encode_md5, build_cache_key_string,
--                      cache_key_paths), Headers (dump_header_cb and the replay loop), Meta
--                      (cacher_cache_read_meta and the text of a header file), Write
--                      (finalize_cache_entry, cacher_output_filter, cacher_cache_insert_filter),
--                      Lookup (cacher_cache_lookup), Root (cacher_cache_ensure_root and
--                      cacher_post_config of src/mod_cacher.c), FileSystem (the interface of APR's
--                      files); Write/Writers is the same filter in many requests at once
--   Admin              src/cacher_admin.c; Reached describes the header files of a directory tree
--   Handler            src/mod_cacher.c
--   Tests              concrete instances of the interfaces, and runs of the theorems on them
--
-- State is passed explicitly: the disk, the cache of rules files, the request, and the context of
-- the output filter. A C string is the list of its bytes, a null pointer is `none`, and the array of
-- status codes keeps the -1 that ends it. Where the code branches on the result of a call, a
-- function by clauses takes that result. Times are seconds, given as what apr_time_now returns.
--
-- In Write/Writers a turn of a request is one call on a file; requests take turns in any order, and
-- the files of entries are removed at any time. There a temporary name is not made a second time
-- (apr_file_mktemp draws it), and nobody but its request touches a temporary file.
--
-- The heap of Rules/Memory is the list of the live addresses and a list of answers that the
-- allocator will give, so a statement about every heap is one about every refusal.
--
-- Loops: `glob_loop` runs on `glob_fuel`, (length of value + 1) * (length of pattern + 2) + length
-- of pattern + 1 rounds: each retry moves on by a byte of the value, and between two retries the
-- pattern is read once. The loop over apr_strtok has one round more than the text has bytes, since
-- each token shortens what is left. All other loops are structural.
--
-- Not modelled: allocation outside the rules parser, which APR's pools serve; log lines; the layout
-- of the admin endpoint's text, whose values are kept; the hooks, which only hand functions to
-- Apache; cJSON and APR, which are the interfaces above. Directory walks read the tree as it is at
-- their start. An integer is unbounded but for the conversion of a stored status to an int and the
-- ranges that theorems name.
mod Prelude
pub mod Ctype
pub mod Glob
pub mod Cjson
pub mod Rules
pub mod Apr
pub mod Request
pub mod Util
pub mod Config
pub mod Cache
pub mod Admin
pub mod Handler
mod Tests
