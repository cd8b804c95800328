-- ===== src/Cache/Headers.antt =====
-- The header block of an entry: `is_uncacheable_header`, `dump_header_cb` and the replay loop of
-- `cacher_cache_lookup` in src/cacher_cache.c.
pub mod Replay
pub mod Carried
use apache_cacher.Prelude.{
  ℕ, Bool, true, false, ◌||◌, not, List, [], ◌∷◌, ◌++◌, Option, none, some, if◌then◌else◌, Bytes,
  codes,
}
use apache_cacher.Apr.{Strtok, Tables, Headers}
use apache_cacher.Apr.Tokens.{tokens}
use apache_cacher.Request.{RequestRec}
use apache_cacher.Util.{streq_ci, split_at, skip_spaces}

-- CACHER_STATUS_HEADER
abbrev pub status_header_name : Bytes
status_header_name = codes "X-Cacher"

abbrev pub name_is : Bytes → Bytes → Bool
name_is name fixed = streq_ci (some name) (some fixed)

unfoldable pub is_uncacheable_header : Bytes → Bool
is_uncacheable_header name =
    name_is name (codes "Connection")
    || (name_is name (codes "Keep-Alive")
        || (name_is name (codes "Transfer-Encoding")
            || (name_is name (codes "Content-Length")
                || (name_is name (codes "Set-Cookie")
                    || (name_is name status_header_name || name_is name (codes "Age"))))))

-- "Name: value\r\n"
abbrev pub header_line : Bytes → Bytes → Bytes
header_line key value = key ++ (b':' ∷ b' ' ∷ (value ++ (b'\r' ∷ b'\n' ∷ [])))

unfoldable pub dump_header_cb : Bytes → Bytes → Bytes → Bytes
dump_header_cb text key value =
    if not (is_uncacheable_header key) then text ++ header_line key value else text

-- apr_table_do with the callback, from the text so far
unfoldable pub dump_headers : Bytes → Headers → Bytes
unfolding dump_header_cb
dump_headers text [] = text
dump_headers text ((key, value) ∷ hs) = dump_headers (dump_header_cb text key value) hs

-- One line of the block: no header where there is no ':'.
abbrev pub trim_value : Option (Bytes × Bytes) → Option (Bytes × Bytes)
trim_value none = none
trim_value (some (name, value)) = some (name, skip_spaces value)

unfoldable pub header_of_line : Bytes → Option (Bytes × Bytes)
unfolding split_at skip_spaces
header_of_line line = trim_value (split_at b':' line)

abbrev pub cons_header : Option (Bytes × Bytes) → Headers → Headers
cons_header none hs = hs
cons_header (some h) hs = h ∷ hs

unfoldable pub headers_of_lines : List Bytes → Headers
unfolding header_of_line
headers_of_lines [] = []
headers_of_lines (line ∷ lines) = cons_header (header_of_line line) (headers_of_lines lines)

module _ (tk : Strtok) (tb : Tables) where
  -- the headers that the loop meets in a block
  unfoldable pub block_headers : Bytes → Headers
  unfolding headers_of_lines
  block_headers block = headers_of_lines (tokens tk (codes "\r\n") block)

  -- ap_set_content_type for the type, apr_table_setn for the rest
  unfoldable pub replay_header : RequestRec → Bytes → Bytes → RequestRec
  unfolding is_uncacheable_header
  replay_header r name value =
      if name_is name (codes "Content-Type")
      then record r { content_type = some value }
      else if not (is_uncacheable_header name)
      then record r { headers_out = tb.table_setn r.headers_out name value }
      else r

  unfoldable pub replay_each : RequestRec → Headers → RequestRec
  unfolding replay_header
  replay_each r [] = r
  replay_each r ((name, value) ∷ hs) = replay_each (replay_header r name value) hs

  unfoldable pub replay_headers : RequestRec → Bytes → RequestRec
  unfolding replay_each block_headers
  replay_headers r block = replay_each r (block_headers block)
