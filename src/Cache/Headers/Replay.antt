-- ===== src/Cache/Headers/Replay.antt =====
-- Header blocks written and replayed, in src/cacher_cache.c.
use apache_cacher.Prelude.{
  true, List, [], ◌∷◌, ◌++◌, append_assoc, append-nil, some, if◌then◌else◌, Bytes, codes, All,
  Lacks, All-append, ◌≡◌, ◌≢◌, inl, inr, refl, sym, ◌∙◌, ap, arith, Bool-cases,
}
use apache_cacher.Apr.{Strtok, Tables, Headers, NoSep}
use apache_cacher.Apr.Tokens.{tokens, tokens-first, tokens_end}
use apache_cacher.Request.{RequestRec}
use apache_cacher.Rules.First.{SameLetters}
use apache_cacher.Util.{skip_spaces}
use apache_cacher.Util.Header.{streq_ci_iff}
use apache_cacher.Util.Cookies.{split_at-append}
use apache_cacher.Cache.Headers.{
  status_header_name, name_is, is_uncacheable_header, header_line, dump_headers, header_of_line,
  headers_of_lines, block_headers, replay_header, replay_each, replay_headers,
}

-- Header text as HTTP allows it: no line break in it, no ':' in the name, and no space in front of
-- the value.
abbrev pub NoLeadingSpace : Bytes → Type 0
NoLeadingSpace [] = Unit
NoLeadingSpace (c ∷ s) = c ≢ b' '

abbrev pub NoBreak : Bytes → Type 0
NoBreak s = NoSep (codes "\r\n") s

pub record IsHeader (h : Bytes × Bytes) : Type 0 where
  pub name_no_colon : Lacks b':' h.0
  pub name_no_break : NoBreak h.0
  pub value_no_break : NoBreak h.1
  pub value_trimmed : NoLeadingSpace h.1

-- The headers that are stored, in their order.
abbrev pub cacheable : Headers → Headers
cacheable [] = []
cacheable ((key, value) ∷ hs) =
    if is_uncacheable_header key then cacheable hs else (key, value) ∷ cacheable hs

abbrev pub block_text : Headers → Bytes
block_text [] = []
block_text ((key, value) ∷ hs) = header_line key value ++ block_text hs

dump_headers-block_text :
    (hs : Headers) (text : Bytes) → dump_headers text hs ≡ text ++ block_text (cacheable hs)
unfolding dump_headers
dump_headers-block_text [] text = sym (append-nil text)
dump_headers-block_text ((key, value) ∷ hs) text = elim (Bool-cases (is_uncacheable_header key)) [
  | inl e ↦ rw e (dump_headers-block_text hs text)
  | inr e ↦ rw e (
      dump_headers-block_text hs (text ++ header_line key value)
      ∙ append_assoc text (header_line key value) (block_text (cacheable hs)))
]

cacheable-IsHeader : (hs : Headers) → All IsHeader hs → All IsHeader (cacheable hs)
cacheable-IsHeader [] h = tt
cacheable-IsHeader ((key, value) ∷ hs) h = elim (Bool-cases (is_uncacheable_header key)) [
  | inl e ↦ rw e (cacheable-IsHeader hs h.1)
  | inr e ↦ rw e (h.0, cacheable-IsHeader hs h.1)
]

-- A header line without its end.
abbrev bare_line : Bytes × Bytes → Bytes
bare_line (key, value) = key ++ (b':' ∷ b' ' ∷ value)

skip_spaces-trimmed : (s : Bytes) → NoLeadingSpace s → skip_spaces s ≡ s
unfolding skip_spaces
skip_spaces-trimmed [] h = refl
skip_spaces-trimmed (c ∷ s) h = ground arith

header_of_line-bare_line : (h : Bytes × Bytes) → IsHeader h → header_of_line (bare_line h) ≡ some h
unfolding header_of_line
header_of_line-bare_line (key, value) i =
    rw (split_at-append b':' key (b' ' ∷ value) i.name_no_colon)
      (ap (λ v. some (key, v)) (skip_spaces-trimmed value i.value_trimmed))

bare_line-NoBreak : (h : Bytes × Bytes) → IsHeader h → NoBreak (bare_line h)
bare_line-NoBreak (key, value) i =
    All-append _ key (b':' ∷ b' ' ∷ value) i.name_no_break (refl, (refl, i.value_no_break))

bare_line-ne-nil : (h : Bytes × Bytes) → bare_line h ≢ []
bare_line-ne-nil ([], value) e = cc
bare_line-ne-nil (x ∷ key, value) e = cc

block_text-bare_line :
    (key value : Bytes) (hs : Headers)
    → block_text ((key, value) ∷ hs) ≡ bare_line (key, value) ++ (b'\r' ∷ b'\n' ∷ block_text hs)
block_text-bare_line key value hs = simp append_assoc

-- The names that must never be replayed.
pub data Private (name : Bytes) : Type 0 where
  set_cookie : SameLetters name (codes "Set-Cookie") → Private name
  connection : SameLetters name (codes "Connection") → Private name
  keep_alive : SameLetters name (codes "Keep-Alive") → Private name
  transfer_encoding : SameLetters name (codes "Transfer-Encoding") → Private name
  content_length : SameLetters name (codes "Content-Length") → Private name
  status_name : SameLetters name status_header_name → Private name
  age : SameLetters name (codes "Age") → Private name

headers_of_lines-cons :
    (line : Bytes) (lines : List Bytes) (h : Bytes × Bytes)
    → header_of_line line ≡ some h
    → headers_of_lines (line ∷ lines) ≡ h ∷ headers_of_lines lines
unfolding headers_of_lines
headers_of_lines-cons line lines h e = rw e

headers_of_lines-nil : headers_of_lines [] ≡ []
unfolding headers_of_lines
headers_of_lines-nil = refl

Private-uncacheable : {name : Bytes} → Private name → is_uncacheable_header name ≡ true
unfolding is_uncacheable_header
Private-uncacheable {name} (set_cookie e) =
    ground (arith, (streq_ci_iff name (codes "Set-Cookie")).1 e)
Private-uncacheable {name} (connection e) =
    ground (arith, (streq_ci_iff name (codes "Connection")).1 e)
Private-uncacheable {name} (keep_alive e) =
    ground (arith, (streq_ci_iff name (codes "Keep-Alive")).1 e)
Private-uncacheable {name} (transfer_encoding e) =
    ground (arith, (streq_ci_iff name (codes "Transfer-Encoding")).1 e)
Private-uncacheable {name} (content_length e) =
    ground (arith, (streq_ci_iff name (codes "Content-Length")).1 e)
Private-uncacheable {name} (status_name e) =
    ground (arith, (streq_ci_iff name status_header_name).1 e)
Private-uncacheable {name} (age e) = ground (arith, (streq_ci_iff name (codes "Age")).1 e)

pub Private-same : {a b : Bytes} → SameLetters a b → Private b → Private a
Private-same s (set_cookie e) = set_cookie (s ∙ e)
Private-same s (connection e) = connection (s ∙ e)
Private-same s (keep_alive e) = keep_alive (s ∙ e)
Private-same s (transfer_encoding e) = transfer_encoding (s ∙ e)
Private-same s (content_length e) = content_length (s ∙ e)
Private-same s (status_name e) = status_name (s ∙ e)
Private-same s (age e) = age (s ∙ e)

module _ (tk : Strtok) (tb : Tables) where
  -- The block is read from behind a '\n', as each line leaves one.
  lines_after :
      (hs : Headers)
      → All IsHeader hs
      → headers_of_lines (tokens tk (codes "\r\n") (b'\n' ∷ block_text hs)) ≡ hs
  lines_after [] h = rw (tokens_end tk (codes "\r\n") (b'\n' ∷ []) (refl, tt)) headers_of_lines-nil
  lines_after ((key, value) ∷ hs) h =
      let one =
        tokens-first tk (codes "\r\n") (b'\n' ∷ []) (bare_line (key, value))
          (b'\r' ∷ b'\n' ∷ block_text hs) (refl, tt) (bare_line-NoBreak (key, value) h.0)
          (bare_line-ne-nil (key, value)) refl in
      let head = headers_of_lines-cons _ _ _ (header_of_line-bare_line (key, value) h.0) in
      rw (block_text-bare_line key value hs, one)
        (head ∙ ap (◌∷◌ (key, value)) (lines_after hs h.1))

  lines_of :
      (hs : Headers)
      → All IsHeader hs
      → headers_of_lines (tokens tk (codes "\r\n") (block_text hs)) ≡ hs
  lines_of [] h = rw (tokens_end tk (codes "\r\n") [] tt) headers_of_lines-nil
  lines_of ((key, value) ∷ hs) h =
      let one =
        tokens-first tk (codes "\r\n") [] (bare_line (key, value)) (b'\r' ∷ b'\n' ∷ block_text hs)
          tt (bare_line-NoBreak (key, value) h.0) (bare_line-ne-nil (key, value)) refl in
      let head = headers_of_lines-cons _ _ _ (header_of_line-bare_line (key, value) h.0) in
      rw (block_text-bare_line key value hs, one)
        (head ∙ ap (◌∷◌ (key, value)) (lines_after hs h.1))

  -- The replay loop meets exactly the response headers that may be stored, in their order, when
  -- the block was written from well-formed headers.
  pub block_headers-dump_headers :
      (hs : Headers) → All IsHeader hs → block_headers tk tb (dump_headers [] hs) ≡ cacheable hs
  unfolding block_headers
  block_headers-dump_headers hs h =
      rw (dump_headers-block_text hs []) (lines_of (cacheable hs) (cacheable-IsHeader hs h))

  replay_header-Private :
      (r : RequestRec) (key value name : Bytes)
      → Private name
      → tb.table_get (replay_header tk tb r key value).headers_out name
        ≡ tb.table_get r.headers_out name
  unfolding replay_header
  replay_header-Private r key value name p =
      elim (Bool-cases (name_is key (codes "Content-Type"))) [
        | inl c ↦ rw c
        | inr c ↦ elim (Bool-cases (is_uncacheable_header key)) [
          | inl u ↦ rw (c, u)
          | inr u ↦
              rw (c, u)
                (tb.get-setn_other r.headers_out key name value
                  (λ same. cc (u, Private-uncacheable (Private-same same p))))
        ]
      ]

  replay_each-Private :
      (hs : Headers) (r : RequestRec) (name : Bytes)
      → Private name
      → tb.table_get (replay_each tk tb r hs).headers_out name ≡ tb.table_get r.headers_out name
  unfolding replay_each
  replay_each-Private [] r name p = refl
  replay_each-Private ((key, value) ∷ hs) r name p =
      replay_each-Private hs (replay_header tk tb r key value) name p
      ∙ replay_header-Private r key value name p

  -- Whatever a header file holds, its replay leaves Set-Cookie, the connection's own headers, the
  -- status header and Age of the response as they were.
  pub replay_headers-Private :
      (r : RequestRec) (block name : Bytes)
      → Private name
      → tb.table_get (replay_headers tk tb r block).headers_out name
        ≡ tb.table_get r.headers_out name
  unfolding replay_headers
  replay_headers-Private r block name p = replay_each-Private (block_headers tk tb block) r name p
