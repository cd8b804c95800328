-- ===== src/Cache/Meta/RoundTrip.antt =====
-- Header files of src/cacher_cache.c, written and read back.
use apache_cacher.Prelude.{
  ℕ, ◌^◌, ◌<◌, false, List, [], ◌∷◌, ◌++◌, append_assoc, append-nil, some, Bytes, codes, All,
  All-append, Lacks, strip_prefix, ◌≡◌, ◌≢◌, refl, sym, subst, ◌∙◌, ap, arith,
}
use apache_cacher.Prelude.Int.{ℤ, pos, eq_ℤ}
use apache_cacher.Apr.{Strtok, Decimal, NoSep, InInt64, DigitOrMinus}
use apache_cacher.Request.{Request}
use apache_cacher.Util.{original_request}
use apache_cacher.Cache.Key.{url_text}
use apache_cacher.Cache.Meta.{
  CacherEntryMeta, blank_meta, set_url, to_int, find_blank_line, url_field, host_field,
  method_field, url_fields, meta_line, meta_lines, checked_meta, meta_of_block, meta_of_version,
  meta_of_text, read_meta, host_text, file_text,
}
use apache_cacher.Cache.Meta.Text.{IsLine, joined, find_blank_line-joined, tokens-joined, c_text_id}

-- A word of the url line: no space, no newline, no terminator, not empty.
pub record IsWord (s : Bytes) : Type 0 where
  pub no_space : NoSep (codes " ") s
  pub no_newline : Lacks b'\n' s
  pub no_zero : Lacks 0 s
  pub filled : s ≢ []

-- What an entry needs in order to be read back.
pub record IsStorable (created expires : ℤ) (code : ℕ) (q : Request) : Type 0 where
  pub created_range : InInt64 created
  pub expires_range : InInt64 expires
  pub status_is : q.r.status ≡ pos code
  pub status_pos : 0 < code
  pub status_range : code < 2 ^ 31
  pub method_word : IsWord q.r.method
  pub host_word : IsWord (host_text q.r)
  pub url_no_newline : Lacks b'\n' (url_text (original_request q))
  pub url_no_zero : Lacks 0 (url_text (original_request q))
  pub url_filled : url_text (original_request q) ≢ []

abbrev pub stored_meta : ℤ → ℤ → Request → CacherEntryMeta
stored_meta created expires q = record {
  created = created;
  expires = expires;
  status = q.r.status;
  method = q.r.method;
  host = host_text q.r;
  url = url_text (original_request q);
}

to_int_id : (n : ℕ) → n < 2 ^ 31 → to_int (pos n) ≡ pos n
unfolding to_int
to_int_id n h = ground arith

number-Lacks : (b : ℕ) (s : Bytes) → ¬ DigitOrMinus b → All DigitOrMinus s → Lacks b s
number-Lacks b [] n h = tt
number-Lacks b (c ∷ s) n h = (λ e. n (subst DigitOrMinus e h.0), number-Lacks b s n h.1)

Lacks-joined :
    (b : ℕ) (line : Bytes) (lines : List Bytes)
    → b'\n' ≢ b
    → Lacks b line
    → All (Lacks b) lines
    → Lacks b (joined line lines)
Lacks-joined b line [] n h hs = h
Lacks-joined b line (next ∷ lines) n h hs =
    All-append _ line _ h (n, Lacks-joined b next lines n hs.0 hs.1)

no_sep : (s : Bytes) → NoSep [] s
no_sep [] = tt
no_sep (c ∷ s) = (refl, no_sep s)

module _ (tk : Strtok) (dec : Decimal) where
  url_fields_lem :
      (m h u : Bytes)
      → IsWord m
      → IsWord h
      → u ≢ []
      → url_fields tk (m ++ (b' ' ∷ (h ++ (b' ' ∷ u)))) ≡ some (m, h, u)
  unfolding url_fields
  url_fields_lem m h u im ih k =
      ap (method_field tk)
        (tk.strtok_token (codes " ") [] m (b' ' ∷ (h ++ (b' ' ∷ u))) tt im.no_space im.filled refl)
      ∙ ap (host_field tk m)
          (tk.strtok_token (codes " ") [] h (b' ' ∷ u) tt ih.no_space ih.filled refl)
      ∙ ap (url_field tk m h)
          (ap (tk.strtok []) (sym (append-nil u)) ∙ tk.strtok_token [] [] u [] tt (no_sep u) k tt)

  abbrev created_line : ℤ → Bytes
  created_line z = codes "created " ++ dec.print z

  abbrev expires_line : ℤ → Bytes
  expires_line z = codes "expires " ++ dec.print z

  abbrev status_line : ℤ → Bytes
  status_line z = codes "status " ++ dec.print z

  abbrev url_line : Request → Bytes
  url_line q =
      codes "url "
      ++ (q.r.method ++ (b' ' ∷ (host_text q.r ++ (b' ' ∷ url_text (original_request q)))))

  abbrev info_lines : ℤ → ℤ → Request → List Bytes
  info_lines created expires q =
      created_line created ∷ expires_line expires ∷ status_line q.r.status ∷ url_line q ∷ []

  file_text-joined :
      (created expires : ℤ) (q : Request) (dumped : Bytes)
      → file_text dec created expires q dumped
        ≡ joined (codes "CACHER/2") (info_lines created expires q) ++ (b'\n' ∷ b'\n' ∷ dumped)
  unfolding file_text
  file_text-joined created expires q dumped = simp append_assoc

  meta_lines-info_lines :
      (created expires : ℤ) (code : ℕ) (q : Request)
      → IsStorable created expires code q
      → meta_lines tk dec blank_meta (codes "CACHER/2" ∷ info_lines created expires q)
        ≡ stored_meta created expires q
  unfolding meta_lines meta_line strip_prefix
  meta_lines-info_lines created expires code q i =
      let u =
        url_fields_lem q.r.method (host_text q.r) (url_text (original_request q)) i.method_word
          i.host_word i.url_filled in
      let c = dec.atoi64-print created i.created_range in
      let e = dec.atoi64-print expires i.expires_range in
      let s =
        ap (λ z. to_int (dec.atoi64 (dec.print z))) i.status_is
        ∙ ap to_int (dec.atoi64-print (pos code) (omega arith))
        ∙ to_int_id code i.status_range
        ∙ sym i.status_is in
      let numbers : CacherEntryMeta = record blank_meta {
        created = dec.atoi64 (dec.print created);
        expires = dec.atoi64 (dec.print expires);
        status = to_int (dec.atoi64 (dec.print q.r.status));
      } in
      ap (set_url numbers) u ∙ λ k. record {
        created = c k;
        expires = e k;
        status = s k;
        method = q.r.method;
        host = host_text q.r;
        url = url_text (original_request q);
      }

  number_line-Lacks :
      (b : ℕ) (name : Bytes) (z : ℤ)
      → ¬ DigitOrMinus b
      → Lacks b name
      → Lacks b (name ++ dec.print z)
  number_line-Lacks b name z n h =
      All-append _ name (dec.print z) h (number-Lacks b (dec.print z) n (dec.print_plain z))

  url_line-Lacks :
      (b : ℕ) (q : Request)
      → Lacks b (codes "url ")
      → Lacks b q.r.method
      → Lacks b (host_text q.r)
      → Lacks b (url_text (original_request q))
      → Lacks b (url_line q)
  url_line-Lacks b q n m h u =
      All-append _ (codes "url ") _ n
        (All-append _ q.r.method _ m (n.1.1.1.0, All-append _ (host_text q.r) _ h (n.1.1.1.0, u)))

  info_lines-IsLine :
      (created expires : ℤ) (code : ℕ) (q : Request)
      → IsStorable created expires code q
      → All IsLine (info_lines created expires q)
  info_lines-IsLine created expires code q i =
      let n : ¬ DigitOrMinus b'\n' = λ h. omega arith in
      (
        record {
          no_newline = number_line-Lacks b'\n' (codes "created ") created n (omega arith);
          filled = λ e. cc;
        },
        (
          record {
            no_newline = number_line-Lacks b'\n' (codes "expires ") expires n (omega arith);
            filled = λ e. cc;
          },
          (
            record {
              no_newline = number_line-Lacks b'\n' (codes "status ") q.r.status n (omega arith);
              filled = λ e. cc;
            },
            (
              record {
                no_newline =
                    url_line-Lacks b'\n' q (omega arith) i.method_word.no_newline
                      i.host_word.no_newline i.url_no_newline;
                filled = λ e. cc;
              },
              tt,
            ),
          ),
        ),
      )

  info_lines-no_zero :
      (created expires : ℤ) (code : ℕ) (q : Request)
      → IsStorable created expires code q
      → All (Lacks 0) (info_lines created expires q)
  info_lines-no_zero created expires code q i =
      let n : ¬ DigitOrMinus 0 = λ h. omega arith in
      (
        number_line-Lacks 0 (codes "created ") created n (omega arith),
        (
          number_line-Lacks 0 (codes "expires ") expires n (omega arith),
          (
            number_line-Lacks 0 (codes "status ") q.r.status n (omega arith),
            (
              url_line-Lacks 0 q (omega arith) i.method_word.no_zero i.host_word.no_zero
                  i.url_no_zero,
              tt,
            ),
          ),
        ),
      )

  checked_meta-eq-some :
      (meta : CacherEntryMeta) (headers_at : Bytes)
      → eq_ℤ meta.status (pos 0) ≡ false
      → checked_meta tk dec meta headers_at ≡ some (meta, headers_at)
  unfolding checked_meta
  checked_meta-eq-some meta headers_at h = simp h

  status_not_zero :
      (status : ℤ) (code : ℕ) → status ≡ pos code → 0 < code → eq_ℤ status (pos 0) ≡ false
  unfolding eq_ℤ
  status_not_zero status code e h = rw e (ground arith)

  meta_of_text-file_text :
      (created expires : ℤ) (code : ℕ) (q : Request) (dumped : Bytes)
      → IsStorable created expires code q
      → meta_of_text tk dec (file_text dec created expires q dumped)
        ≡ some (stored_meta created expires q, dumped)
  unfolding meta_of_text meta_of_version strip_prefix file_text
  meta_of_text-file_text created expires code q dumped i =
      let version : IsLine (codes "CACHER/2") = record {
        no_newline = omega arith;
        filled = λ e. cc;
      } in
      let lines = info_lines-IsLine created expires code q i in
      ap (meta_of_block tk dec) (
        ap find_blank_line (file_text-joined created expires q dumped)
        ∙ find_blank_line-joined (codes "CACHER/2") (info_lines created expires q) dumped version
            lines)
      ∙ unfold meta_of_block in
        ap (λ ls. checked_meta tk dec (meta_lines tk dec blank_meta ls) dumped)
          (tokens-joined tk (codes "CACHER/2") (info_lines created expires q) version lines)
        ∙ ap (λ m. checked_meta tk dec m dumped) (meta_lines-info_lines created expires code q i)
        ∙ checked_meta-eq-some (stored_meta created expires q) dumped
            (status_not_zero q.r.status code i.status_is i.status_pos)

  file_text-no_zero :
      (created expires : ℤ) (code : ℕ) (q : Request) (dumped : Bytes)
      → IsStorable created expires code q
      → Lacks 0 dumped
      → Lacks 0 (file_text dec created expires q dumped)
  file_text-no_zero created expires code q dumped i h =
      subst (Lacks 0) (sym (file_text-joined created expires q dumped)) (
        All-append _ (joined (codes "CACHER/2") (info_lines created expires q)) _
          (Lacks-joined 0 (codes "CACHER/2") (info_lines created expires q) (omega arith)
            (omega arith) (info_lines-no_zero created expires code q i))
          (omega arith, (omega arith, h)))

  -- The header file that is written for a response is read back as the same times, status, method,
  -- host and URL, with the same block of headers, if the times and the status are in range, the
  -- method and the host are words, and neither the URL nor the headers hold what would end them.
  pub read_meta-file_text :
      (created expires : ℤ) (code : ℕ) (q : Request) (dumped : Bytes)
      → IsStorable created expires code q
      → Lacks 0 dumped
      → read_meta tk dec (some (file_text dec created expires q dumped))
        ≡ some (stored_meta created expires q, dumped)
  unfolding read_meta file_text
  read_meta-file_text created expires code q dumped i h =
      ap (meta_of_text tk dec) (
        c_text_id (file_text dec created expires q dumped)
          (file_text-no_zero created expires code q dumped i h))
      ∙ meta_of_text-file_text created expires code q dumped i
