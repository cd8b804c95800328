-- ===== src/Cache/Key/Injective.antt =====
-- When two requests share a cache key, and when they must not.
use apache_cacher.Prelude.{
  true, false, List, [], ◌∷◌, ◌++◌, append_assoc, append-nil, Option, none, some, Bytes, codes,
  get_or, All, Lacks, ◌≡◌, refl, sym, ◌∙◌, ap, strip_prefix,
}
use apache_cacher.Apr.{Strtok, Tables}
use apache_cacher.Request.{RequestRec, Request}
use apache_cacher.Rules.{CacherRule}
use apache_cacher.Util.{original_request, get_cookie, call_each, lookup_cb, header_pairs}
use apache_cacher.Cache.Key.{
  key_method, url_text, vary_value, vary_text, append_vary, cookie_prefix, build_cache_key_string,
}

-- No part of the request holds a newline, and its path holds no '?'.
pub record IsPlain (q : Request) : Type 0 where
  pub method_plain : Lacks b'\n' (key_method q.r)
  pub host_plain : Lacks b'\n' (get_or q.r.hostname [])
  pub url_plain : Lacks b'\n' (url_text (original_request q))
  pub uri_plain : Lacks b'?' (original_request q).uri

module _ (tk : Strtok) (tb : Tables) where
  vary_tail : Request → List Bytes → Bytes
  vary_tail q [] = []
  vary_tail q (e ∷ es) = b'\n' ∷ (e ++ (b'=' ∷ (vary_text tk tb q e ++ vary_tail q es)))

  append_vary-vary_tail :
      (q : Request) (key : Bytes) (es : List Bytes)
      → append_vary tk tb q key es ≡ key ++ vary_tail q es
  unfolding append_vary vary_tail
  append_vary-vary_tail q key [] = sym (append-nil key)
  append_vary-vary_tail q key (e ∷ es) =
      append_vary-vary_tail q (key ++ (b'\n' ∷ (e ++ (b'=' ∷ vary_text tk tb q e)))) es
      ∙ simp append_assoc

  abbrev VaryPlain : Request → List Bytes → Type 0
  VaryPlain q = All (λ e. Lacks b'\n' (vary_text tk tb q e))

  abbrev SameVary : Request → Request → List Bytes → Type 0
  SameVary q q' = All (λ e. vary_text tk tb q e ≡ vary_text tk tb q' e)

  -- What two requests with one cache key have in common.
  pub record SameKeyParts (rule : CacherRule) (q q' : Request) : Type 0 where
    pub method : key_method q.r ≡ key_method q'.r
    pub host : get_or q.r.hostname [] ≡ get_or q'.r.hostname []
    pub uri : (original_request q).uri ≡ (original_request q').uri
    pub args : (original_request q).args ≡ (original_request q').args
    pub vary : SameVary q q' (get_or rule.vary [])

  vary_value-headers :
      (q q' : Request) (entry : Bytes) (cookie : Option Bytes)
      → q.r.headers_in ≡ q'.r.headers_in
      → vary_value tk tb q entry cookie ≡ vary_value tk tb q' entry cookie
  unfolding vary_value get_cookie
  vary_value-headers q q' entry none h = ap (λ hs. tb.table_get hs entry) h
  vary_value-headers q q' entry (some name) h =
      ap
        (λ hs.
          call_each (lookup_cb name) (header_pairs tk tb (tb.table_get hs (codes "Cookie"))) none)
        h

  vary_text-headers :
      (q q' : Request) (entry : Bytes)
      → q.r.headers_in ≡ q'.r.headers_in
      → vary_text tk tb q entry ≡ vary_text tk tb q' entry
  unfolding vary_text
  vary_text-headers q q' entry h =
      ap (λ v. get_or v []) (vary_value-headers q q' entry (strip_prefix cookie_prefix entry) h)

  vary_tail-headers :
      (q q' : Request) (es : List Bytes)
      → q.r.headers_in ≡ q'.r.headers_in
      → vary_tail q es ≡ vary_tail q' es
  unfolding vary_tail
  vary_tail-headers q q' [] h = refl
  vary_tail-headers q q' (e ∷ es) h = cc (vary_text-headers q q' e h, vary_tail-headers q q' es h)

  append_vary-headers :
      (q q' : Request) (key : Bytes) (es : List Bytes)
      → q.r.headers_in ≡ q'.r.headers_in
      → append_vary tk tb q key es ≡ append_vary tk tb q' key es
  append_vary-headers q q' key es h =
      append_vary-vary_tail q key es
      ∙ ap (λ s. key ++ s) (vary_tail-headers q q' es h)
      ∙ sym (append_vary-vary_tail q' key es)

  -- A '?' in the decoded path is not told apart from the start of the query: a request whose path
  -- is `uri?args`, with no query, has the key of the request for `uri` with the query `args`.
  pub build_cache_key_string_collision :
      (rule : CacherRule) (r : RequestRec) (uri args : Bytes)
      → build_cache_key_string tk tb
          (record { r = record r { uri = uri ++ b'?' ∷ args; args = none }; prevs = [] })
          rule
        ≡ build_cache_key_string tk tb
            (record { r = record r { uri = uri; args = some args }; prevs = [] })
            rule
  unfolding build_cache_key_string original_request key_method
  build_cache_key_string_collision rule r uri args =
      let q : Request = record {
        r = record r { uri = uri ++ b'?' ∷ args; args = none };
        prevs = [];
      } in
      let q' : Request = record { r = record r { uri = uri; args = some args }; prevs = [] } in
      let es = get_or rule.vary [] in
      ap
        (λ u.
          append_vary tk tb q (key_method r ++ (b'\n' ∷ (get_or r.hostname [] ++ (b'\n' ∷ u)))) es)
        (append-nil (uri ++ b'?' ∷ args))
      ∙ append_vary-headers q q' _ es refl

  -- A HEAD request has the key of the GET request that is like it in all else, after any chain of
  -- redirects.
  pub build_cache_key_string_head :
      (rule : CacherRule) (r : RequestRec) (prevs : List RequestRec)
      → build_cache_key_string tk tb
          (record { r = record r { method = codes "HEAD"; header_only = true }; prevs = prevs })
          rule
        ≡ build_cache_key_string tk tb
            (record { r = record r { method = codes "GET"; header_only = false }; prevs = prevs })
            rule
  unfolding build_cache_key_string original_request key_method
  build_cache_key_string_head rule r [] = append_vary-headers _ _ _ (get_or rule.vary []) refl
  build_cache_key_string_head rule r (p ∷ prevs) =
      append_vary-headers _ _ _ (get_or rule.vary []) refl
