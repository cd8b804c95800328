-- ===== src/Cache/Key/Paths.antt =====
-- The two paths that `cache_key_paths` of src/cacher_cache.c makes, and what src/cacher_admin.c makes of
-- the first.
use apache_cacher.Prelude.{
  ◌-◌, [], ◌∷◌, ◌++◌, append_assoc, some, some_inj, Bytes, codes, length, take, drop, length-append,
  ◌≡◌, ◌⊎◌, inl, inr, refl, sym, ◌∙◌, ap, arith,
}
use mathlib.Core.List.{append_cancel_right}
use apache_cacher.Apr.{Strtok, Digest, Tables}
use apache_cacher.Request.{Request}
use apache_cacher.Rules.{CacherRule}
use apache_cacher.Cache.Key.{build_cache_key_string, hex_encode_md5, entry_paths, cache_key_paths}
use apache_cacher.Cache.Key.Hex.{hex_decode, hex_decode-hex_encode_md5, length-hex_encode_md5}
use apache_cacher.Admin.{body_path_of}

-- all but the first byte
tail_of : Bytes → Bytes
tail_of [] = []
tail_of (x ∷ xs) = xs

tail_same : (xs xs' ys ys' : Bytes) → length xs ≡ length xs' → xs ++ ys ≡ xs' ++ ys' → ys ≡ ys'
unfolding tail_of
tail_same [] [] ys ys' n e = e
tail_same [] (x ∷ xs') ys ys' n e = absurd (omega arith)
tail_same (x ∷ xs) [] ys ys' n e = absurd (omega arith)
tail_same (x ∷ xs) (x' ∷ xs') ys ys' n e = tail_same xs xs' ys ys' (omega arith) (ap tail_of e)

take-append : (xs ys : Bytes) → take (length xs) (xs ++ ys) ≡ xs
take-append [] [] = refl
take-append [] (y ∷ ys) = refl
take-append (x ∷ xs) ys = ap (λ t. x ∷ t) (take-append xs ys)

-- Two paths with the same ending show the same hexadecimal text.
hex_same :
    (shard shard' hex hex' ending : Bytes)
    → length hex ≡ length hex'
    → shard ++ (b'/' ∷ (hex ++ ending)) ≡ shard' ++ (b'/' ∷ (hex' ++ ending))
    → hex ≡ hex'
unfolding tail_of
hex_same shard shard' hex hex' ending n e = append_cancel_right hex hex' ending (
    ap tail_of (
      tail_same shard shard' (b'/' ∷ (hex ++ ending)) (b'/' ∷ (hex' ++ ending))
        (omega (
          arith,
          ap length e,
          length-append shard (b'/' ∷ (hex ++ ending)),
          length-append shard' (b'/' ∷ (hex' ++ ending)),
          length-append hex ending,
          length-append hex' ending,
          n,
        ))
        e))

-- The body of an entry is its header's path with another ending.
body_path_of_ending :
    (front : Bytes) → body_path_of (front ++ codes ".header") ≡ front ++ codes ".body"
unfolding body_path_of
body_path_of_ending front =
    let long : length (front ++ codes ".header") - 7 ≡ length front =
      omega (arith, length-append front (codes ".header")) in
    ap (λ n. take n (front ++ codes ".header") ++ codes ".body") long
    ∙ ap (λ t. t ++ codes ".body") (take-append front (codes ".header"))

module _ (tk : Strtok) (tb : Tables) (dg : Digest) where
  -- The digest of a request's key.
  abbrev pub digest_of : Request → CacherRule → Bytes
  digest_of q rule = dg.md5 (build_cache_key_string tk tb q rule)

  hex_digests :
      (s t : Bytes) → hex_encode_md5 (dg.md5 s) ≡ hex_encode_md5 (dg.md5 t) → dg.md5 s ≡ dg.md5 t
  hex_digests s t e =
      sym (hex_decode-hex_encode_md5 (dg.md5 s) (dg.md5_bytes s))
      ∙ ap hex_decode e
      ∙ hex_decode-hex_encode_md5 (dg.md5 t) (dg.md5_bytes t)

  hex_lengths :
      (s t : Bytes) → length (hex_encode_md5 (dg.md5 s)) ≡ length (hex_encode_md5 (dg.md5 t))
  hex_lengths s t = omega (
    arith,
    length-hex_encode_md5 (dg.md5 s),
    length-hex_encode_md5 (dg.md5 t),
    dg.length-md5 s,
    dg.length-md5 t,
  )

  abbrev shard_of : Bytes → Bytes → Bytes
  shard_of root hex = root ++ (b'/' ∷ (take 2 hex ++ (b'/' ∷ take 2 (drop 2 hex))))

  body_path_of-entry_paths :
      (root hex : Bytes)
      → body_path_of (entry_paths tk tb dg root hex).0 ≡ (entry_paths tk tb dg root hex).1
  body_path_of-entry_paths root hex =
      let front = shard_of root hex in
      ap body_path_of (sym (append_assoc front (b'/' ∷ hex) (codes ".header")))
      ∙ body_path_of_ending (front ++ (b'/' ∷ hex))
      ∙ append_assoc front (b'/' ∷ hex) (codes ".body")

  -- Below one root two requests share the header's path, or the body's, only if the digests of
  -- their keys agree; and what the admin endpoints take for the body of a header is the body of
  -- that entry.
  pub cache_key_paths-digest_of :
      (q q' : Request) (rule rule' : CacherRule) (root header body header' body' : Bytes)
      → cache_key_paths tk tb dg q (some root) rule ≡ some (header, body)
      → cache_key_paths tk tb dg q' (some root) rule' ≡ some (header', body')
      → (body_path_of header ≡ body)
        × ((header ≡ header') ⊎ (body ≡ body') → digest_of q rule ≡ digest_of q' rule')
  unfolding cache_key_paths
  cache_key_paths-digest_of q q' rule rule' root header body header' body' k k' =
      let e = some_inj _ _ k in
      let e' = some_inj _ _ k' in
      let hex = hex_encode_md5 (digest_of q rule) in
      let hex' = hex_encode_md5 (digest_of q' rule') in
      let n =
        hex_lengths (build_cache_key_string tk tb q rule) (build_cache_key_string tk tb q' rule') in
      let digests =
        hex_digests (build_cache_key_string tk tb q rule) (build_cache_key_string tk tb q' rule') in
      (
        ap (λ p. body_path_of p.0) (sym e) ∙ body_path_of-entry_paths root hex ∙ ap (λ p. p.1) e,
        λ same. elim same [
          | inl h ↦ digests (
              hex_same (shard_of root hex) (shard_of root hex') hex hex' (codes ".header") n
                (ap (λ p. p.0) e ∙ h ∙ sym (ap (λ p. p.0) e')))
          | inr b ↦ digests (
              hex_same (shard_of root hex) (shard_of root hex') hex hex' (codes ".body") n
                (ap (λ p. p.1) e ∙ b ∙ sym (ap (λ p. p.1) e')))
        ],
      )
