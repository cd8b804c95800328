-- ===== src/Cache/Headers/Carried.antt =====
-- Which headers of a stored response a replay hands on, in src/cacher_cache.c.
use apache_cacher.Prelude.{
  true, false, [], ◌∷◌, some, Bytes, codes, All, ◌≡◌, inl, inr, refl, sym, ◌∙◌, arith, Bool-cases,
}
use apache_cacher.Ctype.{to_lower}
use apache_cacher.Apr.{Strtok, Tables, Headers}
use apache_cacher.Request.{RequestRec}
use apache_cacher.Rules.First.{SameLetters}
use apache_cacher.Util.Header.{streq_ci_iff}
use apache_cacher.Cache.Headers.{
  name_is, status_header_name, is_uncacheable_header, replay_header, replay_each,
}
use apache_cacher.Cache.Headers.Replay.{
  Private, set_cookie, connection, keep_alive, transfer_encoding, content_length, status_name, age,
  Private-same, cacheable,
}

abbrev pub NoneNamed : Bytes → Headers → Type 0
NoneNamed name hs = All (λ h. ¬ SameLetters h.0 name) hs

-- Among headers, the last one of that name has the value.
pub data LastValue (name value : Bytes) : Headers → Type 0 where
  this_one :
      {key : Bytes} {hs : Headers}
      → SameLetters key name
      → NoneNamed name hs
      → LastValue name value ((key, value) ∷ hs)
  behind :
      {h : Bytes × Bytes} {hs : Headers} → LastValue name value hs → LastValue name value (h ∷ hs)

-- The request carries the headers: for each name that is not private the last value among them, and
-- as its content type the last one of these.
pub record Carries (tb : Tables) (hs : Headers) (r : RequestRec) : Type 0 where
  pub header :
      (name value : Bytes)
      → ¬ Private name
      → ¬ SameLetters name (codes "Content-Type")
      → LastValue name value hs
      → tb.table_get r.headers_out name ≡ some value
  pub content_type :
      (value : Bytes) → LastValue (codes "Content-Type") value hs → r.content_type ≡ some value

-- The name is this one of the code's list, or the others decide.
or_named :
    (name fixed : Bytes)
    → (SameLetters name fixed → Private name)
    → (name_is name fixed ≡ false → Private name)
    → Private name
or_named name fixed yes_then no_then = elim (Bool-cases (name_is name fixed)) [
  | inl e ↦ yes_then ((streq_ci_iff name fixed).0 e)
  | inr e ↦ no_then e
]

uncacheable-Private : (name : Bytes) → is_uncacheable_header name ≡ true → Private name
unfolding is_uncacheable_header
uncacheable-Private name e = or_named name (codes "Connection") connection (λ a.
    or_named name (codes "Keep-Alive") keep_alive (λ b.
      or_named name (codes "Transfer-Encoding") transfer_encoding (λ c.
        or_named name (codes "Content-Length") content_length (λ d.
          or_named name (codes "Set-Cookie") set_cookie (λ f.
            or_named name status_header_name status_name
              (λ g. age ((streq_ci_iff name (codes "Age")).0 (rw (a, b, c, d, f, g) at e))))))))

type-not_Private : ¬ Private (codes "Content-Type")
unfolding to_lower
type-not_Private (set_cookie e) = ground arith
type-not_Private (connection e) = ground arith
type-not_Private (keep_alive e) = ground arith
type-not_Private (transfer_encoding e) = ground arith
type-not_Private (content_length e) = ground arith
type-not_Private (status_name e) = ground arith
type-not_Private (age e) = ground arith

public-cacheable : (name : Bytes) → ¬ Private name → is_uncacheable_header name ≡ false
public-cacheable name n = elim (Bool-cases (is_uncacheable_header name)) [
  | inl e ↦ absurd (n (uncacheable-Private name e))
  | inr e ↦ e
]

other_name : (key name : Bytes) → ¬ SameLetters key name → name_is key name ≡ false
other_name key name n = elim (Bool-cases (name_is key name)) [
  | inl e ↦ absurd (n ((streq_ci_iff key name).0 e))
  | inr e ↦ e
]

module _ (tk : Strtok) (tb : Tables) where
  abbrev replayed : RequestRec → Headers → RequestRec
  replayed r hs = replay_each tk tb r (cacheable hs)

  -- A header in front is replayed or left out before the others.
  replayed-cons :
      (P : RequestRec → Type 0) (key value : Bytes) (hs : Headers) (r : RequestRec)
      → (is_uncacheable_header key ≡ true → P (replayed r hs))
      → (is_uncacheable_header key ≡ false → P (replayed (replay_header tk tb r key value) hs))
      → P (replayed r ((key, value) ∷ hs))
  unfolding replay_each
  replayed-cons P key value hs r out kept = elim (Bool-cases (is_uncacheable_header key)) [
    | inl e ↦ rw e (out e)
    | inr e ↦ rw e (kept e)
  ]

  replay_header_other :
      (r : RequestRec) (key value name : Bytes)
      → ¬ SameLetters key name
      → tb.table_get (replay_header tk tb r key value).headers_out name
        ≡ tb.table_get r.headers_out name
  unfolding replay_header
  replay_header_other r key value name n = elim (Bool-cases (name_is key (codes "Content-Type"))) [
    | inl c ↦ rw c
    | inr c ↦ elim (Bool-cases (is_uncacheable_header key)) [
      | inl u ↦ rw (c, u)
      | inr u ↦ rw (c, u) (tb.get-setn_other r.headers_out key name value n)
    ]
  ]

  replay_header_same :
      (r : RequestRec) (key value name : Bytes)
      → SameLetters key name
      → ¬ SameLetters key (codes "Content-Type")
      → is_uncacheable_header key ≡ false
      → tb.table_get (replay_header tk tb r key value).headers_out name ≡ some value
  unfolding replay_header
  replay_header_same r key value name s n u =
      rw (other_name key (codes "Content-Type") n, u)
        (tb.get-setn_same r.headers_out key name value s)

  replay_header_type_other :
      (r : RequestRec) (key value : Bytes)
      → ¬ SameLetters key (codes "Content-Type")
      → (replay_header tk tb r key value).content_type ≡ r.content_type
  unfolding replay_header
  replay_header_type_other r key value n = elim (Bool-cases (is_uncacheable_header key)) [
    | inl u ↦ rw (other_name key (codes "Content-Type") n, u) refl
    | inr u ↦ rw (other_name key (codes "Content-Type") n, u) refl
  ]

  replay_header_type :
      (r : RequestRec) (key value : Bytes)
      → SameLetters key (codes "Content-Type")
      → (replay_header tk tb r key value).content_type ≡ some value
  unfolding replay_header
  replay_header_type r key value s = rw ((streq_ci_iff key (codes "Content-Type")).1 s) refl

  replayed_none :
      (hs : Headers) (r : RequestRec) (name : Bytes)
      → NoneNamed name hs
      → tb.table_get (replayed r hs).headers_out name ≡ tb.table_get r.headers_out name
  unfolding replay_each
  replayed_none [] r name n = refl
  replayed_none ((key, value) ∷ hs) r name n =
      replayed-cons (λ q. tb.table_get q.headers_out name ≡ tb.table_get r.headers_out name) key
        value hs r (λ _. replayed_none hs r name n.1)
        (λ _.
          replayed_none hs (replay_header tk tb r key value) name n.1
          ∙ replay_header_other r key value name n.0)

  replayed_type_none :
      (hs : Headers) (r : RequestRec)
      → NoneNamed (codes "Content-Type") hs
      → (replayed r hs).content_type ≡ r.content_type
  unfolding replay_each
  replayed_type_none [] r n = refl
  replayed_type_none ((key, value) ∷ hs) r n =
      replayed-cons (λ q. q.content_type ≡ r.content_type) key value hs r
        (λ _. replayed_type_none hs r n.1)
        (λ _.
          replayed_type_none hs (replay_header tk tb r key value) n.1
          ∙ replay_header_type_other r key value n.0)

  replayed-LastValue :
      {name value : Bytes} {hs : Headers} (r : RequestRec)
      → ¬ Private name
      → ¬ SameLetters name (codes "Content-Type")
      → LastValue name value hs
      → tb.table_get (replayed r hs).headers_out name ≡ some value
  replayed-LastValue {name = name} {value = value} r p n (this_one {key = key} {hs = hs} s none) =
      let u = public-cacheable key (λ k. p (Private-same (sym s) k)) in
      replayed-cons (λ q. tb.table_get q.headers_out name ≡ some value) key value hs r
        (λ e. absurd (cc (e, u)))
        (λ _.
          replayed_none hs (replay_header tk tb r key value) name none
          ∙ replay_header_same r key value name s (λ t. n (sym s ∙ t)) u)
  replayed-LastValue {name = name} {value = value} r p n (behind {h = h} {hs = hs} l) =
      replayed-cons (λ q. tb.table_get q.headers_out name ≡ some value) h.0 h.1 hs r
        (λ _. replayed-LastValue r p n l) (λ _. replayed-LastValue _ p n l)

  replayed_type-LastValue :
      {value : Bytes} {hs : Headers} (r : RequestRec)
      → LastValue (codes "Content-Type") value hs
      → (replayed r hs).content_type ≡ some value
  replayed_type-LastValue {value = value} r (this_one {key = key} {hs = hs} s none) =
      let u = public-cacheable key (λ k. type-not_Private (Private-same (sym s) k)) in
      replayed-cons (λ q. q.content_type ≡ some value) key value hs r (λ e. absurd (cc (e, u)))
        (λ _.
          replayed_type_none hs (replay_header tk tb r key value) none
          ∙ replay_header_type r key value s)
  replayed_type-LastValue {value = value} r (behind {h = h} {hs = hs} l) =
      replayed-cons (λ q. q.content_type ≡ some value) h.0 h.1 hs r
        (λ _. replayed_type-LastValue r l) (λ _. replayed_type-LastValue _ l)

  pub replay_each-Carries :
      (hs : Headers) (r : RequestRec) → Carries tb hs (replay_each tk tb r (cacheable hs))
  replay_each-Carries hs r = record {
    header = λ name value p n l. replayed-LastValue r p n l;
    content_type = λ value l. replayed_type-LastValue r l;
  }
