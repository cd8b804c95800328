-- ===== src/Config/RulesCache/Threads/Invariant.antt =====
-- `get_ruleset_from_file` of src/cacher_config.c: what every step of a thread keeps.
use apache_cacher.Prelude.{
  ℕ, List, [], ◌∷◌, Option, none, some, ◌==◌, Bytes, str_eq, str_eq_iff, ◌≡◌, ◌≢◌, inl, inr, refl,
  sym, subst, arith, Bool-cases,
}
use apache_cacher.Prelude.Int.{ℤ}
use apache_cacher.Cjson.{Cjson}
use apache_cacher.Rules.{CacherRuleset}
use apache_cacher.Config.RulesCache.{
  Files, RulesCacheEntry, find_entry, usable, lookup_cached, put_back, replace_entry,
  replaced_or_pushed, store_entry, new_entry,
}
use apache_cacher.Config.RulesCache.Threads.{
  Phase, idle, missed, loaded, returned, World, at_phase, Step, hit, miss, load, load_fails, store,
  finish, edit, Reach, here, next, CameFrom, PhaseKnown, EntriesKnown, NotCached, OnePerPath, Sane,
}

module _ (j : Cjson) where
  PhaseKnown-at_phase :
      (past : List Files) (ph : ℕ → Phase) (t : ℕ) (p : Phase)
      → ((u : ℕ) → PhaseKnown j past (ph u))
      → PhaseKnown j past p
      → (u : ℕ) → PhaseKnown j past (at_phase ph t p u)
  PhaseKnown-at_phase past ph t p h k u = elim (Bool-cases (u == t)) [
    | inl e ↦ rw e k
    | inr e ↦ rw e (h u)
  ]

  abbrev FoundKnown : List Files → Bytes → Option RulesCacheEntry → Type 0
  FoundKnown past path none = Unit
  FoundKnown past path (some e) = CameFrom j past path e.parsed_rules

  find_entry-known :
      (past : List Files) (path : Bytes) (es : List RulesCacheEntry)
      → EntriesKnown j past es
      → FoundKnown past path (find_entry path es)
  unfolding find_entry
  find_entry-known past path [] h = tt
  find_entry-known past path (e ∷ es) h = elim (Bool-cases (str_eq e.path path)) [
    | inl s ↦
        rw s (subst (λ p. CameFrom j past p e.parsed_rules) ((str_eq_iff e.path path).0 s) h.0)
    | inr s ↦ rw s (find_entry-known past path es h.1)
  ]

  usable-known :
      (past : List Files) (path : Bytes) (found : Option RulesCacheEntry) (mtime : ℤ) (size : ℕ)
      (rs : Option CacherRuleset)
      → FoundKnown past path found
      → usable found mtime size ≡ some rs
      → CameFrom j past path rs
  unfolding usable
  usable-known past path none mtime size rs h q = absurd (cc)
  usable-known past path (some e) mtime size rs h q =
      let same : e.parsed_rules ≡ rs = ground arith in subst (CameFrom j past path) same h

  abbrev ReplacedKnown : List Files → Option (List RulesCacheEntry) → Type 0
  ReplacedKnown past none = Unit
  ReplacedKnown past (some es) = EntriesKnown j past es

  put_back-known :
      (past : List Files) (e : RulesCacheEntry) (after : Option (List RulesCacheEntry))
      → CameFrom j past e.path e.parsed_rules
      → ReplacedKnown past after
      → ReplacedKnown past (put_back e after)
  unfolding put_back
  put_back-known past e none h k = tt
  put_back-known past e (some es) h k = (h, k)

  replace_entry-known :
      (past : List Files) (new : RulesCacheEntry) (es : List RulesCacheEntry)
      → CameFrom j past new.path new.parsed_rules
      → EntriesKnown j past es
      → ReplacedKnown past (replace_entry new es)
  unfolding replace_entry
  replace_entry-known past new [] n h = tt
  replace_entry-known past new (e ∷ es) n h = elim (Bool-cases (str_eq e.path new.path)) [
    | inl s ↦ rw s (
      subst (λ p. CameFrom j past p new.parsed_rules) (sym ((str_eq_iff e.path new.path).0 s)) n,
      h.1,
    )
    | inr s ↦
        rw s
          (put_back-known past e (replace_entry new es) h.0 (replace_entry-known past new es n h.1))
  ]

  replaced_or_pushed-known :
      (past : List Files) (new : RulesCacheEntry) (es : List RulesCacheEntry)
      (after : Option (List RulesCacheEntry))
      → CameFrom j past new.path new.parsed_rules
      → EntriesKnown j past es
      → ReplacedKnown past after
      → EntriesKnown j past (replaced_or_pushed new es after)
  unfolding replaced_or_pushed
  replaced_or_pushed-known past new es none n h k = (n, h)
  replaced_or_pushed-known past new es (some after) n h k = k

  -- What `replace_entry` says of the paths that it keeps.
  abbrev ReplacedOne :
      RulesCacheEntry → List RulesCacheEntry → Option (List RulesCacheEntry) → Type 0
  ReplacedOne new es none = NotCached j new.path es
  ReplacedOne new es (some after) =
      OnePerPath j after × ((p : Bytes) → NotCached j p es → NotCached j p after)

  put_back-one :
      (new e : RulesCacheEntry) (es : List RulesCacheEntry) (after : Option (List RulesCacheEntry))
      → e.path ≢ new.path
      → NotCached j e.path es
      → ReplacedOne new es after
      → ReplacedOne new (e ∷ es) (put_back e after)
  unfolding put_back
  put_back-one new e es none d n h = (d, h)
  put_back-one new e es (some after) d n (one, keep) =
      ((keep e.path n, one), λ p (q, k). (q, keep p k))

  replace_entry-one :
      (new : RulesCacheEntry) (es : List RulesCacheEntry)
      → OnePerPath j es
      → ReplacedOne new es (replace_entry new es)
  unfolding replace_entry
  replace_entry-one new [] h = tt
  replace_entry-one new (e ∷ es) h = elim (Bool-cases (str_eq e.path new.path)) [
    | inl s ↦ rw s (h, λ p n. n)
    | inr s ↦ rw s (
        put_back-one new e es (replace_entry new es) (λ q. cc (s, (str_eq_iff e.path new.path).1 q))
          h.0 (replace_entry-one new es h.1))
  ]

  replaced_or_pushed-one :
      (new : RulesCacheEntry) (es : List RulesCacheEntry) (after : Option (List RulesCacheEntry))
      → OnePerPath j es
      → ReplacedOne new es after
      → OnePerPath j (replaced_or_pushed new es after)
  unfolding replaced_or_pushed
  replaced_or_pushed-one new es none h k = (k, h)
  replaced_or_pushed-one new es (some after) h k = k.0

  store_entry-Sane :
      (past : List Files) (new : RulesCacheEntry) (es : List RulesCacheEntry)
      → CameFrom j past new.path new.parsed_rules
      → EntriesKnown j past es
      → OnePerPath j es
      → EntriesKnown j past (store_entry new es) × OnePerPath j (store_entry new es)
  unfolding store_entry
  store_entry-Sane past new es n h one = (
    replaced_or_pushed-known past new es (replace_entry new es) n h
        (replace_entry-known past new es n h),
    replaced_or_pushed-one new es (replace_entry new es) one (replace_entry-one new es one),
  )

  EntriesKnown-edit :
      (past : List Files) (fs : Files) (es : List RulesCacheEntry)
      → EntriesKnown j past es
      → EntriesKnown j (fs ∷ past) es
  EntriesKnown-edit past fs [] h = tt
  EntriesKnown-edit past fs (e ∷ es) h = (inr h.0, EntriesKnown-edit past fs es h.1)

  PhaseKnown-edit :
      (past : List Files) (fs : Files) (p : Phase)
      → PhaseKnown j past p
      → PhaseKnown j (fs ∷ past) p
  PhaseKnown-edit past fs idle h = tt
  PhaseKnown-edit past fs (missed path mtime size) h = tt
  PhaseKnown-edit past fs (loaded path mtime size rs) h = inr h
  PhaseKnown-edit past fs (returned path rs) h = inr h

  -- A move of one thread that leaves the entries alone.
  Sane-move :
      (w : World) (t : ℕ) (p : Phase)
      → Sane j w
      → PhaseKnown j w.past p
      → Sane j (record w { phase = at_phase w.phase t p })
  Sane-move w t p s k = record {
    now_in_past = s.now_in_past;
    phases_known = PhaseKnown-at_phase w.past w.phase t p s.phases_known k;
    entries_known = s.entries_known;
    one_per_path = s.one_per_path;
  }

  Step-Sane : {w u : World} → Step j w u → Sane j w → Sane j u
  unfolding lookup_cached
  Step-Sane {w} (hit t path mtime size rs _ _ f e) s = subst (Sane j) (sym e) (
      Sane-move w t (returned path rs) s (
        usable-known w.past path (find_entry path w.entries) mtime size rs
          (find_entry-known w.past path w.entries s.entries_known) f))
  Step-Sane {w} (miss t path mtime size _ _ _ e) s = subst (Sane j) (sym e) (Sane-move w t _ s tt)
  Step-Sane {w} (load t path mtime size rs _ l e) s =
      let known = subst (λ past. CameFrom j past path rs) (sym s.now_in_past.1) (inl (size, l)) in
      subst (Sane j) (sym e) (Sane-move w t (loaded path mtime size rs) s known)
  Step-Sane {w} (load_fails t path mtime size _ _ e) s =
      subst (Sane j) (sym e) (Sane-move w t idle s tt)
  Step-Sane {w} (store t path mtime size rs p e) s =
      let known = subst (PhaseKnown j w.past) p (s.phases_known t) in
      let new = new_entry path mtime size rs in
      let (entries, one) =
        store_entry-Sane w.past new w.entries known s.entries_known s.one_per_path in
      subst (Sane j) (sym e) (record {
        now_in_past = s.now_in_past;
        phases_known = PhaseKnown-at_phase w.past w.phase t (returned path rs) s.phases_known known;
        entries_known = entries;
        one_per_path = one;
      })
  Step-Sane {w} (finish t path rs _ e) s = subst (Sane j) (sym e) (Sane-move w t idle s tt)
  Step-Sane {w} (edit fs e) s = subst (Sane j) (sym e) (record {
    now_in_past = (w.past, refl);
    phases_known = λ t. PhaseKnown-edit w.past fs (w.phase t) (s.phases_known t);
    entries_known = EntriesKnown-edit w.past fs w.entries s.entries_known;
    one_per_path = s.one_per_path;
  })

  -- However the threads interleave and the files change, the cache holds at most one entry for a
  -- path, and each ruleset that it holds or that a thread returns came from that very file, as it
  -- was at some moment.
  pub Reach-Sane : {w u : World} → Sane j w → Reach j w u → Sane j u
  Reach-Sane s here = s
  Reach-Sane s (next r st) = Step-Sane st (Reach-Sane s r)
