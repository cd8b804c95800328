-- ===== src/Config/RulesCache/Fresh.antt =====
-- `get_ruleset_from_file` of src/cacher_config.c beside a module without a cache.
use apache_cacher.Prelude.{
  ℕ, true, ◌&&◌, List, [], ◌∷◌, Option, none, some, ◌==◌, ==_iff, Bytes, All, str_eq, str_eq_iff,
  ◌≡◌, inl, inr, refl, sym, subst, arith, Bool-cases, Option-cases, &&-eq-true,
}
use apache_cacher.Prelude.Int.{ℤ, eq_ℤ, eq_ℤ_iff}
use apache_cacher.Cjson.{Cjson}
use apache_cacher.Rules.{CacherRuleset}
use apache_cacher.Config.{CacherDirConf}
use apache_cacher.Config.RulesCache.{
  Files, RulesCacheEntry, RulesCacheState, find_entry, usable, put_back, replaced_or_pushed,
  store_loaded, get_ruleset_stat, lookup_cached, replace_entry, store_entry, new_entry, load_rules,
  load_and_store, get_ruleset_at, resolve_rules_file_path, get_ruleset_from_file,
}

module _ (j : Cjson) where
  -- What a module without a cache would do with a resolved path.
  abbrev pub load_answer : Option (Option CacherRuleset) → Option CacherRuleset
  load_answer none = none
  load_answer (some fresh) = fresh

  abbrev pub stat_and_load : Files → Bytes → Option (ℤ × ℕ) → Option CacherRuleset
  stat_and_load fs path none = none
  stat_and_load fs path (some (mtime, size)) = load_answer (load_rules j fs path size)

  abbrev pub uncached : Files → Option Bytes → Option CacherRuleset
  uncached fs none = none
  uncached fs (some path) = stat_and_load fs path (fs.stat path)

  -- An entry whose stamp the file still has is what loading the file gives.
  abbrev pub EntryFresh : Files → RulesCacheEntry → Type 0
  EntryFresh fs e =
      fs.stat e.path ≡ some (e.mtime, e.size) → load_rules j fs e.path e.size ≡ some e.parsed_rules

  abbrev pub CacheFresh : Files → List RulesCacheEntry → Type 0
  CacheFresh fs = All (EntryFresh fs)

  find_entry-fresh :
      (fs : Files) (path : Bytes) (es : List RulesCacheEntry) (e : RulesCacheEntry)
      → CacheFresh fs es
      → find_entry path es ≡ some e
      → (e.path ≡ path) × EntryFresh fs e
  unfolding find_entry
  find_entry-fresh fs path [] e h q = absurd (cc)
  find_entry-fresh fs path (d ∷ es) e h q = elim (Bool-cases (str_eq d.path path)) [
    | inl s ↦
        let same : d ≡ e = ground arith in
        subst (λ x. (x.path ≡ path) × EntryFresh fs x) same ((str_eq_iff d.path path).0 s, h.0)
    | inr s ↦ find_entry-fresh fs path es e h.1 (rw s at q)
  ]

  usable-stamp :
      (e : RulesCacheEntry) (mtime : ℤ) (size : ℕ) (cached : Option CacherRuleset)
      → usable (some e) mtime size ≡ some cached
      → (e.mtime ≡ mtime) × (e.size ≡ size) × (e.parsed_rules ≡ cached)
  unfolding usable
  usable-stamp e mtime size cached h = elim (Bool-cases (eq_ℤ e.mtime mtime && e.size == size)) [
    | inl t ↦
        let both = (&&-eq-true (eq_ℤ e.mtime mtime) (e.size == size)).0 t in
        ((eq_ℤ_iff e.mtime mtime).0 both.0, (==_iff e.size size).0 both.1, ground arith)
    | inr f ↦ absurd (cc (rw f at h))
  ]

  lookup_cached-load :
      (fs : Files) (es : List RulesCacheEntry) (path : Bytes) (mtime : ℤ) (size : ℕ)
      (cached : Option CacherRuleset)
      → CacheFresh fs es
      → fs.stat path ≡ some (mtime, size)
      → lookup_cached es path mtime size ≡ some cached
      → load_rules j fs path size ≡ some cached
  unfolding lookup_cached
  lookup_cached-load fs es path mtime size cached h st q =
      elim (Option-cases (find_entry path es)) [
        | inl n ↦ absurd (cc (rw n at q))
        | inr (e, f) ↦
            let (at, fresh) = find_entry-fresh fs path es e h f in
            let (m, s, r) = usable-stamp e mtime size cached (rw f at q) in
            let loaded = fresh (cc) in cc
      ]

  abbrev ReplacedFresh : Files → Option (List RulesCacheEntry) → Type 0
  ReplacedFresh fs none = Unit
  ReplacedFresh fs (some es) = CacheFresh fs es

  put_back-fresh :
      (fs : Files) (e : RulesCacheEntry) (after : Option (List RulesCacheEntry))
      → EntryFresh fs e
      → ReplacedFresh fs after
      → ReplacedFresh fs (put_back e after)
  unfolding put_back
  put_back-fresh fs e none h k = tt
  put_back-fresh fs e (some es) h k = (h, k)

  replace_entry-fresh :
      (fs : Files) (new : RulesCacheEntry) (es : List RulesCacheEntry)
      → EntryFresh fs new
      → CacheFresh fs es
      → ReplacedFresh fs (replace_entry new es)
  unfolding replace_entry
  replace_entry-fresh fs new [] n h = tt
  replace_entry-fresh fs new (e ∷ es) n h = elim (Bool-cases (str_eq e.path new.path)) [
    | inl s ↦
        let here = (str_eq_iff e.path new.path).0 s in
        let moved : new ≡ record new { path = e.path } = λ i. record new { path = sym here i } in
        rw s (subst (EntryFresh fs) moved n, h.1)
    | inr s ↦
        rw s (put_back-fresh fs e (replace_entry new es) h.0 (replace_entry-fresh fs new es n h.1))
  ]

  replaced_or_pushed-fresh :
      (fs : Files) (new : RulesCacheEntry) (es : List RulesCacheEntry)
      (after : Option (List RulesCacheEntry))
      → EntryFresh fs new
      → CacheFresh fs es
      → ReplacedFresh fs after
      → CacheFresh fs (replaced_or_pushed new es after)
  unfolding replaced_or_pushed
  replaced_or_pushed-fresh fs new es none n h k = (n, h)
  replaced_or_pushed-fresh fs new es (some after) n h k = k

  store_entry-fresh :
      (fs : Files) (new : RulesCacheEntry) (es : List RulesCacheEntry)
      → EntryFresh fs new
      → CacheFresh fs es
      → CacheFresh fs (store_entry new es)
  unfolding store_entry
  store_entry-fresh fs new es n h =
      replaced_or_pushed-fresh fs new es (replace_entry new es) n h
        (replace_entry-fresh fs new es n h)

  -- What the cache answers, and the cache that it leaves, on a resolved path.
  abbrev pub Served : Files → Option CacherRuleset → RulesCacheState × Option CacherRuleset → Type 0
  Served fs answer (st, rs) = (rs ≡ answer) × CacheFresh fs st.entries

  store_loaded-Served :
      (fs : Files) (st : RulesCacheState) (path : Bytes) (mtime : ℤ) (size : ℕ)
      (loaded : Option (Option CacherRuleset))
      → CacheFresh fs st.entries
      → load_rules j fs path size ≡ loaded
      → Served fs (load_answer loaded) (store_loaded j st path (mtime, size) loaded)
  unfolding store_loaded
  store_loaded-Served fs st path mtime size none h l = (refl, h)
  store_loaded-Served fs st path mtime size (some fresh) h l =
      (refl, store_entry-fresh fs (new_entry path mtime size fresh) st.entries (λ _. l) h)

  load_and_store-Served :
      (fs : Files) (st : RulesCacheState) (path : Bytes) (mtime : ℤ) (size : ℕ)
      (cached : Option (Option CacherRuleset))
      → CacheFresh fs st.entries
      → ((rs : Option CacherRuleset) → cached ≡ some rs → load_rules j fs path size ≡ some rs)
      → Served fs
          (load_answer (load_rules j fs path size))
          (load_and_store j fs st path (mtime, size) cached)
  unfolding load_and_store
  load_and_store-Served fs st path mtime size (some rs) h good = (rw (good rs refl), h)
  load_and_store-Served fs st path mtime size none h good =
      store_loaded-Served fs st path mtime size (load_rules j fs path size) h refl

  get_ruleset_stat-Served :
      (fs : Files) (st : RulesCacheState) (path : Bytes) (stamp : Option (ℤ × ℕ))
      → CacheFresh fs st.entries
      → fs.stat path ≡ stamp
      → Served fs (stat_and_load fs path stamp) (get_ruleset_stat j fs st path stamp)
  unfolding get_ruleset_stat
  get_ruleset_stat-Served fs st path none h q = (refl, h)
  get_ruleset_stat-Served fs st path (some (mtime, size)) h q =
      load_and_store-Served fs st path mtime size (lookup_cached st.entries path mtime size) h
        (λ rs f. lookup_cached-load fs st.entries path mtime size rs h q f)

  get_ruleset_at-Served :
      (fs : Files) (st : RulesCacheState) (path : Option Bytes)
      → CacheFresh fs st.entries
      → Served fs (uncached fs path) (get_ruleset_at j fs st path)
  unfolding get_ruleset_at
  get_ruleset_at-Served fs st none h = (refl, h)
  get_ruleset_at-Served fs st (some path) h =
      get_ruleset_stat-Served fs st path (fs.stat path) h refl

  -- With the mutex there and each entry fresh, a request gets exactly the ruleset that it would
  -- get if the file were read and parsed each time, and each entry is fresh afterwards.
  pub get_ruleset_from_file-uncached :
      (fs : Files) (st : RulesCacheState) (dconf : CacherDirConf) (file : Bytes)
      → st.mutex ≡ true
      → CacheFresh fs st.entries
      → Served fs
          (uncached fs (resolve_rules_file_path fs dconf.config_dir file))
          (get_ruleset_from_file j fs st dconf file)
  unfolding get_ruleset_from_file
  get_ruleset_from_file-uncached fs st dconf file m h =
      simp m (get_ruleset_at-Served fs st (resolve_rules_file_path fs dconf.config_dir file) h)
