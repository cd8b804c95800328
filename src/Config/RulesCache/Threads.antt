-- ===== src/Config/RulesCache/Threads.antt =====
-- Threads of one process in `get_ruleset_from_file`, interleaved at its two critical sections,
-- while rules files change under them.
pub mod Invariant
use apache_cacher.Prelude.{
  ℕ, List, [], ◌∷◌, Option, none, some, ◌==◌, if◌then◌else◌, Bytes, All, Any, str_eq, str_eq_iff,
  ◌≡◌, ◌≢◌, inl, inr, refl, sym, subst, arith, Bool-cases,
}
use apache_cacher.Prelude.Int.{ℤ}
use apache_cacher.Cjson.{Cjson}
use apache_cacher.Rules.{CacherRuleset}
use apache_cacher.Config.RulesCache.{
  Files, RulesCacheEntry, find_entry, usable, lookup_cached, put_back, replace_entry,
  replaced_or_pushed, store_entry, new_entry, load_rules,
}

-- Where a thread stands: before the lookup, after a miss, after the load, or at its return.
pub data Phase : Type 0 where
  idle : Phase
  missed : Bytes → ℤ → ℕ → Phase
  loaded : Bytes → ℤ → ℕ → Option CacherRuleset → Phase
  returned : Bytes → Option CacherRuleset → Phase

-- `past` holds the files as they are now, in front, and as they were before.
pub record World : Type 0 where
  pub now : Files
  pub past : List Files
  pub entries : List RulesCacheEntry
  pub phase : ℕ → Phase

abbrev pub at_phase : (ℕ → Phase) → ℕ → Phase → ℕ → Phase
at_phase ph t p u = if u == t then p else ph u

module _ (j : Cjson) where
  pub data Step (w u : World) : Type 0 where
    -- a hit in the first critical section
    hit :
        (t : ℕ) (path : Bytes) (mtime : ℤ) (size : ℕ) (rs : Option CacherRuleset)
        → w.phase t ≡ idle
        → w.now.stat path ≡ some (mtime, size)
        → lookup_cached w.entries path mtime size ≡ some rs
        → u ≡ record w { phase = at_phase w.phase t (returned path rs) }
        → Step w u
    miss :
        (t : ℕ) (path : Bytes) (mtime : ℤ) (size : ℕ)
        → w.phase t ≡ idle
        → w.now.stat path ≡ some (mtime, size)
        → lookup_cached w.entries path mtime size ≡ none
        → u ≡ record w { phase = at_phase w.phase t (missed path mtime size) }
        → Step w u
    -- outside the lock: the file may be another one by now
    load :
        (t : ℕ) (path : Bytes) (mtime : ℤ) (size : ℕ) (rs : Option CacherRuleset)
        → w.phase t ≡ missed path mtime size
        → load_rules j w.now path size ≡ some rs
        → u ≡ record w { phase = at_phase w.phase t (loaded path mtime size rs) }
        → Step w u
    load_fails :
        (t : ℕ) (path : Bytes) (mtime : ℤ) (size : ℕ)
        → w.phase t ≡ missed path mtime size
        → load_rules j w.now path size ≡ none
        → u ≡ record w { phase = at_phase w.phase t idle }
        → Step w u
    -- the second critical section
    store :
        (t : ℕ) (path : Bytes) (mtime : ℤ) (size : ℕ) (rs : Option CacherRuleset)
        → w.phase t ≡ loaded path mtime size rs
        → u ≡ record w {
          entries = store_entry (new_entry path mtime size rs) w.entries;
          phase = at_phase w.phase t (returned path rs);
        }
        → Step w u
    -- the thread turns to its next request
    finish :
        (t : ℕ) (path : Bytes) (rs : Option CacherRuleset)
        → w.phase t ≡ returned path rs
        → u ≡ record w { phase = at_phase w.phase t idle }
        → Step w u
    -- somebody edits the files
    edit : (fs : Files) → u ≡ record w { now = fs; past = fs ∷ w.past } → Step w u

  pub data Reach (w : World) : World → Type 0 where
    here : Reach w w
    next : {u v : World} → Reach w u → Step u v → Reach w v

  -- The ruleset came from that file, as it was at some moment.
  abbrev pub CameFrom : List Files → Bytes → Option CacherRuleset → Type 0
  CameFrom past path rs = Any (λ fs. (size : ℕ) × (load_rules j fs path size ≡ some rs)) past

  abbrev pub PhaseKnown : List Files → Phase → Type 0
  PhaseKnown past idle = Unit
  PhaseKnown past (missed path mtime size) = Unit
  PhaseKnown past (loaded path mtime size rs) = CameFrom past path rs
  PhaseKnown past (returned path rs) = CameFrom past path rs

  abbrev pub EntriesKnown : List Files → List RulesCacheEntry → Type 0
  EntriesKnown past = All (λ e. CameFrom past e.path e.parsed_rules)

  -- No two entries are for one path.
  abbrev pub NotCached : Bytes → List RulesCacheEntry → Type 0
  NotCached path = All (λ e. e.path ≢ path)

  abbrev pub OnePerPath : List RulesCacheEntry → Type 0
  OnePerPath [] = Unit
  OnePerPath (e ∷ es) = NotCached e.path es × OnePerPath es

  pub record Sane (w : World) : Type 0 where
    pub now_in_past : (older : List Files) × (w.past ≡ w.now ∷ older)
    pub phases_known : (t : ℕ) → PhaseKnown w.past (w.phase t)
    pub entries_known : EntriesKnown w.past w.entries
    pub one_per_path : OnePerPath w.entries
