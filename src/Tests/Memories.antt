-- ===== src/Tests/Memories.antt =====
-- Runs of the theorems on the memory of the rules.
use apache_cacher.Prelude.{true, false, [], ◌∷◌, some, ◌≡◌, refl}
use apache_cacher.Rules.Parse.{ruleset_parse}
use apache_cacher.Rules.Memory.{ruleset_parse_block, ruleset_free}
use apache_cacher.Rules.Memory.Heap.{Heap, Owes}
use apache_cacher.Rules.Memory.Leaks.{ruleset_free-ruleset_parse_block}
use apache_cacher.Rules.Memory.Refines.{result_of, ruleset_parse_block_refines}
use apache_cacher.Tests.Jsons.{rules_text, toy_cjson}

-- a heap whose allocator grants three blocks, refuses the fourth, and grants the others
abbrev tight_heap : Heap
tight_heap = record {
  next = 7;
  live = 3 ∷ [];
  documents = 0;
  grants = true ∷ true ∷ true ∷ false ∷ [];
  broken = false;
}

ruleset_free-ruleset_parse_block_example :
    let (r, h) = ruleset_parse_block toy_cjson (some rules_text) 256 tight_heap in
    Owes tight_heap (ruleset_free r.ruleset_block h).1 [] 0
ruleset_free-ruleset_parse_block_example =
    ruleset_free-ruleset_parse_block toy_cjson (some rules_text) 256 tight_heap

ruleset_parse_block_refines_example :
    result_of
      (ruleset_parse_block toy_cjson (some rules_text) 256 (record tight_heap { grants = [] })).0
    ≡ ruleset_parse toy_cjson (some rules_text) 256
ruleset_parse_block_refines_example =
    ruleset_parse_block_refines toy_cjson (some rules_text) 256 (record tight_heap { grants = [] })
      refl
