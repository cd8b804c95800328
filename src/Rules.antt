-- ===== src/Rules.antt =====
-- The types of src/cacher_rules.h. A null pointer is `none`; a null-terminated array is a list.
pub mod Parse
pub mod Select
pub mod Fields
pub mod Nodes
pub mod Parsed
pub mod First
pub mod Allowed
pub mod Memory
use apache_cacher.Prelude.{ℕ, Bool, List, Option, Bytes}
use apache_cacher.Prelude.Int.{ℤ}

pub record CacherRule : Type 0 where
  pub path : Option Bytes
  pub query : Option Bytes
  pub methods : Option (List Bytes)
  pub enabled : Bool
  pub ttl_seconds : ℤ
  -- with the -1 that ends the array
  pub status_codes : Option (List ℤ)
  pub content_types : Option (List Bytes)
  pub bypass_cookies : Option (List Bytes)
  pub vary : Option (List Bytes)

pub record CacherRuleset : Type 0 where
  pub rules : List CacherRule
