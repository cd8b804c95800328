-- ===== src/Cache/Lookup.antt =====
-- The read path: `cacher_cache_lookup` of src/cacher_cache.c.
pub mod Hit
pub mod Served
pub mod Found
pub mod Raced
use apache_cacher.Prelude.{ℕ, Bool, true, false, Option, none, some, if◌then◌else◌, Bytes}
use apache_cacher.Prelude.Int.{ℤ, pos, negsuc, ◌-ℤ◌, ltb_ℤ, leb_ℤ}
use apache_cacher.Apr.{Strtok, Decimal, Digest, Tables}
use apache_cacher.Request.{RequestRec, Request}
use apache_cacher.Rules.{CacherRule}
use apache_cacher.Cache.Key.{cache_key_paths}
use apache_cacher.Cache.Headers.{replay_headers}
use apache_cacher.Cache.Meta.{CacherEntryMeta, read_meta}
use apache_cacher.Cache.FileSystem.{FileSystem}

-- The open body, and what the out parameters receive.
pub record CacheHit : Type 0 where
  pub body_path : Bytes
  pub status : ℤ
  pub length : ℕ
  pub age : ℤ

-- meta.created > 0 ? now - meta.created : -1
unfoldable pub entry_age : CacherEntryMeta → ℤ → ℤ
unfolding ◌-ℤ◌
entry_age meta now = if ltb_ℤ (pos 0) meta.created then now -ℤ meta.created else negsuc 0

-- What follows the opening of the body, at the time `later`: a body that is not there is a miss.
unfoldable pub hit_of_size : CacherEntryMeta → ℤ → Bytes → Option ℕ → Option CacheHit
unfolding entry_age
hit_of_size meta later body_path none = none
hit_of_size meta later body_path (some size) = some (record {
  body_path = body_path;
  status = meta.status;
  length = size;
  age = entry_age meta later;
})

module _ (tk : Strtok) (tb : Tables) (dec : Decimal) (dg : Digest) (fs : FileSystem) where
  open fs use {Disk}

  -- what follows cacher_cache_read_meta: the request, as the replay leaves it, and the hit
  unfoldable pub lookup_meta :
      Request → Disk → ℤ → ℤ → Bytes → Option (CacherEntryMeta × Bytes) → Request × Option CacheHit
  unfolding replay_headers hit_of_size
  lookup_meta q d now later body_path none = (q, none)
  lookup_meta q d now later body_path (some (meta, headers_at)) =
      if leb_ℤ meta.expires now then (q, none) else (
        record q { r = replay_headers tk tb q.r headers_at },
        hit_of_size meta later body_path (fs.file_open d body_path),
      )

  unfoldable pub lookup_paths :
      Request → Disk → ℤ → ℤ → Option (Bytes × Bytes) → Request × Option CacheHit
  unfolding lookup_meta read_meta
  lookup_paths q d now later none = (q, none)
  lookup_paths q d now later (some (header_path, body_path)) =
      lookup_meta q d now later body_path (read_meta tk dec (fs.file_read d header_path))

  -- `cacher_cache_lookup`, whose two calls of apr_time_now return `now` and `later`
  unfoldable pub cache_lookup :
      Request → Disk → ℤ → ℤ → Option Bytes → CacherRule → Request × Option CacheHit
  unfolding lookup_paths cache_key_paths
  cache_lookup q d now later root rule =
      lookup_paths q d now later (cache_key_paths tk tb dg q root rule)
