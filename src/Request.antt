-- ===== src/Request.antt =====
-- What the module reads and writes of Apache's `request_rec`.
use apache_cacher.Prelude.{Bool, List, Option, Bytes}
use apache_cacher.Prelude.Int.{ℤ}
use apache_cacher.Apr.{Headers}

pub record RequestRec : Type 0 where
  pub method : Bytes
  pub uri : Bytes
  pub args : Option Bytes
  -- parsed_uri.path
  pub parsed_path : Option Bytes
  pub hostname : Option Bytes
  pub user : Option Bytes
  pub header_only : Bool
  -- main != NULL
  pub is_subrequest : Bool
  -- connection && connection->aborted
  pub aborted : Bool
  pub status : ℤ
  pub content_type : Option Bytes
  pub headers_in : Headers
  pub headers_out : Headers

-- A request with the chain of its `prev` pointers, the nearest first.
pub record Request : Type 0 where
  pub r : RequestRec
  pub prevs : List RequestRec
