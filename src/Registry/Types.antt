-- ===== src/Registry/Types.antt =====
-- The state of a registry, and how its handlers end.
use rhosus.Base.{ℕ, String, Bytes, Bool, Option, none, some, Dict}
use rhosus.Storage.Types.{Err}
use rhosus.Storage.Store.{Env, Storage}
use rhosus.Cluster.Types
use rhosus.Cluster.Node.{Cluster}
use rhosus.Cluster.Write.{Outcome, returned, blocked}

-- The errors of the registry: ErrFileExists, ErrNoSuchFileOrDirectory, those of the storage and of the
-- cluster, as they are or wrapped.
pub data RegistryErr : Type 0 where
  file_exists_err no_such_file_or_directory entry_not_found node_not_found : RegistryErr
  storage_err : Err → RegistryErr
  cluster_err : Types.Err → RegistryErr

-- A handler answers, fails, waits for the cluster for ever, or panics.
pub data Result (A : Type 0) : Type 0 where
  ok : A → Result A
  failed : RegistryErr → Result A
  waiting panicked : Result A

-- What the registry knows of a data node; `blocks_used` is none while metrics is nil.
pub record Node : Type 0 where
  pub info_id : String
  pub blocks_used : Option ℕ
  pub ping_retries : ℕ
  pub unavailable : Bool

-- transport_pb.BlockPlacementInfo
pub record PlacementInfo : Type 0 where
  pub block_id : String
  pub partition_id : String

-- fs_pb.Block
pub record FsBlock : Type 0 where
  pub id : String
  pub index : ℕ
  pub len : ℕ
  pub bytes : Bytes

pub record Registry (senv : Env) (cenv : Types.Env) : Type 0 where
  pub storage : Storage senv
  pub cluster : Cluster cenv
  pub nodes : Dict String Node

-- api_pb.CommonResponse
pub record CommonResponse : Type 0 where
  pub success : Bool
  pub err : String

-- The end of a write to the cluster, with the answer for nil.
unfoldable pub after_write : {A : Type 0} → A → Outcome → Result A
after_write a (returned none) = ok a
after_write a (returned (some e)) = failed (cluster_err e)
after_write a blocked = waiting
