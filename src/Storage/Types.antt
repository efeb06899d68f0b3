-- ===== src/Storage/Types.antt =====
-- The messages of rhosus/pb/control.proto that the storage keeps, and its errors. Fields that the
-- code never reads nor sets are left out.
use rhosus.Base.{ℕ, String, Bytes, List}

pub data FileType : Type 0 where
  dir_type file_type symlink_type : FileType

pub record FileInfo : Type 0 where
  pub id : String
  pub parent_id : String
  pub type : FileType
  pub name : String
  pub path : String
  pub file_size : ℕ
  pub permission : ℕ
  pub replication : ℕ

pub record Placement : Type 0 where
  pub node_id : String
  pub partition_id : String

-- `placements` is the field Blocks.
pub record BlockInfo : Type 0 where
  pub id : String
  pub index : ℕ
  pub file_id : String
  pub placements : List Placement

pub record Role : Type 0 where
  pub id : String
  pub name : String
  pub permissions : List String
  pub password : Bytes

-- Times are int64, and not negative in what the code makes.
pub record Token : Type 0 where
  pub id : String
  pub accessor : String
  pub ttl : ℕ
  pub creation_time : ℕ
  pub policies : List String

pub record PathRules : Type 0 where
  pub path : String
  pub policy : String
  pub capabilities_bitmap : ℕ
  pub capabilities : List String

pub record Policy : Type 0 where
  pub id : String
  pub name : String
  pub paths : List PathRules

-- Errors of the two databases and of the encoding, ErrShutdown, and those that `fmt.Errorf` wraps.
pub data Err : Type 0 where
  shut_down : Err
  library : ℕ → Err
  wrapped : Err → Err
