-- ===== src/Cluster/Entries.antt =====
-- rhosus/registry/cluster/write.go: the entries that the registry writes, encoded and handed to
-- `writeEntry`.
pub mod Written
use rhosus.Base.{ℕ, String, Bytes, Bool, some, List, ◌⊎◌, inl, inr}
use rhosus.Storage.Types.{FileInfo, BlockInfo, Policy, Token, Err}
use rhosus.Storage.Store.{Codec}
use rhosus.Cluster.Types.{Env, EntryType, not_encoded}
use rhosus.Cluster.Types
use rhosus.Cluster.Node.{Cluster}
use rhosus.Cluster.Write.{Outcome, returned, write_entry}

pub record EntryAssignFile : Type 0 where
  pub node_id : String
  pub file : FileInfo

pub record EntryDeleteFile : Type 0 where
  pub node_id : String
  pub file : FileInfo

pub record EntryAssignBlocks : Type 0 where
  pub node_id : String
  pub blocks : List BlockInfo

pub record EntryDeleteBlocks : Type 0 where
  pub node_id : String
  pub blocks : List BlockInfo

pub record EntryCreatePolicy : Type 0 where
  pub node_id : String
  pub policy : Policy

pub record EntryDeletePolicy : Type 0 where
  pub node_id : String
  pub policy_name : String

pub record EntryCreateToken : Type 0 where
  pub node_id : String
  pub token : Token

pub record EntryRevokeToken : Type 0 where
  pub node_id : String
  pub accessor : String

-- Their generated encodings.
pub record EntryCodecs : Type 0 where
  pub assign_file : Codec EntryAssignFile
  pub delete_file : Codec EntryDeleteFile
  pub assign_blocks : Codec EntryAssignBlocks
  pub delete_blocks : Codec EntryDeleteBlocks
  pub create_policy : Codec EntryCreatePolicy
  pub delete_policy : Codec EntryDeletePolicy
  pub create_token : Codec EntryCreateToken
  pub revoke_token : Codec EntryRevokeToken

-- Whether the pipeline receives an entry in time, and the clock.
pub record Timing : Type 0 where
  pub ready : Bool
  pub now : ℕ

module _ {env : Env} (codecs : EntryCodecs) (at_time : Timing) where
  -- An entry is written if it can be encoded.
  unfoldable pub write_encoded : EntryType → Err ⊎ Bytes → Cluster env → Outcome × Cluster env
  write_encoded type (inl e) c = (returned (some not_encoded), c)
  write_encoded type (inr payload) c = write_entry at_time.ready type payload at_time.now c

  -- `WriteAssignFileEntry`
  pub write_assign_file_entry : FileInfo → Cluster env → Outcome × Cluster env
  unfolding write_encoded
  write_assign_file_entry f c =
      write_encoded Types.assign_file
        (codecs.assign_file.marshal (record { node_id = c.id; file = f })) c

  -- `WriteDeleteFileEntry`
  pub write_delete_file_entry : FileInfo → Cluster env → Outcome × Cluster env
  unfolding write_encoded
  write_delete_file_entry f c =
      write_encoded Types.delete_file
        (codecs.delete_file.marshal (record { node_id = c.id; file = f })) c

  -- `WriteAssignBlocksEntry`
  unfoldable pub write_assign_blocks_entry : List BlockInfo → Cluster env → Outcome × Cluster env
  unfolding write_encoded
  write_assign_blocks_entry bs c =
      write_encoded Types.assign_blocks
        (codecs.assign_blocks.marshal (record { node_id = c.id; blocks = bs })) c

  -- `WriteDeleteBlocksEntry`
  pub write_delete_blocks_entry : List BlockInfo → Cluster env → Outcome × Cluster env
  unfolding write_encoded
  write_delete_blocks_entry bs c =
      write_encoded Types.delete_blocks
        (codecs.delete_blocks.marshal (record { node_id = c.id; blocks = bs })) c

  -- `WriteCreatePolicyEntry`
  unfoldable pub write_create_policy_entry : Policy → Cluster env → Outcome × Cluster env
  unfolding write_encoded
  write_create_policy_entry p c =
      write_encoded Types.create_policy
        (codecs.create_policy.marshal (record { node_id = c.id; policy = p })) c

  -- `WriteDeletePolicyEntry`
  pub write_delete_policy_entry : String → Cluster env → Outcome × Cluster env
  unfolding write_encoded
  write_delete_policy_entry name c =
      write_encoded Types.delete_policy
        (codecs.delete_policy.marshal (record { node_id = c.id; policy_name = name })) c

  -- `WriteCreateTokenEntry`
  pub write_create_token_entry : Token → Cluster env → Outcome × Cluster env
  unfolding write_encoded
  write_create_token_entry t c =
      write_encoded Types.create_token
        (codecs.create_token.marshal (record { node_id = c.id; token = t })) c

  -- `WriteRevokeTokenEntry`
  pub write_revoke_token_entry : String → Cluster env → Outcome × Cluster env
  unfolding write_encoded
  write_revoke_token_entry accessor c =
      write_encoded Types.revoke_token
        (codecs.revoke_token.marshal (record { node_id = c.id; accessor = accessor })) c
