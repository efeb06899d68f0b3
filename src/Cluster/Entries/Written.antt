-- ===== src/Cluster/Entries/Written.antt =====
-- What the methods of rhosus/registry/cluster/write.go hand to `writeEntry`, for a message that can be
-- encoded.
use rhosus.Base.{String, Bytes, List, [], ◌∷◌, inr, ◌≡◌, refl}
use rhosus.Storage.Types.{FileInfo, BlockInfo, Policy, Token}
use rhosus.Storage.Store.{Codec}
use rhosus.Cluster.Types.{Env, Entry}
use rhosus.Cluster.Types
use rhosus.Cluster.Node.{Cluster}
use rhosus.Cluster.Write.{write_entry}
use rhosus.Cluster.Entries.{
  EntryCodecs, Timing, write_encoded, write_assign_file_entry, write_delete_file_entry,
  write_delete_blocks_entry, write_create_policy_entry, write_delete_policy_entry,
  write_create_token_entry, write_revoke_token_entry,
}

-- The message survives its encoding, which is the payload.
pub record Encodes {A : Type 0} (codec : Codec A) (payload : Bytes) (a : A) : Type 0 where
  pub encoded : codec.marshal a ≡ inr payload
  pub decodes : codec.unmarshal payload ≡ inr a

-- From the cluster c, exactly the types and the payloads of `es` are written, in order, and the
-- cluster is then c'.
abbrev pub IsWritten : {env : Env} → Cluster env → List Entry → Cluster env → Type 0
IsWritten c [] c' = c ≡ c'
IsWritten c (e ∷ es) c' =
    (at_time : Timing) × IsWritten (write_entry at_time.ready e.type e.payload at_time.now c).1 es
      c'

module _ {env : Env} (codecs : EntryCodecs) (at_time : Timing) (payload : Bytes)
    (c : Cluster env) where
  pub write_assign_file_entry_lem :
      (f : FileInfo)
      → codecs.assign_file.marshal (record { node_id = c.id; file = f }) ≡ inr payload
      → write_assign_file_entry codecs at_time f c
        ≡ write_entry at_time.ready Types.assign_file payload at_time.now c
  unfolding write_assign_file_entry write_encoded
  write_assign_file_entry_lem f encoded = rw (encoded, write_assign_file_entry, write_encoded) refl

  pub write_delete_file_entry_lem :
      (f : FileInfo)
      → codecs.delete_file.marshal (record { node_id = c.id; file = f }) ≡ inr payload
      → write_delete_file_entry codecs at_time f c
        ≡ write_entry at_time.ready Types.delete_file payload at_time.now c
  unfolding write_delete_file_entry write_encoded
  write_delete_file_entry_lem f encoded = rw (encoded, write_delete_file_entry, write_encoded) refl

  pub write_delete_blocks_entry_lem :
      (bs : List BlockInfo)
      → codecs.delete_blocks.marshal (record { node_id = c.id; blocks = bs }) ≡ inr payload
      → write_delete_blocks_entry codecs at_time bs c
        ≡ write_entry at_time.ready Types.delete_blocks payload at_time.now c
  unfolding write_delete_blocks_entry write_encoded
  write_delete_blocks_entry_lem bs encoded =
      rw (encoded, write_delete_blocks_entry, write_encoded) refl

  pub write_create_policy_entry_lem :
      (p : Policy)
      → codecs.create_policy.marshal (record { node_id = c.id; policy = p }) ≡ inr payload
      → write_create_policy_entry codecs at_time p c
        ≡ write_entry at_time.ready Types.create_policy payload at_time.now c
  unfolding write_create_policy_entry write_encoded
  write_create_policy_entry_lem p encoded =
      rw (encoded, write_create_policy_entry, write_encoded) refl

  pub write_delete_policy_entry_lem :
      (name : String)
      → codecs.delete_policy.marshal (record { node_id = c.id; policy_name = name }) ≡ inr payload
      → write_delete_policy_entry codecs at_time name c
        ≡ write_entry at_time.ready Types.delete_policy payload at_time.now c
  unfolding write_delete_policy_entry write_encoded
  write_delete_policy_entry_lem name encoded =
      rw (encoded, write_delete_policy_entry, write_encoded) refl

  pub write_create_token_entry_lem :
      (t : Token)
      → codecs.create_token.marshal (record { node_id = c.id; token = t }) ≡ inr payload
      → write_create_token_entry codecs at_time t c
        ≡ write_entry at_time.ready Types.create_token payload at_time.now c
  unfolding write_create_token_entry write_encoded
  write_create_token_entry_lem t encoded =
      rw (encoded, write_create_token_entry, write_encoded) refl

  pub write_revoke_token_entry_lem :
      (accessor : String)
      → codecs.revoke_token.marshal (record { node_id = c.id; accessor = accessor }) ≡ inr payload
      → write_revoke_token_entry codecs at_time accessor c
        ≡ write_entry at_time.ready Types.revoke_token payload at_time.now c
  unfolding write_revoke_token_entry write_encoded
  write_revoke_token_entry_lem accessor encoded =
      rw (encoded, write_revoke_token_entry, write_encoded) refl
