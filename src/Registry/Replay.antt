-- ===== src/Registry/Replay.antt =====
-- `handleEntriesFromLeader` of rhosus/registry/registry.go: a follower applies the leader's entries to
-- its own storage. Errors are only logged.
pub mod Mirror
use rhosus.Base.{String, Bytes, Option, none, some, List, [], ◌∷◌, ◌⊎◌, inl, inr, ◌≡◌, refl}
use rhosus.Storage.Types.{Err, FileInfo, BlockInfo, Policy, Token}
use rhosus.Storage.Store.{Codec, Env, Storage, store_file, delete_file, put_blocks, delete_blocks}
use rhosus.Storage.Store.Auth.{
  store_policy, get_policy, delete_policy, store_token, get_token, revoke_token,
}
use rhosus.Cluster.Types.{Entry}
use rhosus.Cluster.Types
use rhosus.Cluster.Entries.{EntryCodecs, EntryDeleteFile}

module _ {env : Env} where
  -- A message is decoded and applied; one that cannot be decoded is passed by.
  pub decoded :
      {A : Type 0} → Codec A → Bytes → (A → Storage env → Storage env) → Storage env → Storage env
  decoded codec bytes apply s = elim (codec.unmarshal bytes) [ inl e ↦ s | inr a ↦ apply a s ]

  pub unregister_policy : String → Storage env → Storage env
  unregister_policy name s = elim (get_policy name s) [
    | inl e ↦ s
    | inr found ↦ elim found [ none ↦ s | some p ↦ (delete_policy p s).1 ]
  ]

  pub unregister_token : String → Storage env → Storage env
  unregister_token accessor s = elim (get_token accessor s) [
    | inl e ↦ s
    | inr found ↦ elim found [ none ↦ s | some t ↦ (revoke_token t s).1 ]
  ]

  pub apply_entry : EntryCodecs → Entry → Storage env → Storage env
  unfolding decoded unregister_policy unregister_token
  apply_entry codecs e s = elim e.type [
    | Types.assign_file ↦ decoded codecs.assign_file e.payload (λ a s. (store_file a.file s).1) s
    | Types.delete_file ↦ decoded codecs.delete_file e.payload (λ a s. (delete_file a.file s).1) s
    | Types.assign_blocks ↦
        decoded codecs.assign_blocks e.payload (λ a s. (put_blocks a.blocks s).1) s
    | Types.delete_blocks ↦
        decoded codecs.delete_blocks e.payload (λ a s. (delete_blocks a.blocks s).1) s
    | Types.create_policy ↦
        decoded codecs.create_policy e.payload (λ a s. (store_policy a.policy s).1) s
    | Types.delete_policy ↦
        decoded codecs.delete_policy e.payload (λ a s. unregister_policy a.policy_name s) s
    | Types.create_token ↦
        decoded codecs.create_token e.payload (λ a s. (store_token a.token s).1) s
    | Types.revoke_token ↦
        decoded codecs.revoke_token e.payload (λ a s. unregister_token a.accessor s) s
  ]

  pub handle_entries_from_leader : EntryCodecs → List Entry → Storage env → Storage env
  unfolding apply_entry
  handle_entries_from_leader codecs [] s = s
  handle_entries_from_leader codecs (e ∷ es) s =
      handle_entries_from_leader codecs es (apply_entry codecs e s)

  -- What a follower does with an entry that removes a file.
  pub apply_entry-delete_file :
      (codecs : EntryCodecs) (e : Entry) (s : Storage env) (a : EntryDeleteFile)
      → e.type ≡ Types.delete_file
      → codecs.delete_file.unmarshal e.payload ≡ inr a
      → apply_entry codecs e s ≡ (delete_file a.file s).1
  unfolding apply_entry decoded
  apply_entry-delete_file codecs e s a type decodes = rw (type, apply_entry, decoded, decodes) refl
