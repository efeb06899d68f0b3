-- ===== src/Registry/Replay/Mirror.antt =====
-- The leader's handlers change its storage and announce entries; a follower applies the entries to its
-- own storage by `handleEntriesFromLeader` of rhosus/registry/registry.go.
use rhosus.Base.{String, List, [], ◌∷◌, none, some, inr, ◌≡◌, refl, sym, ap, subst, ◌∙◌}
use rhosus.Storage.Types.{FileInfo, Policy, Token}
use rhosus.Storage.Store.{Env, get_file_by_path, store_file}
use rhosus.Storage.Store.Auth.{
  get_policy, get_token, store_policy, delete_policy, store_token, revoke_token,
}
use rhosus.Cluster.Types.{Entry}
use rhosus.Cluster.Types
use rhosus.Cluster.Node.{Cluster}
use rhosus.Cluster.Write.{Outcome, write_entry}
use rhosus.Cluster.Entries.{EntryCodecs, Timing}
use rhosus.Cluster.Entries.Written.{
  Encodes, IsWritten, write_assign_file_entry_lem, write_create_policy_entry_lem,
  write_delete_policy_entry_lem, write_create_token_entry_lem, write_revoke_token_entry_lem,
}
use rhosus.Registry.Types.{Registry}
use rhosus.Registry.Paths.{trim}
use rhosus.Registry.Files.{parent_of, register_file, handle_make_dir, new_dir}
use rhosus.Registry.Files.Register.{
  register_file-storage, handle_make_dir-storage, register_file-cluster, handle_make_dir-cluster,
}
use rhosus.Registry.Access.{
  ApiPolicy, new_policy, new_token, handle_create_policy, handle_delete_policy, handle_create_token,
  handle_revoke_token,
}
use rhosus.Registry.Access.Changes.{
  handle_create_policy-storage, handle_delete_policy-storage, handle_create_token-storage,
  handle_revoke_token-storage, handle_create_policy-cluster, handle_delete_policy-cluster,
  handle_create_token-cluster, handle_revoke_token-cluster,
}
use rhosus.Registry.Replay.{
  decoded, unregister_policy, unregister_token, apply_entry, handle_entries_from_leader,
}

module _ {senv : Env} {cenv : Types.Env} (codecs : EntryCodecs) where
  -- A change of the leader by one of its handlers, which the storage takes without an error, with the
  -- type and the payload of an entry for it: the payload encodes what the handler stores or removes.
  pub data Announces : Registry senv cenv → Entry → Registry senv cenv → Type 1 where
    registers :
        (at_time : Timing) (f : FileInfo) (parent : String) (r : Registry senv cenv) (e : Entry)
        → get_file_by_path f.path r.storage ≡ inr none
        → parent_of f.path r.storage ≡ inr parent
        → (store_file (record f { parent_id = parent }) r.storage).0 ≡ none
        → e.type ≡ Types.assign_file
        → Encodes codecs.assign_file e.payload
            (record { node_id = r.cluster.id; file = record f { parent_id = parent } })
        → Announces r e (register_file codecs at_time f r).1
    makes_dir :
        (at_time : Timing) (uid path parent : String) (r : Registry senv cenv) (e : Entry)
        → get_file_by_path (trim path) r.storage ≡ inr none
        → parent_of (trim path) r.storage ≡ inr parent
        → (store_file (new_dir uid parent (trim path)) r.storage).0 ≡ none
        → e.type ≡ Types.assign_file
        → Encodes codecs.assign_file e.payload
            (record { node_id = r.cluster.id; file = new_dir uid parent (trim path) })
        → Announces r e (handle_make_dir codecs at_time uid path r).1
    creates_policy :
        (at_time : Timing) (uid : String) (req : ApiPolicy) (r : Registry senv cenv) (e : Entry)
        → (store_policy (new_policy uid req) r.storage).0 ≡ none
        → e.type ≡ Types.create_policy
        → Encodes codecs.create_policy e.payload
            (record { node_id = r.cluster.id; policy = new_policy uid req })
        → Announces r e (handle_create_policy codecs at_time uid req r).1
    deletes_policy :
        (at_time : Timing) (p : Policy) (r : Registry senv cenv) (e : Entry)
        → get_policy p.name r.storage ≡ inr (some p)
        → (delete_policy p r.storage).0 ≡ none
        → e.type ≡ Types.delete_policy
        → Encodes codecs.delete_policy e.payload
            (record { node_id = r.cluster.id; policy_name = p.name })
        → Announces r e (handle_delete_policy codecs at_time p.name r).1
    creates_token :
        (at_time : Timing) (token : String) (policies : List String) (r : Registry senv cenv)
        (e : Entry)
        → (store_token (new_token at_time.now token policies) r.storage).0 ≡ none
        → e.type ≡ Types.create_token
        → Encodes codecs.create_token e.payload
            (record { node_id = r.cluster.id; token = new_token at_time.now token policies })
        → Announces r e (handle_create_token codecs at_time token policies r).1
    revokes_token :
        (at_time : Timing) (t : Token) (r : Registry senv cenv) (e : Entry)
        → get_token t.accessor r.storage ≡ inr (some t)
        → (revoke_token t r.storage).0 ≡ none
        → e.type ≡ Types.revoke_token
        → Encodes codecs.revoke_token e.payload
            (record { node_id = r.cluster.id; accessor = t.accessor })
        → Announces r e (handle_revoke_token codecs at_time t.accessor r).1

  -- A run of the leader, with the entries that it announces in order.
  pub data Run : Registry senv cenv → List Entry → Registry senv cenv → Type 1 where
    stop : (r : Registry senv cenv) → Run r [] r
    step :
        (r r' r'' : Registry senv cenv) (e : Entry) (es : List Entry)
        → Announces r e r'
        → Run r' es r''
        → Run r (e ∷ es) r''

  apply_entry-Announces :
      (r r' : Registry senv cenv) (e : Entry)
      → Announces r e r'
      → apply_entry codecs e r.storage ≡ r'.storage
  unfolding apply_entry decoded unregister_policy unregister_token
  apply_entry-Announces r _ e (registers at_time f parent _ _ absent above taken type enc) =
      rw (type, apply_entry, enc.decodes, decoded)
        (sym (register_file-storage codecs at_time f parent r absent above))
  apply_entry-Announces r _ e (makes_dir at_time uid path parent _ _ absent above taken type enc) =
      rw (type, apply_entry, enc.decodes, decoded)
        (sym (handle_make_dir-storage codecs at_time uid path parent r absent above))
  apply_entry-Announces r _ e (creates_policy at_time uid req _ _ taken type enc) =
      rw (type, apply_entry, enc.decodes, decoded)
        (sym (handle_create_policy-storage codecs at_time uid req r))
  apply_entry-Announces r _ e (deletes_policy at_time p _ _ found taken type enc) =
      rw (type, apply_entry, enc.decodes, decoded, unregister_policy, found)
        (sym (handle_delete_policy-storage codecs at_time p.name p r found))
  apply_entry-Announces r _ e (creates_token at_time token policies _ _ taken type enc) =
      rw (type, apply_entry, enc.decodes, decoded)
        (sym (handle_create_token-storage codecs at_time token policies r))
  apply_entry-Announces r _ e (revokes_token at_time t _ _ found taken type enc) =
      rw (type, apply_entry, enc.decodes, decoded, unregister_token, found)
        (sym (handle_revoke_token-storage codecs at_time t.accessor t r found))

  written-Announces :
      (r r' : Registry senv cenv) (e : Entry)
      → Announces r e r'
      → (at_time : Timing) × ((write_entry at_time.ready e.type e.payload at_time.now r.cluster).1
          ≡ r'.cluster)
  written-Announces r _ e (registers at_time f parent _ _ absent above taken type enc) = (
    at_time,
    rw type (
        sym (
          register_file-cluster codecs at_time f parent r absent above taken
          ∙ ap (λ (o : Outcome × Cluster cenv). o.1)
              (write_assign_file_entry_lem codecs at_time e.payload r.cluster
                (record f { parent_id = parent }) enc.encoded))),
  )
  written-Announces r _ e (makes_dir at_time uid path parent _ _ absent above taken type enc) = (
    at_time,
    rw type (
        sym (
          handle_make_dir-cluster codecs at_time uid path parent r absent above taken
          ∙ ap (λ (o : Outcome × Cluster cenv). o.1)
              (write_assign_file_entry_lem codecs at_time e.payload r.cluster
                (new_dir uid parent (trim path)) enc.encoded))),
  )
  written-Announces r _ e (creates_policy at_time uid req _ _ taken type enc) = (
    at_time,
    rw type (
        sym (
          handle_create_policy-cluster codecs at_time uid req r taken
          ∙ ap (λ (o : Outcome × Cluster cenv). o.1)
              (write_create_policy_entry_lem codecs at_time e.payload r.cluster (new_policy uid req)
                enc.encoded))),
  )
  written-Announces r _ e (deletes_policy at_time p _ _ found taken type enc) = (
    at_time,
    rw type (
        sym (
          handle_delete_policy-cluster codecs at_time p r found taken
          ∙ ap (λ (o : Outcome × Cluster cenv). o.1)
              (write_delete_policy_entry_lem codecs at_time e.payload r.cluster p.name
                enc.encoded))),
  )
  written-Announces r _ e (creates_token at_time token policies _ _ taken type enc) = (
    at_time,
    rw type (
        sym (
          handle_create_token-cluster codecs at_time token policies r taken
          ∙ ap (λ (o : Outcome × Cluster cenv). o.1)
              (write_create_token_entry_lem codecs at_time e.payload r.cluster
                (new_token at_time.now token policies) enc.encoded))),
  )
  written-Announces r _ e (revokes_token at_time t _ _ found taken type enc) = (
    at_time,
    rw type (
        sym (
          handle_revoke_token-cluster codecs at_time t r found taken
          ∙ ap (λ (o : Outcome × Cluster cenv). o.1)
              (write_revoke_token_entry_lem codecs at_time e.payload r.cluster t.accessor
                enc.encoded))),
  )

  IsWritten-Run :
      (r r' : Registry senv cenv) (es : List Entry)
      → Run r es r'
      → IsWritten r.cluster es r'.cluster
  IsWritten-Run r _ [] (stop _) = refl
  IsWritten-Run r r'' (e ∷ es) (step _ r' _ _ _ announced run) =
      let (at_time, same_cluster) = written-Announces r r' e announced in
      (
        at_time,
        subst (λ c. IsWritten c es r''.cluster) (sym same_cluster) (IsWritten-Run r' r'' es run),
      )

  replayed :
      (r r' : Registry senv cenv) (es : List Entry)
      → Run r es r'
      → handle_entries_from_leader codecs es r.storage ≡ r'.storage
  unfolding handle_entries_from_leader
  replayed r _ [] (stop _) = refl
  replayed r r'' (e ∷ es) (step _ r' _ _ _ announced run) =
      rw (handle_entries_from_leader, apply_entry-Announces r r' e announced)
        (replayed r' r'' es run)

  -- Let a leader's handlers register files and directories, and make and remove policies and tokens,
  -- each without an error of the storage and with a message that survives its encoding. Then the
  -- leader's cluster is handed exactly the types and payloads of the run's entries, in order. A
  -- follower that has the storage of the leader at the start of the run, and handles entries with
  -- these types and payloads in order, has the leader's storage at the end.
  pub handle_entries_from_leader-mirrors :
      (r r' : Registry senv cenv) (es : List Entry)
      → Run r es r'
      → IsWritten r.cluster es r'.cluster
        × (handle_entries_from_leader codecs es r.storage ≡ r'.storage)
  handle_entries_from_leader-mirrors r r' es run = (IsWritten-Run r r' es run, replayed r r' es run)
