-- ===== src/Registry/Access/Changes.antt =====
-- What the handlers of policies and tokens do to the storage and to the cluster.
use rhosus.Base.{String, List, none, some, inl, inr, ◌≡◌, refl, Option-cases}
use rhosus.Storage.Types.{Policy, Token}
use rhosus.Storage.Store.{Env}
use rhosus.Storage.Store.Auth.{
  store_policy, get_policy, delete_policy, store_token, get_token, revoke_token,
}
use rhosus.Cluster.Types
use rhosus.Cluster.Entries.{
  EntryCodecs, Timing, write_create_policy_entry, write_delete_policy_entry,
  write_create_token_entry, write_revoke_token_entry,
}
use rhosus.Registry.Types.{Registry}
use rhosus.Registry.Access.{
  ApiPolicy, new_policy, new_token, handle_create_policy, handle_delete_policy, handle_create_token,
  handle_revoke_token,
}

module _ {senv : Env} {cenv : Types.Env} (codecs : EntryCodecs) (at_time : Timing) where
  pub handle_create_policy-storage :
      (uid : String) (req : ApiPolicy) (r : Registry senv cenv)
      → (handle_create_policy codecs at_time uid req r).1.storage
        ≡ (store_policy (new_policy uid req) r.storage).1
  unfolding handle_create_policy
  handle_create_policy-storage uid req r =
      elim (Option-cases (store_policy (new_policy uid req) r.storage).0) [
        | inl ok ↦ rw (ok, handle_create_policy) refl
        | inr (err, e) ↦ rw (e, handle_create_policy) refl
      ]

  pub handle_delete_policy-storage :
      (name : String) (p : Policy) (r : Registry senv cenv)
      → get_policy name r.storage ≡ inr (some p)
      → (handle_delete_policy codecs at_time name r).1.storage ≡ (delete_policy p r.storage).1
  unfolding handle_delete_policy
  handle_delete_policy-storage name p r found = elim (Option-cases (delete_policy p r.storage).0) [
    | inl ok ↦ rw (found, handle_delete_policy, ok) refl
    | inr (err, e) ↦ rw (found, handle_delete_policy, e) refl
  ]

  pub handle_create_token-storage :
      (token : String) (policies : List String) (r : Registry senv cenv)
      → (handle_create_token codecs at_time token policies r).1.storage
        ≡ (store_token (new_token at_time.now token policies) r.storage).1
  unfolding handle_create_token
  handle_create_token-storage token policies r =
      elim (Option-cases (store_token (new_token at_time.now token policies) r.storage).0) [
        | inl ok ↦ rw (ok, handle_create_token) refl
        | inr (err, e) ↦ rw (e, handle_create_token) refl
      ]

  pub handle_revoke_token-storage :
      (accessor : String) (t : Token) (r : Registry senv cenv)
      → get_token accessor r.storage ≡ inr (some t)
      → (handle_revoke_token codecs at_time accessor r).1.storage ≡ (revoke_token t r.storage).1
  unfolding handle_revoke_token
  handle_revoke_token-storage accessor t r found =
      elim (Option-cases (revoke_token t r.storage).0) [
        | inl ok ↦ rw (found, handle_revoke_token, ok) refl
        | inr (err, e) ↦ rw (found, handle_revoke_token, e) refl
      ]

  pub handle_create_policy-cluster :
      (uid : String) (req : ApiPolicy) (r : Registry senv cenv)
      → (store_policy (new_policy uid req) r.storage).0 ≡ none
      → (handle_create_policy codecs at_time uid req r).1.cluster
        ≡ (write_create_policy_entry codecs at_time (new_policy uid req) r.cluster).1
  unfolding handle_create_policy
  handle_create_policy-cluster uid req r ok = rw (ok, handle_create_policy) refl

  pub handle_delete_policy-cluster :
      (p : Policy) (r : Registry senv cenv)
      → get_policy p.name r.storage ≡ inr (some p)
      → (delete_policy p r.storage).0 ≡ none
      → (handle_delete_policy codecs at_time p.name r).1.cluster
        ≡ (write_delete_policy_entry codecs at_time p.name r.cluster).1
  unfolding handle_delete_policy
  handle_delete_policy-cluster p r found ok = rw (found, handle_delete_policy, ok) refl

  pub handle_create_token-cluster :
      (token : String) (policies : List String) (r : Registry senv cenv)
      → (store_token (new_token at_time.now token policies) r.storage).0 ≡ none
      → (handle_create_token codecs at_time token policies r).1.cluster
        ≡ (write_create_token_entry codecs at_time
            (new_token at_time.now token policies)
            r.cluster).1
  unfolding handle_create_token
  handle_create_token-cluster token policies r ok = rw (ok, handle_create_token) refl

  pub handle_revoke_token-cluster :
      (t : Token) (r : Registry senv cenv)
      → get_token t.accessor r.storage ≡ inr (some t)
      → (revoke_token t r.storage).0 ≡ none
      → (handle_revoke_token codecs at_time t.accessor r).1.cluster
        ≡ (write_revoke_token_entry codecs at_time t.accessor r.cluster).1
  unfolding handle_revoke_token
  handle_revoke_token-cluster t r found ok = rw (found, handle_revoke_token, ok) refl
