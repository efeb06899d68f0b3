-- ===== src/Registry/Access.antt =====
-- rhosus/registry/sys_handlers.go: policies and tokens. New identifiers, tokens and the clock are
-- arguments. An error of the cluster is only logged.
pub mod Changes
use rhosus.Base.{ℕ, String, Option, none, some, List, [], ◌∷◌, map, ◌⊎◌, inl, inr}
use rhosus.Storage.Types.{Policy, PathRules, Token, Err}
use rhosus.Storage.Store.{Env, Storage}
use rhosus.Storage.Store.Auth.{
  store_policy, get_policy, list_policies, delete_policy, store_token, get_token, list_tokens,
  revoke_token,
}
use rhosus.Cluster.Types
use rhosus.Cluster.Write.{Outcome, returned, blocked}
use rhosus.Cluster.Entries.{
  EntryCodecs, Timing, write_create_policy_entry, write_delete_policy_entry,
  write_create_token_entry, write_revoke_token_entry,
}
use rhosus.Registry.Types.{Registry, Result, ok, failed, waiting, storage_err, entry_not_found}

-- api_pb.PolicyPathRules
pub record ApiPathRules : Type 0 where
  pub path : String
  pub capabilities : List String

-- api_pb.Policy, and the answer to a request for one.
pub record ApiPolicy : Type 0 where
  pub name : String
  pub paths : List ApiPathRules

-- The answer to a request for a token; Ttl is always "3m".
pub record ApiToken : Type 0 where
  pub accessor : String
  pub policies : List String
  pub ttl : String

-- The end of a write whose error is only logged.
pub after_log : {A : Type 0} → A → Outcome → Result A
after_log a (returned _) = ok a
after_log a blocked = waiting

pub policy_paths : String → List ApiPathRules → List PathRules
policy_paths name [] = []
policy_paths name (p ∷ ps) =
    record { path = p.path; policy = name; capabilities_bitmap = 0; capabilities = p.capabilities }
    ∷ policy_paths name ps

pub api_paths : List PathRules → List ApiPathRules
api_paths [] = []
api_paths (p ∷ ps) = record { path = p.path; capabilities = p.capabilities } ∷ api_paths ps

pub api_policy : Policy → ApiPolicy
unfolding api_paths
api_policy p = record { name = p.name; paths = api_paths p.paths }

pub api_token : Token → ApiToken
api_token t = record { accessor = t.accessor; policies = t.policies; ttl = "3m" }

-- The policy that `HandleCreatePolicy` makes.
pub new_policy : String → ApiPolicy → Policy
unfolding policy_paths
new_policy uid req = record { id = uid; name = req.name; paths = policy_paths req.name req.paths }

-- The token that `HandleCreateToken` makes at a time, in milliseconds.
abbrev pub new_token : ℕ → String → List String → Token
new_token now token policies = record {
  id = token;
  accessor = token;
  ttl = 1000;
  creation_time = now;
  policies = policies;
}

module _ {senv : Env} {cenv : Types.Env} where
  -- `HandleCreatePolicy`
  unfoldable pub handle_create_policy :
      EntryCodecs
      → Timing
      → String
      → ApiPolicy
      → Registry senv cenv
      → Result Unit × Registry senv cenv
  unfolding new_policy after_log
  handle_create_policy codecs at_time uid req r =
      let (err, s) = store_policy (new_policy uid req) r.storage in
      let (outcome, c) = write_create_policy_entry codecs at_time (new_policy uid req) r.cluster in
      elim err [
        | some e ↦ (failed (storage_err e), record r { storage = s })
        | none ↦ (after_log tt outcome, record r { storage = s; cluster = c })
      ]

  -- `HandleGetPolicy`
  pub handle_get_policy : String → Registry senv cenv → Result ApiPolicy
  unfolding api_policy
  handle_get_policy name r = elim (get_policy name r.storage) [
    | inl e ↦ failed (storage_err e)
    | inr found ↦ elim found [ none ↦ failed entry_not_found | some p ↦ ok (api_policy p) ]
  ]

  -- `HandleListPolicies`
  pub handle_list_policies : Registry senv cenv → Result (List ApiPolicy)
  unfolding api_policy
  handle_list_policies r = elim (list_policies r.storage) [
    | inl e ↦ failed (storage_err e)
    | inr ps ↦ ok (map api_policy ps)
  ]

  -- `HandleDeletePolicy`; the answer for a policy that is not there is nil, without an error.
  pub handle_delete_policy :
      EntryCodecs → Timing → String → Registry senv cenv → Result (Option Unit) × Registry senv cenv
  unfolding after_log
  handle_delete_policy codecs at_time name r = elim (get_policy name r.storage) [
    | inl e ↦ (failed (storage_err e), r)
    | inr found ↦ elim found [
      | none ↦ (ok none, r)
      | some p ↦
          let (err, s) = delete_policy p r.storage in
          let (outcome, c) = write_delete_policy_entry codecs at_time p.name r.cluster in
          elim err [
            | some e ↦ (failed (storage_err e), record r { storage = s })
            | none ↦ (after_log (some tt) outcome, record r { storage = s; cluster = c })
          ]
    ]
  ]

  -- `HandleCreateToken`; `token` is the generated one.
  pub handle_create_token :
      EntryCodecs
      → Timing
      → String
      → List String
      → Registry senv cenv
      → Result String × Registry senv cenv
  unfolding after_log
  handle_create_token codecs at_time token policies r =
      let t = new_token at_time.now token policies in
      let (err, s) = store_token t r.storage in
      let (outcome, c) = write_create_token_entry codecs at_time t r.cluster in
      elim err [
        | some e ↦ (failed (storage_err e), record r { storage = s })
        | none ↦ (after_log token outcome, record r { storage = s; cluster = c })
      ]

  -- `HandleGetToken`
  pub handle_get_token : String → Registry senv cenv → Result ApiToken
  unfolding api_token
  handle_get_token accessor r = elim (get_token accessor r.storage) [
    | inl e ↦ failed (storage_err e)
    | inr found ↦ elim found [ none ↦ failed entry_not_found | some t ↦ ok (api_token t) ]
  ]

  -- `HandleListTokens`
  pub handle_list_tokens : Registry senv cenv → Result (List ApiToken)
  unfolding api_token
  handle_list_tokens r = elim (list_tokens r.storage) [
    | inl e ↦ failed (storage_err e)
    | inr ts ↦ ok (map api_token ts)
  ]

  -- `HandleRevokeToken`, which answers nil in every case but an error.
  pub handle_revoke_token :
      EntryCodecs → Timing → String → Registry senv cenv → Result Unit × Registry senv cenv
  unfolding after_log
  handle_revoke_token codecs at_time accessor r = elim (get_token accessor r.storage) [
    | inl e ↦ (failed (storage_err e), r)
    | inr found ↦ elim found [
      | none ↦ (ok tt, r)
      | some t ↦
          let (err, s) = revoke_token t r.storage in
          let (outcome, c) = write_revoke_token_entry codecs at_time t.accessor r.cluster in
          elim err [
            | some e ↦ (failed (storage_err e), record r { storage = s })
            | none ↦ (after_log tt outcome, record r { storage = s; cluster = c })
          ]
    ]
  ]
