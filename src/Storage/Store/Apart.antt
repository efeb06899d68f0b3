-- ===== src/Storage/Store/Apart.antt =====
-- The stores of blocks, roles, tokens and policies in memory leave the table of files.
use rhosus.Base.{List, ◌≡◌, inl, inr, refl, Option-cases}
use rhosus.Storage.Types.{BlockInfo, Role, Token, Policy}
use rhosus.Storage.Store.{
  Env, Storage, store_block_in_memory, store_role_in_memory, store_token_in_memory,
  store_policy_in_memory, put_blocks, insert_blocks,
}

module _ {env : Env} where
  pub store_block_in_memory-files :
      (b : BlockInfo) (s : Storage env) → (store_block_in_memory b s).1.files ≡ s.files
  unfolding store_block_in_memory
  store_block_in_memory-files b s = elim (Option-cases (env.blocks.insert b s.blocks).0) [
    | inl ok ↦ rw (ok, store_block_in_memory) refl
    | inr (err, e) ↦ rw (e, store_block_in_memory) refl
  ]

  pub store_role_in_memory-files :
      (r : Role) (s : Storage env) → (store_role_in_memory r s).1.files ≡ s.files
  unfolding store_role_in_memory
  store_role_in_memory-files r s = elim (Option-cases (env.roles.insert r s.roles).0) [
    | inl ok ↦ rw (ok, store_role_in_memory) refl
    | inr (err, e) ↦ rw (e, store_role_in_memory) refl
  ]

  pub store_token_in_memory-files :
      (t : Token) (s : Storage env) → (store_token_in_memory t s).1.files ≡ s.files
  unfolding store_token_in_memory
  store_token_in_memory-files t s = elim (Option-cases (env.tokens.insert t s.tokens).0) [
    | inl ok ↦ rw (ok, store_token_in_memory) refl
    | inr (err, e) ↦ rw (e, store_token_in_memory) refl
  ]

  pub store_policy_in_memory-files :
      (p : Policy) (s : Storage env) → (store_policy_in_memory p s).1.files ≡ s.files
  unfolding store_policy_in_memory
  store_policy_in_memory-files p s = elim (Option-cases (env.policies.insert p s.policies).0) [
    | inl ok ↦ rw (ok, store_policy_in_memory) refl
    | inr (err, e) ↦ rw (e, store_policy_in_memory) refl
  ]

  pub put_blocks-files :
      (bs : List BlockInfo) (s : Storage env) → (put_blocks bs s).1.files ≡ s.files
  unfolding put_blocks
  put_blocks-files bs s = elim (Option-cases (insert_blocks env.blocks bs s.blocks).0) [
    | inl ok ↦ rw (ok, put_blocks) refl
    | inr (err, e) ↦ rw (e, put_blocks) refl
  ]
