-- ===== src/Registry/Placing/Fetch.antt =====
-- `GetFileHandler` of rhosus/registry/files.go and `fillAndSortBlocks` of util.go: a file's blocks come
-- back in order.
use rhosus.Base.{
  ℕ, String, some, List, [], ◌∷◌, map, Dict, ◌⊎◌, inr, ◌≡◌, refl, All, IsSortedBy, sort_by,
  sort_by-IsSortedBy, sort_by-perm, IsSortedBy-agree, All-sort_by,
}
use mathlib.Core.List.{Perm}
use rhosus.Storage.Types.{FileInfo, BlockInfo}
use rhosus.Storage.Store.{Env, get_file_by_path}
use rhosus.Storage.Store
use rhosus.Cluster.Types
use rhosus.Registry.Types.{Registry, FsBlock, PlacementInfo, RegistryErr, ok}
use rhosus.Registry.Remove.{ByNode}
use rhosus.Registry.Placing.{
  index_of, stored_indices, with_index, fill_and_sort_blocks, first_placements, fetch_blocks,
  get_file_handler,
}

All-with_index :
    (m : Dict String ℕ) (bs : List FsBlock)
    → All (λ b. index_of m b.id ≡ b.index) (map (with_index m) bs)
unfolding with_index
All-with_index m [] = tt
All-with_index m (b ∷ bs) = (refl, All-with_index m bs)

-- What `fill_and_sort_blocks` answers is in the order of the indices, and is what the nodes answered
-- with the indices of the storage filled in.
pub fill_and_sort_blocks-IsSortedBy :
    (blocks : List BlockInfo) (d_blocks : List FsBlock)
    → IsSortedBy (λ b. b.index) (fill_and_sort_blocks blocks d_blocks)
      × Perm
          (fill_and_sort_blocks blocks d_blocks)
          (map (with_index (stored_indices blocks)) d_blocks)
unfolding fill_and_sort_blocks
fill_and_sort_blocks-IsSortedBy blocks d_blocks =
    let m = stored_indices blocks in
    let number : FsBlock → ℕ = λ b. index_of m b.id in
    let filled = map (with_index m) d_blocks in
    (
      IsSortedBy-agree number (λ b. b.index) (sort_by number filled)
          (All-sort_by number (λ b. number b ≡ b.index) filled (All-with_index m d_blocks))
          (sort_by-IsSortedBy number filled),
      sort_by-perm number filled,
    )

-- What `get_file_handler` answers, by what its parts do.
pub get_file_handler_lem :
    {senv : Env} {cenv : Types.Env}
    (call : String → List PlacementInfo → RegistryErr ⊎ List FsBlock) (path : String)
    (r : Registry senv cenv) (f : FileInfo) (blocks : List BlockInfo) (requests : ByNode)
    → get_file_by_path path r.storage ≡ inr (some f)
    → Store.get_blocks f.id r.storage ≡ inr blocks
    → first_placements blocks [] ≡ some requests
    → (sent : List FsBlock) × (get_file_handler call path r ≡ ok sent)
      × IsSortedBy (λ b. b.index) sent
      × Perm sent (map (with_index (stored_indices blocks)) (fetch_blocks call r.nodes requests))
unfolding get_file_handler
get_file_handler_lem call path r f blocks requests found stored placed =
    let fetched = fetch_blocks call r.nodes requests in
    let (sorted, perm) = fill_and_sort_blocks-IsSortedBy blocks fetched in
    (
      fill_and_sort_blocks blocks fetched,
      rw (found, get_file_handler, stored, placed) refl,
      sorted,
      perm,
    )
