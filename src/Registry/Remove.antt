-- ===== src/Registry/Remove.antt =====
-- rhosus/registry/files.go and sys_handlers.go: files and directories are removed. What the data nodes
-- answer to the request to remove blocks changes nothing in the registry.
pub mod Children
pub mod Diverges
use rhosus.Base.{
  ℕ, zero, suc, String, string_key, Bool, true, false, Option, none, some, List, [], ◌∷◌, ◌++◌,
  Dict, lookup, insert, ◌⊎◌, inl, inr, if◌then◌else◌,
}
use rhosus.Storage.Types.{FileInfo, FileType, file_type, BlockInfo, Placement, Err}
use rhosus.Storage.Store.{
  Env, Storage, get_file_by_path, get_files_by_parent_id, get_blocks, delete_file_with_blocks,
}
use rhosus.Cluster.Types
use rhosus.Cluster.Entries.{EntryCodecs, Timing, write_delete_file_entry, write_delete_blocks_entry}
use rhosus.Registry.Paths.{trim}
use rhosus.Registry.Types.{
  Registry, Node, PlacementInfo, RegistryErr, Result, ok, failed, waiting, panicked, storage_err,
  CommonResponse, after_write,
}
use rhosus.Registry.Files.{success, refusal}

-- The requests for the nodes, by node.
abbrev pub ByNode : Type 0
ByNode = Dict String (List PlacementInfo)

abbrev pub known_requests : Option (List PlacementInfo) → List PlacementInfo
known_requests none = []
known_requests (some is) = is

-- `bMap[nodeID] = append(bMap[nodeID], …)`
unfoldable pub add_request : String → PlacementInfo → ByNode → ByNode
add_request node i m = insert node (known_requests (lookup node m) ++ i ∷ []) m

pub group_placements : String → List Placement → ByNode → ByNode
unfolding add_request
group_placements block [] m = m
group_placements block (p ∷ ps) m =
    group_placements block ps
      (add_request p.node_id (record { block_id = block; partition_id = p.partition_id }) m)

pub group_blocks : List BlockInfo → ByNode → ByNode
unfolding group_placements
group_blocks [] m = m
group_blocks (b ∷ bs) m = group_blocks bs (group_placements b.id b.placements m)

-- Each node of the requests is known; on another one the code panics.
pub all_known : ByNode → Dict String Node → Bool
all_known [] nodes = true
all_known ((id, is) ∷ m) nodes = elim (lookup id nodes) [
  | none ↦ false
  | some n ↦ all_known m nodes
]

abbrev is_file : FileType → Bool
is_file file_type = true
is_file _ = false

module _ {senv : Env} where
  -- `RemoveFileBlocks`; the error is none for nil.
  pub remove_file_blocks : Dict String Node → FileInfo → Storage senv → Result Unit × Storage senv
  unfolding group_blocks all_known
  remove_file_blocks nodes f s = elim (get_blocks f.id s) [
    | inl e ↦ (failed (storage_err e), s)
    | inr bs ↦
        let (err, s') = delete_file_with_blocks f s in
        if all_known (group_blocks bs []) nodes
        then elim err [ some e ↦ (failed (storage_err e), s') | none ↦ (ok tt, s') ]
        else (panicked, s)
  ]

  -- A second step, if the first ends well.
  pub then_do :
      Result Unit × Storage senv
      → (Storage senv → Result Unit × Storage senv)
      → Result Unit × Storage senv
  then_do (ok _, s) next = next s
  then_do (failed e, s) next = (failed e, s)
  then_do (waiting, s) next = (waiting, s)
  then_do (panicked, s) next = (panicked, s)

  -- The loop of `killChildren` over the children.
  pub for_each :
      (FileInfo → Storage senv → Result Unit × Storage senv)
      → List FileInfo
      → Storage senv
      → Result Unit × Storage senv
  unfolding then_do
  for_each kill [] s = (ok tt, s)
  for_each kill (c ∷ cs) s = then_do (kill c s) (for_each kill cs)

  -- `killChildren`, with fuel for the depth of the tree; `waiting` is no fuel.
  pub kill_children : ℕ → Dict String Node → FileInfo → Storage senv → Result Unit × Storage senv
  unfolding remove_file_blocks for_each
  kill_children zero nodes f s = (waiting, s)
  kill_children (suc k) nodes f s = elim (get_files_by_parent_id f.id s) [
    | inl e ↦ (failed (storage_err e), s)
    | inr children ↦ elim children [
      | [] ↦ (ok tt, s)
      | c ∷ cs ↦
          then_do (if is_file f.type then remove_file_blocks nodes f s else (ok tt, s))
            (for_each (kill_children k nodes) (c ∷ cs))
    ]
  ]

-- The second entry, if the first was written.
pub second_write :
    {A : Type 0} {senv : Env} {cenv : Types.Env}
    → Result Unit
    → Registry senv cenv
    → Result A × Registry senv cenv
    → Result A × Registry senv cenv
second_write (ok _) r next = next
second_write (failed e) r next = (failed e, r)
second_write waiting r next = (waiting, r)
second_write panicked r next = (panicked, r)

-- The two entries of a removal, and the answer.
pub announce_removal :
    {senv : Env} {cenv : Types.Env}
    → EntryCodecs
    → Timing
    → Timing
    → FileInfo
    → List BlockInfo
    → Registry senv cenv
    → Result CommonResponse × Registry senv cenv
unfolding second_write
announce_removal codecs first second f bs r =
    let (outcome, c) = write_delete_file_entry codecs first f r.cluster in
    let (outcome', c') = write_delete_blocks_entry codecs second bs c in
    second_write (after_write tt outcome) (record r { cluster = c })
      (after_write success outcome', record r { cluster = c' })

-- The rest of the removal, if the storage took it.
pub after_removal :
    {A : Type 0} {senv : Env} {cenv : Types.Env}
    → Registry senv cenv
    → (Registry senv cenv → Result A × Registry senv cenv)
    → Result Unit × Storage senv
    → Result A × Registry senv cenv
after_removal r next (ok _, s) = next (record r { storage = s })
after_removal r next (failed e, s) = (failed e, record r { storage = s })
after_removal r next (waiting, s) = (waiting, record r { storage = s })
after_removal r next (panicked, s) = (panicked, record r { storage = s })

-- `HandleRemoveFileOrPath`
pub handle_remove_file_or_path :
    {senv : Env} {cenv : Types.Env}
    → ℕ
    → EntryCodecs
    → Timing
    → Timing
    → String
    → Registry senv cenv
    → Result CommonResponse × Registry senv cenv
unfolding kill_children remove_file_blocks then_do announce_removal after_removal
handle_remove_file_or_path fuel codecs first second req_path r =
    elim (get_file_by_path (trim req_path) r.storage) [
      | inl e ↦ (failed (storage_err e), r)
      | inr found ↦ elim found [
        | none ↦ (ok (refusal "no such file or directory"), r)
        | some f ↦ elim (get_blocks f.id r.storage) [
          | inl e ↦ (failed (storage_err e), r)
          | inr bs ↦ after_removal r (announce_removal codecs first second f bs) (
              then_do (kill_children fuel r.nodes f r.storage)
                (λ s. if is_file f.type then remove_file_blocks r.nodes f s else (ok tt, s)))
        ]
      ]
    ]
