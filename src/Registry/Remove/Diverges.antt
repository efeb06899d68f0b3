-- ===== src/Registry/Remove/Diverges.antt =====
-- `HandleRemoveFileOrPath` of rhosus/registry/sys_handlers.go on a directory, at the leader and at a
-- follower.
use rhosus.Base.{
  ℕ, ◌<◌, String, string_key, none, some, List, ◌≡◌, ◌∙◌, inr, arith, if◌then◌else◌, refl,
}
use rhosus.Storage.Types.{FileInfo, BlockInfo, dir_type}
use rhosus.Storage.Tables.{IsTable, files_schema}
use rhosus.Storage.Store.{Env, get_file_by_path, get_blocks}
use rhosus.Cluster.Types
use rhosus.Cluster.Node.{Cluster}
use rhosus.Cluster.Write.{returned, write_entry}
use rhosus.Cluster.Entries.{EntryCodecs, Timing, write_delete_file_entry, write_delete_blocks_entry}
use rhosus.Cluster.Entries.Written.{
  Encodes, write_delete_file_entry_lem, write_delete_blocks_entry_lem,
}
use rhosus.Registry.Types.{Registry, ok, after_write}
use rhosus.Registry.Paths.{trim}
use rhosus.Registry.Files.{success}
use rhosus.Storage.Store.Files.{delete_file-row}
use rhosus.Registry.Replay.{apply_entry, apply_entry-delete_file}
use rhosus.Registry.Remove.{
  kill_children, then_do, remove_file_blocks, announce_removal, second_write, after_removal,
  is_file, handle_remove_file_or_path,
}
use rhosus.Registry.Remove.Children.{IsTree, kill_children-idle}

module _ {env : Env} {cenv : Types.Env} (laws : IsTable env.files files_schema (λ f. f.id)) where
  idle :
      (rank : String → ℕ) (fuel : ℕ) (f : FileInfo) (r : Registry env cenv)
      → laws.IsIndexed r.storage.files
      → IsTree laws rank r.storage
      → laws.row f.id r.storage.files ≡ some f
      → f.type ≡ dir_type
      → rank f.id < fuel
      → then_do
          (kill_children fuel r.nodes f r.storage)
          (λ s. if is_file f.type then remove_file_blocks r.nodes f s else (ok tt, s))
        ≡ (ok tt, r.storage)
  unfolding then_do
  idle rank fuel f r indexed tree there dir enough =
      rw
        (
          kill_children-idle laws rank fuel r.nodes f r.storage indexed tree there enough,
          then_do,
          dir,
        )
        refl

  -- The removal of a directory announces that its file and blocks are removed.
  handle_remove_file_or_path-directory :
      (rank : String → ℕ) (fuel : ℕ) (codecs : EntryCodecs) (first second : Timing) (path : String)
      (f : FileInfo) (bs : List BlockInfo) (r : Registry env cenv)
      → laws.IsIndexed r.storage.files
      → IsTree laws rank r.storage
      → get_file_by_path (trim path) r.storage ≡ inr (some f)
      → laws.row f.id r.storage.files ≡ some f
      → f.type ≡ dir_type
      → get_blocks f.id r.storage ≡ inr bs
      → rank f.id < fuel
      → handle_remove_file_or_path fuel codecs first second path r
        ≡ announce_removal codecs first second f bs r
  unfolding handle_remove_file_or_path after_removal
  handle_remove_file_or_path-directory rank fuel codecs first second path f bs r indexed tree found
        there dir blocks enough =
      rw
        (
          found,
          handle_remove_file_or_path,
          blocks,
          idle rank fuel f r indexed tree there dir enough,
          after_removal,
        )
        refl

  -- What is written when both entries of a removal are.
  announce_removal-cluster :
      (codecs : EntryCodecs) (first second : Timing) (f : FileInfo) (bs : List BlockInfo)
      (r : Registry env cenv) (e e' : Types.Entry) (c c' : Cluster cenv)
      → codecs.delete_file.marshal (record { node_id = r.cluster.id; file = f }) ≡ inr e.payload
      → codecs.delete_blocks.marshal (record { node_id = c.id; blocks = bs }) ≡ inr e'.payload
      → write_entry first.ready Types.delete_file e.payload first.now r.cluster ≡ (returned none, c)
      → write_entry second.ready Types.delete_blocks e'.payload second.now c ≡ (returned none, c')
      → announce_removal codecs first second f bs r ≡ (ok success, record r { cluster = c' })
  unfolding announce_removal second_write after_write
  announce_removal-cluster codecs first second f bs r e e' c c' file blocks taken taken' =
      let one : write_delete_file_entry codecs first f r.cluster ≡ (returned none, c) =
        write_delete_file_entry_lem codecs first e.payload r.cluster f file ∙ taken in
      let two : write_delete_blocks_entry codecs second bs c ≡ (returned none, c') =
        write_delete_blocks_entry_lem codecs second e'.payload c bs blocks ∙ taken' in
      rw (one, announce_removal, two) refl

  -- Let the path name a directory in a tree of files, let the fuel be above its rank, and let the
  -- cluster take the entry of the file and then the one of the blocks, which encode the directory and
  -- its blocks. Then the handler answers a success, the cluster has been handed these two entries, and
  -- the leader keeps its whole storage, the directory with it. A follower with the same storage that
  -- applies the entry of the file has no such directory any more.
  pub handle_remove_file_or_path-diverges :
      (rank : String → ℕ) (fuel : ℕ) (codecs : EntryCodecs) (first second : Timing) (path : String)
      (f : FileInfo) (bs : List BlockInfo) (r : Registry env cenv) (e e' : Types.Entry)
      (c c' : Cluster cenv)
      → laws.IsIndexed r.storage.files
      → IsTree laws rank r.storage
      → get_file_by_path (trim path) r.storage ≡ inr (some f)
      → laws.row f.id r.storage.files ≡ some f
      → f.type ≡ dir_type
      → get_blocks f.id r.storage ≡ inr bs
      → rank f.id < fuel
      → (e.type ≡ Types.delete_file)
      → Encodes codecs.delete_file e.payload (record { node_id = r.cluster.id; file = f })
      → codecs.delete_blocks.marshal (record { node_id = c.id; blocks = bs }) ≡ inr e'.payload
      → write_entry first.ready Types.delete_file e.payload first.now r.cluster ≡ (returned none, c)
      → write_entry second.ready Types.delete_blocks e'.payload second.now c ≡ (returned none, c')
      → (handle_remove_file_or_path fuel codecs first second path r
          ≡ (ok success, record r { cluster = c' }))
        × (laws.row f.id (apply_entry codecs e r.storage).files ≡ none)
  handle_remove_file_or_path-diverges rank fuel codecs first second path f bs r e e' c c' indexed
        tree found there dir blocks enough type enc encoded taken taken' =
      (
        handle_remove_file_or_path-directory rank fuel codecs first second path f bs r indexed tree
              found there dir blocks enough
            ∙ announce_removal-cluster codecs first second f bs r e e' c c' enc.encoded encoded
                taken taken',
        rw (apply_entry-delete_file codecs e r.storage _ type enc.decodes)
            (ground (arith, delete_file-row laws f r.storage f.id, string_key.same_iff f.id f.id)),
      )
