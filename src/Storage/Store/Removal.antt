-- ===== src/Storage/Store/Removal.antt =====
-- `DeleteFileWithBlocks` of rhosus/registry/storage/storage_files.go is atomic in memory.
use rhosus.Base.{
  String, string_key, Option, none, some, List, [], ◌∷◌, ◌≡◌, ◌≢◌, ◌↔◌, ◌⊎◌, inl, inr, arith, ◌∙◌,
  refl, sym, ap, In, map, Option-cases,
}
use rhosus.Storage.Types.{Err, FileInfo, BlockInfo}
use rhosus.Storage.Tables.{IsTable, blocks_schema, files_schema}
use rhosus.Storage.Store.Blocks.{get_blocks-IsSortedBy, Deleted, delete_each-Deleted}
use rhosus.Storage.Store.{
  Env, Storage, entry_type_file, entry_type_block, get_blocks, delete_each, delete_entries,
  then_delete, delete_file_with_blocks,
}

empty : {A : Type 0} (xs : List A) → ((a : A) → In a xs → ⊥) → xs ≡ []
empty [] h = refl
empty (x ∷ xs) h = elim (h x (inl refl)) [ ]

module _ {env : Env} (laws : IsTable env.blocks blocks_schema (λ b. b.id))
    (file_laws : IsTable env.files files_schema (λ f. f.id)) where
  delete_entries-tables :
      (type : String) (keys : List String) (s : Storage env)
      → ((delete_entries type keys s).1.blocks ≡ s.blocks)
        × ((delete_entries type keys s).1.files ≡ s.files)
  unfolding delete_entries
  delete_entries-tables type keys s = (refl, refl)

  then_delete-tables :
      (type : String) (keys : List String) (p : Option Err × Storage env)
      → ((then_delete type keys p).1.blocks ≡ p.1.blocks)
        × ((then_delete type keys p).1.files ≡ p.1.files)
  unfolding then_delete
  then_delete-tables type keys (some e, s) = (refl, refl)
  then_delete-tables type keys (none, s) = delete_entries-tables type keys s

  removals-tables :
      (f : FileInfo) (keys : List String) (s : Storage env)
      → let s' =
          (then_delete entry_type_block keys (delete_entries entry_type_file (f.path ∷ []) s)).1 in
        (s'.blocks ≡ s.blocks) × (s'.files ≡ s.files)
  removals-tables f keys s =
      let (a, b) =
        then_delete-tables entry_type_block keys (delete_entries entry_type_file (f.path ∷ []) s) in
      let (c, d) = delete_entries-tables entry_type_file (f.path ∷ []) s in (a ∙ c, b ∙ d)

  delete_file_with_blocks-aborts :
      (f : FileInfo) (s : Storage env) (bs : List BlockInfo) (err : Err)
      → env.blocks.get "file_id" f.id s.blocks ≡ inr bs
      → ((delete_each env.blocks bs s.blocks).0 ≡ some err)
        ⊎ (((delete_each env.blocks bs s.blocks).0 ≡ none)
            × ((env.files.delete f s.files).0 ≡ some err))
      → delete_file_with_blocks f s ≡ (some err, s)
  unfolding delete_file_with_blocks
  delete_file_with_blocks-aborts f s bs err got (inl e) = rw (got, e, delete_file_with_blocks) refl
  delete_file_with_blocks-aborts f s bs err got (inr (ok, e)) =
      rw (got, ok, e, delete_file_with_blocks) refl

  delete_file_with_blocks-commits :
      (f : FileInfo) (s : Storage env) (bs : List BlockInfo)
      → env.blocks.get "file_id" f.id s.blocks ≡ inr bs
      → (delete_each env.blocks bs s.blocks).0 ≡ none
      → (env.files.delete f s.files).0 ≡ none
      → ((delete_file_with_blocks f s).1.blocks ≡ (delete_each env.blocks bs s.blocks).1)
        × ((delete_file_with_blocks f s).1.files ≡ (env.files.delete f s.files).1)
  unfolding delete_file_with_blocks
  delete_file_with_blocks-commits f s bs got ok file_ok =
      rw (got, ok, file_ok, delete_file_with_blocks)
        (removals-tables f (map (λ b. b.id) bs) (record s {
          blocks = (delete_each env.blocks bs s.blocks).1;
          files = (env.files.delete f s.files).1;
        }))

  no_blocks :
      (f : FileInfo) (bs : List BlockInfo) (s : Storage env) (t : env.blocks.State)
      → ((b : BlockInfo) → In b bs ↔ ((laws.row b.id t ≡ some b) × (b.file_id ≡ f.id)))
      → Deleted laws bs t s.blocks
      → get_blocks f.id s ≡ inr []
  unfolding Deleted
  no_blocks f bs s t is_block (gone, kept, others, indexed) =
      let (cs, got, _, is_left) = get_blocks-IsSortedBy laws f.id s indexed in
      got
      ∙ ap inr (
          empty cs (λ b m.
            let (there, eq) = (is_left b).0 m in
            ground (arith, gone b ((is_block b).1 (kept b.id b there, eq)))))

  -- Nothing of the file is left, and the blocks of other files are as they were.
  pub IsRemoved : FileInfo → Storage env → Storage env → Type 0
  IsRemoved f s s' =
      (get_blocks f.id s' ≡ inr [])
      × (file_laws.row f.id s'.files ≡ none)
      × ((b : BlockInfo)
          → laws.row b.id s.blocks ≡ some b
          → b.file_id ≢ f.id
          → laws.row b.id s'.blocks ≡ some b)

  removed :
      (f : FileInfo) (s : Storage env) (bs : List BlockInfo)
      → ((b : BlockInfo) → In b bs ↔ ((laws.row b.id s.blocks ≡ some b) × (b.file_id ≡ f.id)))
      → Deleted laws bs s.blocks (delete_each env.blocks bs s.blocks).1
      → ((delete_file_with_blocks f s).1.blocks ≡ (delete_each env.blocks bs s.blocks).1)
        × ((delete_file_with_blocks f s).1.files ≡ (env.files.delete f s.files).1)
      → IsRemoved f s (delete_file_with_blocks f s).1
  unfolding IsRemoved Deleted
  removed f s bs is_block deleted (blocks, files) =
      let deleted' : Deleted laws bs s.blocks (delete_file_with_blocks f s).1.blocks =
        rw blocks deleted in
      (
        no_blocks f bs (delete_file_with_blocks f s).1 s.blocks is_block deleted',
        rw files
            (ground (arith, file_laws.row-delete f s.files f.id, string_key.same_iff f.id f.id)),
        λ b there apart.
            deleted'.2 b.id (λ c m e.
              let (c_there, c_file) = (is_block c).0 m in
              let same_row : c ≡ b =
                ground (arith, sym c_there ∙ ap (λ i. laws.row i s.blocks) e ∙ there) in
              apart (ap (λ (b : BlockInfo). b.file_id) (sym same_row) ∙ c_file))
            ∙ there,
      )

  left :
      (f : FileInfo) (s : Storage env) (err : Err)
      → delete_file_with_blocks f s ≡ (some err, s)
      → ((delete_file_with_blocks f s).0 ≢ none)
        × ((delete_file_with_blocks f s).1.blocks ≡ s.blocks)
        × ((delete_file_with_blocks f s).1.files ≡ s.files)
  left f s err e = rw e ((λ no. ground arith), refl, refl)

  -- `delete_file_with_blocks` is atomic in memory: it fails and leaves both tables, or the file and all
  -- its blocks are gone from them and other files keep their blocks.
  pub delete_file_with_blocks_atomic :
      (f : FileInfo) (s : Storage env)
      → laws.IsIndexed s.blocks
      → file_laws.IsIndexed s.files
      → (((delete_file_with_blocks f s).0 ≢ none)
          × ((delete_file_with_blocks f s).1.blocks ≡ s.blocks)
          × ((delete_file_with_blocks f s).1.files ≡ s.files))
        ⊎ IsRemoved f s (delete_file_with_blocks f s).1
  delete_file_with_blocks_atomic f s indexed file_indexed =
      let (bs, got, is_block) = laws.get_lem "file_id" f.id _ s.blocks refl indexed in
      elim (Option-cases (delete_each env.blocks bs s.blocks).0) [
        | inr (err, e) ↦ inl (left f s err (delete_file_with_blocks-aborts f s bs err got (inl e)))
        | inl ok ↦ elim (Option-cases (env.files.delete f s.files).0) [
          | inr (err, e) ↦
              inl (left f s err (delete_file_with_blocks-aborts f s bs err got (inr (ok, e))))
          | inl file_ok ↦ inr (
              removed f s bs is_block (delete_each-Deleted laws bs s.blocks ok indexed)
                (delete_file_with_blocks-commits f s bs got ok file_ok))
        ]
      ]
