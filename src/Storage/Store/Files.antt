-- ===== src/Storage/Store/Files.antt =====
-- rhosus/registry/storage/storage_files.go: files that are stored are found.
use rhosus.Base.{
  Bytes, List, In, ◌↔◌, Option-cases, none_ne_some, String, string_key, none, some, ◌≡◌, ◌≢◌, ◌⊎◌,
  inl, inr, same, arith, if◌then◌else◌, ◌∙◌, refl, sym,
}
use rhosus.Storage.Types.{Err, FileInfo}
use rhosus.Storage.Tables.{IsTable, IsComplete, files_schema}
use rhosus.Storage.Tables.Insert.{IsFresh, first-insert}
use rhosus.Storage.Store.{
  Env, Storage, store_file, store_file_in_memory, put_entry, then_put, get_files_by_parent_id,
  delete_file, delete_entries, get_file, get_file_by_path, entry_type_file,
}

module _ {env : Env} (laws : IsTable env.files files_schema (λ f. f.id)) where
  put_entry-files :
      (type key : String) (v : Err ⊎ Bytes) (s : Storage env)
      → (put_entry type key v s).1.files ≡ s.files
  unfolding put_entry
  put_entry-files type key (inl e) s = refl
  put_entry-files type key (inr v) s = refl

  pub store_file_in_memory-ok :
      (f : FileInfo) (s : Storage env)
      → IsComplete files_schema f
      → store_file_in_memory f s ≡ (none, record s { files = (env.files.insert f s.files).1 })
  unfolding store_file_in_memory
  store_file_in_memory-ok f s complete =
      rw (laws.insert_ok f s.files complete, store_file_in_memory) refl

  -- The table of files after a store, whatever the backend answers.
  pub store_file-files :
      (f : FileInfo) (s : Storage env)
      → IsComplete files_schema f
      → (store_file f s).1.files ≡ (env.files.insert f s.files).1
  unfolding store_file then_put
  store_file-files f s complete =
      rw (store_file, store_file_in_memory-ok f s complete)
        (put_entry-files entry_type_file f.path (env.file_codec.marshal f) _)

  -- Let no other file have the path of `f`, and each indexed field of `f` be set. After `store_file f`
  -- both its path and its identifier find it, whatever the backend answered. Each other identifier
  -- has the file it had.
  pub store_file-get_file_by_path :
      (f : FileInfo) (s : Storage env)
      → laws.IsIndexed s.files
      → IsComplete files_schema f
      → ((i : String) (q : FileInfo) → laws.row i s.files ≡ some q → q.path ≡ f.path → q.id ≡ f.id)
      → (get_file_by_path f.path (store_file f s).1 ≡ inr (some f))
        × (get_file f.id (store_file f s).1 ≡ inr (some f))
        × ((i : String) → f.id ≢ i → laws.row i (store_file f s).1.files ≡ laws.row i s.files)
        × laws.IsIndexed (store_file f s).1.files
  unfolding get_file_by_path get_file
  store_file-get_file_by_path f s indexed complete alone =
      let fresh : IsFresh laws f s.files = (
        (λ _ i q there eq. eq),
        ((λ _ i q there eq. alone i q there eq), ((λ no i q there eq. ground arith), tt)),
      ) in
      rw (store_file-files f s complete, get_file_by_path, get_file)
        (
          first-insert laws "path" _ f s.files refl refl indexed complete fresh,
          first-insert laws "id" _ f s.files refl refl indexed complete fresh,
          (λ i ne.
              ground (arith, laws.row-insert f s.files i complete, string_key.same_iff f.id i)),
          laws.insert-IsIndexed f s.files indexed complete fresh,
        )

  -- The files whose parent has an identifier.
  pub get_files_by_parent_id_lem :
      (id : String) (s : Storage env)
      → laws.IsIndexed s.files
      → (fs : List FileInfo) × (get_files_by_parent_id id s ≡ inr fs)
        × ((f : FileInfo) → In f fs ↔ ((laws.row f.id s.files ≡ some f) × (f.parent_id ≡ id)))
  unfolding get_files_by_parent_id
  get_files_by_parent_id_lem id s indexed = laws.get_lem "parent_id" id _ s.files refl indexed

  -- A file that is removed is no longer in memory, and other files are as they were.
  pub delete_file-row :
      (f : FileInfo) (s : Storage env) (i : String)
      → laws.row i (delete_file f s).1.files ≡ (if same f.id i then none else laws.row i s.files)
  unfolding delete_file delete_entries
  delete_file-row f s i = elim (Option-cases (env.files.delete f s.files).0) [
    | inl ok ↦ rw (ok, delete_file, delete_entries) (laws.row-delete f s.files i)
    | inr (err, e) ↦ elim (Option-cases (laws.row f.id s.files)) [
      | inl missing ↦ rw (e, delete_file) (ground (arith, missing, string_key.same_iff f.id i))
      | inr (g, there) ↦
          let ok = laws.delete_ok f s.files (ground (arith, there)) in
          elim (none_ne_some (sym ok ∙ e)) [ ]
    ]
  ]
