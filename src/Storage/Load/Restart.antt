-- ===== src/Storage/Load/Restart.antt =====
-- What a start finds in the backend of rhosus/registry/storage: the files are back in their table.
use rhosus.Base.{
  String, string_key, same, none, some, List, [], ◌∷◌, ◌≡◌, ◌⊎◌, inl, inr, In, All, arith, refl,
  sym, ◌∙◌, ap, Option-cases, Bool-cases,
}
use rhosus.Storage.Types.{FileInfo}
use rhosus.Storage.Tables.{Table, IsTable, IsComplete, files_schema}
use rhosus.Storage.Tables.Insert.{IsFresh}
use rhosus.Storage.Store.{
  Entry, Codec, Env, Storage, get_file_by_path, store_file_in_memory, entry_type_file,
}
use rhosus.Storage.Store.Files.{store_file_in_memory-ok}
use rhosus.Storage.Load.Later.{load_from_backend-files}
use rhosus.Storage.Load.{load_entries, load_type, load_from_backend}

-- Files of which no two different ones have one identifier or one path.
abbrev pub AreApart : List FileInfo → Type 0
AreApart fs = (f g : FileInfo) → In f fs → In g fs → (f.id ≡ g.id) ⊎ (f.path ≡ g.path) → f ≡ g

-- The entries are those of the files, in order.
abbrev pub DecodeTo : Codec FileInfo → List Entry → List FileInfo → Type 0
DecodeTo codec [] [] = Unit
DecodeTo codec (e ∷ es) (f ∷ fs) = (codec.unmarshal e.value ≡ inr f) × DecodeTo codec es fs
DecodeTo codec _ _ = ⊥

module _ {table : Table FileInfo} (laws : IsTable table files_schema (λ f. f.id)) where
  -- The table holds some files, and no others.
  abbrev HasOnly : (FileInfo → Type 0) → table.State → Type 0
  HasOnly Done t =
      laws.IsIndexed t
      × ((i : String) (q : FileInfo) → laws.row i t ≡ some q → Done q)
      × ((f : FileInfo) → Done f → laws.row f.id t ≡ some f)

  HasOnly-insert :
      (Done : FileInfo → Type 0) (f : FileInfo) (t : table.State)
      → IsComplete files_schema f
      → ((g : FileInfo) → Done g → (f.id ≡ g.id) ⊎ (f.path ≡ g.path) → f ≡ g)
      → HasOnly Done t
      → HasOnly (λ g. (f ≡ g) ⊎ Done g) (table.insert f t).1
  HasOnly-insert Done f t complete apart (indexed, only, has) =
      let row = λ (i : String). laws.row-insert f t i complete in
      let fresh : IsFresh laws f t = (
        (λ _ i q there eq. eq),
        (
          (λ _ i q there eq.
              ap (λ (g : FileInfo). g.id) (sym (apart q (only i q there) (inr (sym eq))))),
          ((λ never i q there eq. ground arith), tt),
        ),
      ) in
      (
        laws.insert-IsIndexed f t indexed complete fresh,
        (λ i q there. elim (Bool-cases (same f.id i)) [
          | inl eq ↦ inl (ground (arith, row i))
          | inr ne ↦ inr (only i q (ground (arith, row i)))
        ]),
        λ g done. elim (Bool-cases (same f.id g.id)) [
          | inl eq ↦
              let alike : f ≡ g = elim done [
                | inl e ↦ e
                | inr d ↦ apart g d (inl ((string_key.same_iff f.id g.id).0 eq))
              ] in
              ground (arith, row g.id, alike)
          | inr ne ↦ elim done [
            | inl e ↦ ground (arith, string_key.same_iff f.id g.id, ap (λ (h : FileInfo). h.id) e)
            | inr d ↦ ground (arith, row g.id, has g d)
          ]
        ],
      )

module _ {env : Env} (laws : IsTable env.files files_schema (λ f. f.id)) where
  load_entries-HasOnly :
      (Done : FileInfo → Type 0) (es : List Entry) (fs : List FileInfo) (s : Storage env)
      → DecodeTo env.file_codec es fs
      → All (IsComplete files_schema) fs
      → ((f g : FileInfo) → In f fs → In g fs ⊎ Done g → (f.id ≡ g.id) ⊎ (f.path ≡ g.path) → f ≡ g)
      → HasOnly laws Done s.files
      → HasOnly laws
          (λ g. In g fs ⊎ Done g)
          (load_entries env.file_codec store_file_in_memory es s).files
  unfolding load_entries
  load_entries-HasOnly Done [] [] s decodes complete apart (indexed, only, has) = (
    indexed,
    (λ i q there. inr (only i q there)),
    λ f done. elim done [ inl m ↦ elim m [ ] | inr d ↦ has f d ],
  )
  load_entries-HasOnly Done [] (f ∷ fs) s decodes complete apart held = elim decodes [ ]
  load_entries-HasOnly Done (e ∷ es) [] s decodes complete apart held = elim decodes [ ]
  load_entries-HasOnly Done (e ∷ es) (f ∷ fs) s (decodes, more) (complete, others) apart held =
      let t = (env.files.insert f s.files).1 in
      let held' =
        HasOnly-insert laws Done f s.files complete (λ g d. apart f g (inl refl) (inr d)) held in
      let (indexed, only, has) =
        load_entries-HasOnly (λ g. (f ≡ g) ⊎ Done g) es fs (record s { files = t }) more others
          (λ h g m n. apart h g (inr m) (moved n)) held' in
      rw (decodes, load_entries, store_file_in_memory-ok laws f s complete)
        (indexed, (λ i q there. moved (only i q there)), λ g done. has g (back done))
    where
      moved : {g : FileInfo} → In g fs ⊎ ((f ≡ g) ⊎ Done g) → ((g ≡ f) ⊎ In g fs) ⊎ Done g
      moved (inl m) = inl (inr m)
      moved (inr (inl e)) = inl (inl (sym e))
      moved (inr (inr d)) = inr d

      back : {g : FileInfo} → ((g ≡ f) ⊎ In g fs) ⊎ Done g → In g fs ⊎ ((f ≡ g) ⊎ Done g)
      back (inl (inl e)) = inr (inl (sym e))
      back (inl (inr m)) = inl m
      back (inr d) = inr (inr d)

module _ {env : Env} (laws : IsTable env.files files_schema (λ f. f.id)) where
  -- A table that holds some files finds each by its path.
  get_file_by_path-HasOnly :
      (Done : FileInfo → Type 0) (s : Storage env) (f : FileInfo)
      → HasOnly laws Done s.files
      → Done f
      → ((g : FileInfo) → Done g → g.path ≡ f.path → f ≡ g)
      → get_file_by_path f.path s ≡ inr (some f)
  unfolding get_file_by_path
  get_file_by_path-HasOnly Done s f (indexed, only, has) done alone =
      let (o, found, is_row, is_none) = laws.first_lem "path" f.path _ s.files refl refl indexed in
      elim (Option-cases o) [
        | inl e ↦ elim (is_none e f.id f (has f done) refl) [ ]
        | inr (g, e) ↦
            let (there, eq) = is_row g e in
            found ∙ ap inr (e ∙ ap some (sym (alone g (only g.id g there) eq)))
      ]

  -- Let the backend list entries that decode to files, each with its indexed fields set, and no two
  -- different ones with one identifier or one path; let the table of files be empty. After the start
  -- each of the files is found by its path, whether or not the rest of the start fails.
  pub load_from_backend-get_file_by_path :
      (es : List Entry) (fs : List FileInfo) (s : Storage env) (f : FileInfo)
      → (env.backend.list entry_type_file s.backend).0 ≡ inr es
      → DecodeTo env.file_codec es fs
      → All (IsComplete files_schema) fs
      → AreApart fs
      → laws.IsIndexed s.files
      → ((i : String) → laws.row i s.files ≡ none)
      → In f fs
      → get_file_by_path f.path (load_from_backend s).1 ≡ inr (some f)
  unfolding load_type
  load_from_backend-get_file_by_path es fs s f listed decodes complete apart indexed vacant m =
      let Done : FileInfo → Type 0 = λ g. ⊥ in
      let start = record s { backend = (env.backend.list entry_type_file s.backend).1 } in
      let held : HasOnly laws Done start.files =
        (indexed, (λ i q there. ground (arith, vacant i)), λ g never. elim never [ ]) in
      let loaded =
        load_entries-HasOnly laws Done es fs start decodes complete
          (λ g h a b. elim b [ inl b ↦ apart g h a b | inr never ↦ elim never [ ] ]) held in
      get_file_by_path-HasOnly (λ g. In g fs ⊎ Done g) (load_from_backend s).1 f
        (rw (load_from_backend-files s, listed, load_type) loaded) (inl m)
        (λ g n eq. elim n [ inl n ↦ apart f g m n (inr (sym eq)) | inr never ↦ elim never [ ] ])
