-- ===== src/Storage/Store/Blocks.antt =====
-- rhosus/registry/storage/storage_files.go: the blocks of a file, and their deletion.
use rhosus.Base.{
  String, string_key, none, some, List, [], ◌∷◌, ◌≡◌, ◌≢◌, ◌↔◌, inl, inr, arith, ◌∙◌, refl, sym, ap,
  In, sort_by, IsSortedBy, sort_by-IsSortedBy, In-sort_by, Option-cases,
}
use rhosus.Storage.Types.{Err, BlockInfo}
use rhosus.Storage.Tables.{Table, IsTable, blocks_schema}
use rhosus.Storage.Store.{Env, Storage, get_blocks, delete_each}

module _ {env : Env} (laws : IsTable env.blocks blocks_schema (λ b. b.id)) where
  -- `get_blocks` answers, in the order of their index, the blocks of the table that have the file's
  -- identifier, and no others.
  pub get_blocks-IsSortedBy :
      (file_id : String) (s : Storage env)
      → laws.IsIndexed s.blocks
      → (bs : List BlockInfo) × (get_blocks file_id s ≡ inr bs)
        × IsSortedBy (λ b. b.index) bs
        × ((b : BlockInfo) → In b bs ↔ ((laws.row b.id s.blocks ≡ some b) × (b.file_id ≡ file_id)))
  unfolding get_blocks
  get_blocks-IsSortedBy file_id s indexed =
      let (bs, got, is_block) = laws.get_lem "file_id" file_id _ s.blocks refl indexed in
      (
        sort_by (λ b. b.index) bs,
        rw (got, get_blocks) refl,
        sort_by-IsSortedBy (λ b. b.index) bs,
        λ b. ground (arith, is_block b, In-sort_by (λ (b : BlockInfo). b.index) b bs),
      )

module _ {table : Table BlockInfo} (laws : IsTable table blocks_schema (λ b. b.id)) where
  -- What deletions that end well have done: each of the blocks is gone, nothing has come, and no other
  -- block has changed.
  unfoldable pub Deleted : List BlockInfo → table.State → table.State → Type 0
  Deleted bs t t' =
      ((b : BlockInfo) → In b bs → laws.row b.id t' ≡ none)
      × ((i : String) (b : BlockInfo) → laws.row i t' ≡ some b → laws.row i t ≡ some b)
      × ((i : String) → ((b : BlockInfo) → In b bs → b.id ≢ i) → laws.row i t' ≡ laws.row i t)
      × laws.IsIndexed t'

  Deleted-nil : (t : table.State) → laws.IsIndexed t → Deleted [] t t
  unfolding Deleted
  Deleted-nil t indexed = ((λ b m. elim m [ ]), (λ i b e. e), (λ i h. refl), indexed)

  Deleted-cons :
      (b : BlockInfo) (bs : List BlockInfo) (t t' : table.State)
      → Deleted bs (table.delete b t).1 t'
      → Deleted (b ∷ bs) t t'
  unfolding Deleted
  Deleted-cons b bs t t' (gone, kept, others, indexed) =
      let deleted = laws.row-delete b t in
      (
        (λ c m. elim m [
          | inl e ↦
              let absent = ap (λ (b : BlockInfo). b.id) e in
              elim (Option-cases (laws.row c.id t')) [
                | inl e' ↦ e'
                | inr (d, e') ↦
                    ground
                      (arith, kept c.id d e', deleted c.id, string_key.same_iff b.id c.id, absent)
              ]
          | inr n ↦ gone c n
        ]),
        (λ i d e. let e' = kept i d e in ground (arith, deleted i)),
        (λ i apart.
            others i (λ c m. apart c (inr m))
            ∙ ground (arith, deleted i, string_key.same_iff b.id i, apart b (inl refl))),
        indexed,
      )

  delete_each-ok :
      (b : BlockInfo) (bs : List BlockInfo) (t : table.State)
      → (table.delete b t).0 ≡ none
      → delete_each table (b ∷ bs) t ≡ delete_each table bs (table.delete b t).1
  unfolding delete_each
  delete_each-ok b bs t e = rw (e, delete_each) refl

  delete_each-err :
      (b : BlockInfo) (bs : List BlockInfo) (t : table.State) (err : Err)
      → (table.delete b t).0 ≡ some err
      → (delete_each table (b ∷ bs) t).0 ≡ some err
  unfolding delete_each
  delete_each-err b bs t err e = rw (e, delete_each) refl

  pub delete_each-Deleted :
      (bs : List BlockInfo) (t : table.State)
      → (delete_each table bs t).0 ≡ none
      → laws.IsIndexed t
      → Deleted bs t (delete_each table bs t).1
  unfolding delete_each
  delete_each-Deleted [] t ok indexed = Deleted-nil t indexed
  delete_each-Deleted (b ∷ bs) t ok indexed = elim (Option-cases (table.delete b t).0) [
    | inl e ↦
        let step = delete_each-ok b bs t e in
        rw step (
          Deleted-cons b bs t _ (
            delete_each-Deleted bs (table.delete b t).1 (ap (λ p. p.0) (sym step) ∙ ok)
              (laws.delete-IsIndexed b t indexed)))
    | inr (err, e) ↦ ground (arith, delete_each-err b bs t err e)
  ]
