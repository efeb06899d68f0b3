-- ===== src/Storage/Tables/Insert.antt =====
-- What an insert into a table does to its indices: the schemas of
-- rhosus/registry/storage/storage.go over the laws of the tables.
use rhosus.Base.{
  String, string_key, true, some, List, ◌≡◌, inl, inr, All, same, arith, Bool-cases, Option-cases,
  ◌∙◌, sym, ap, refl, [], ◌∷◌, subst,
}
use rhosus.Storage.Tables.{IndexSchema, Table, IsTable, find_index, IsComplete}

module _ {Row : Type 0} where
  -- What holds of all indices holds of one that a schema has.
  All-find_index :
      (P : IndexSchema Row → Type 0) (name : String) (ix : IndexSchema Row)
      (schema : List (IndexSchema Row))
      → All P schema
      → find_index name schema ≡ some ix
      → P ix
  All-find_index P name ix [] h e = ground arith
  All-find_index P name ix (jx ∷ schema) h e = elim (Bool-cases (same jx.name name)) [
    | inl eq ↦ let e' : jx ≡ ix = ground arith in subst P e' h.0
    | inr ne ↦ All-find_index P name ix schema h.1 (ground arith)
  ]

module _ {Row : Type 0} {t : Table Row} {schema : List (IndexSchema Row)} {key : Row → String}
    (laws : IsTable t schema key) where
  -- No other row has the value of `r` in a unique index.
  abbrev pub IsFresh : Row → t.State → Type 0
  IsFresh r s =
      All
        (λ ix.
          ix.unique ≡ true
          → (i : String) (q : Row) → laws.row i s ≡ some q
          → ix.field q ≡ ix.field r
          → key q ≡ key r)
        schema

  -- A row that is inserted is the one that a unique index finds.
  pub first-insert :
      (name : String) (ix : IndexSchema Row) (r : Row) (s : t.State)
      → find_index name schema ≡ some ix
      → ix.unique ≡ true
      → laws.IsIndexed s
      → IsComplete schema r
      → IsFresh r s
      → t.first name (ix.field r) (t.insert r s).1 ≡ inr (some r)
  first-insert name ix r s known unique indexed complete fresh =
      let s' = (t.insert r s).1 in
      let indexed' = laws.insert-IsIndexed r s indexed complete fresh in
      let there : laws.row (key r) s' ≡ some r =
        ground (arith, laws.row-insert r s (key r) complete, string_key.same_iff (key r) (key r)) in
      let (o, found, is_row, is_none) =
        laws.first_lem name (ix.field r) ix s' known unique indexed' in
      elim (Option-cases o) [
        | inl e ↦ elim (is_none e (key r) r there refl) [ ]
        | inr (q, e) ↦
            let after = laws.row-insert r s (key q) complete in
            let (q_there, q_field) = is_row q e in
            elim (Bool-cases (same (key r) (key q))) [
              | inl eq ↦ found ∙ ap inr (e ∙ ground arith)
              | inr ne ↦
                  let before : laws.row (key q) s ≡ some q = ground arith in
                  let eq =
                    All-find_index _ name ix schema fresh known unique (key q) q before q_field in
                  ground (arith, string_key.same_iff (key r) (key q), sym eq)
            ]
      ]
