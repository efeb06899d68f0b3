-- ===== src/Storage/Tables.antt =====
-- The schema of rhosus/registry/storage/storage.go, and go-memdb as a parameter: what its tables do,
-- given a schema.
pub mod Memory
pub mod Insert
use rhosus.Base.{
  String, string_key, Bool, true, false, not, Option, none, some, List, [], ◌∷◌, ◌≡◌, ◌≢◌, ◌↔◌, ◌⊎◌,
  inl, inr, All, In, same, if◌then◌else◌,
}
use rhosus.Storage.Types.{Err, FileInfo, BlockInfo, Role, Token, Policy}

-- memdb.IndexSchema with a StringFieldIndex on the field.
pub record IndexSchema (Row : Type 0) : Type 0 where
  pub name : String
  pub allow_missing : Bool
  pub unique : Bool
  pub field : Row → String

abbrev pub files_schema : List (IndexSchema FileInfo)
files_schema =
    record { name = "id"; allow_missing = false; unique = true; field = λ f. f.id }
    ∷ record { name = "path"; allow_missing = false; unique = true; field = λ f. f.path }
    ∷ record { name = "parent_id"; allow_missing = false; unique = false; field = λ f. f.parent_id }
    ∷ []

abbrev pub blocks_schema : List (IndexSchema BlockInfo)
blocks_schema =
    record { name = "id"; allow_missing = false; unique = true; field = λ b. b.id }
    ∷ record { name = "file_id"; allow_missing = false; unique = false; field = λ b. b.file_id }
    ∷ []

abbrev pub roles_schema : List (IndexSchema Role)
roles_schema =
    record { name = "id"; allow_missing = false; unique = true; field = λ r. r.id }
    ∷ record { name = "name"; allow_missing = false; unique = true; field = λ r. r.name }
    ∷ []

abbrev pub tokens_schema : List (IndexSchema Token)
tokens_schema =
    record { name = "id"; allow_missing = false; unique = true; field = λ t. t.id }
    ∷ record { name = "accessor"; allow_missing = false; unique = true; field = λ t. t.accessor }
    ∷ []

abbrev pub policies_schema : List (IndexSchema Policy)
policies_schema =
    record { name = "id"; allow_missing = false; unique = true; field = λ p. p.id }
    ∷ record { name = "name"; allow_missing = false; unique = true; field = λ p. p.name }
    ∷ []

-- One table in a transaction, or in a snapshot. An iterator is the list of the rows that it passes.
-- `get_all` is Get without arguments. A table holds rows of one type, since nobody else inserts.
pub record Table (Row : Type 0) : Type 1 where
  pub State : Type 0
  pub insert : Row → State → Option Err × State
  pub delete : Row → State → Option Err × State
  pub first : String → String → State → Err ⊎ Option Row
  pub get : String → String → State → Err ⊎ List Row
  pub get_all : String → State → Err ⊎ List Row

module _ {Row : Type 0} where
  abbrev pub find_index : String → List (IndexSchema Row) → Option (IndexSchema Row)
  find_index name [] = none
  find_index name (ix ∷ schema) = if same ix.name name then some ix else find_index name schema

  -- Every indexed field has a value.
  abbrev pub IsComplete : List (IndexSchema Row) → Row → Type 0
  IsComplete schema r = All (λ ix. ix.field r ≢ "") schema

  -- What go-memdb documents of a table with a schema whose index "id" is on `key`, as long as nothing
  -- breaks the uniqueness of an index, which it does not enforce itself.
  pub record IsTable (t : Table Row) (schema : List (IndexSchema Row)) (key : Row → String)
      : Type 1 where
    pub row : String → t.State → Option Row
    pub IsIndexed : t.State → Type 0
    pub key-row : (i : String) (s : t.State) (r : Row) → row i s ≡ some r → key r ≡ i
    pub insert_ok : (r : Row) (s : t.State) → IsComplete schema r → (t.insert r s).0 ≡ none
    pub row-insert :
        (r : Row) (s : t.State) (i : String)
        → IsComplete schema r
        → row i (t.insert r s).1 ≡ (if same (key r) i then some r else row i s)
    pub insert-IsIndexed :
        (r : Row) (s : t.State)
        → IsIndexed s
        → IsComplete schema r
        → All
            (λ ix.
              ix.unique ≡ true
              → (i : String) (q : Row) → row i s ≡ some q
              → ix.field q ≡ ix.field r
              → key q ≡ key r)
            schema
        → IsIndexed (t.insert r s).1
    pub delete_ok : (r : Row) (s : t.State) → row (key r) s ≢ none → (t.delete r s).0 ≡ none
    pub delete_missing : (r : Row) (s : t.State) → row (key r) s ≡ none → (t.delete r s).0 ≢ none
    pub row-delete :
        (r : Row) (s : t.State) (i : String)
        → row i (t.delete r s).1 ≡ (if same (key r) i then none else row i s)
    pub delete-IsIndexed : (r : Row) (s : t.State) → IsIndexed s → IsIndexed (t.delete r s).1
    pub first_lem :
        (name v : String) (ix : IndexSchema Row) (s : t.State)
        → find_index name schema ≡ some ix
        → ix.unique ≡ true
        → IsIndexed s
        → (o : Option Row) × (t.first name v s ≡ inr o)
          × ((r : Row) → o ≡ some r → (row (key r) s ≡ some r) × (ix.field r ≡ v))
          × (o ≡ none → (i : String) (r : Row) → row i s ≡ some r → ix.field r ≢ v)
    pub get_lem :
        (name v : String) (ix : IndexSchema Row) (s : t.State)
        → find_index name schema ≡ some ix
        → IsIndexed s
        → (rs : List Row) × (t.get name v s ≡ inr rs)
          × ((r : Row) → In r rs ↔ ((row (key r) s ≡ some r) × (ix.field r ≡ v)))
    pub get_all_lem :
        (name : String) (ix : IndexSchema Row) (s : t.State)
        → find_index name schema ≡ some ix
        → IsIndexed s
        → (rs : List Row) × (t.get_all name s ≡ inr rs)
          × ((r : Row) → In r rs ↔ (row (key r) s ≡ some r))
    pub get_unknown :
        (name v : String) (s : t.State)
        → find_index name schema ≡ none
        → (e : Err) × (t.get name v s ≡ inl e)
