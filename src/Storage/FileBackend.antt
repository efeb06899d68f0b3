-- ===== src/Storage/FileBackend.antt =====
-- rhosus/registry/storage/backend_file.go: the backend over bbolt, whose calls are a parameter. The
-- directory and the file of the database are made before.
pub mod Kept
mod Tests
use Prim.Native.String
use rhosus.Base.{
  ℕ, suc, ◌+◌, ◌*◌, ◌^◌, ◌≤◌, length, String, Bytes, Bool, true, false, Option, none, some, List,
  [], ◌∷◌, ◌≡◌, ◌≢◌, ◌↔◌, ◌⊎◌, inl, inr, In, same, string_key, if◌then◌else◌,
}
use rhosus.Storage.Types.{Err, shut_down, wrapped}
use rhosus.Storage.Store.{Entry}

-- The calls of bbolt that a transaction makes. A value is none where Get answers nil or there is no
-- such bucket, and `commit` is the error of the commit of Batch.
pub record Bolt : Type 1 where
  pub Db : Type 0
  pub create_bucket : String → Db → Option Err × Db
  pub has_bucket : String → Db → Bool
  pub put : String → String → Bytes → Db → Option Err × Db
  pub get : String → String → Db → Option Bytes
  pub delete : String → String → Db → Option Err × Db
  pub for_each : String → Db → List Entry
  pub commit : Db → Option Err

abbrev pub count_chars : String → ℕ
count_chars String.[] = 0
count_chars (String.◌∷◌ ch s) = suc (count_chars s)

-- A key, or the name of a bucket, within the limits of bbolt: it is not empty, and at most 32768
-- bytes long, where a character takes at most four.
pub record IsKey (k : String) : Type 0 where
  pub named : k ≢ ""
  pub short : 4 * count_chars k ≤ 32768

-- An entry within the limits of bbolt: a value is at most 2^31 - 2 bytes long.
pub record IsEntry (e : Entry) : Type 0 where
  pub key_ok : IsKey e.key
  pub value_ok : length e.value + 2 ≤ 2 ^ 31

-- What bbolt documents of a database on a disk that has room and does not fail, for keys and values
-- within its limits: a bucket is made, and made again keeps its keys; an entry is put into a bucket
-- that is there; a transaction commits; a bucket is gone through key by key.
pub record IsBolt (bolt : Bolt) : Type 0 where
  pub create_ok : (b : String) (db : bolt.Db) → IsKey b → (bolt.create_bucket b db).0 ≡ none
  pub has_bucket-create :
      (b : String) (db : bolt.Db) → IsKey b → bolt.has_bucket b (bolt.create_bucket b db).1 ≡ true
  pub get-create :
      (b c k : String) (db : bolt.Db)
      → IsKey b
      → bolt.get c k (bolt.create_bucket b db).1 ≡ bolt.get c k db
  pub has_bucket-put :
      (b c k : String) (v : Bytes) (db : bolt.Db)
      → bolt.has_bucket c (bolt.put b k v db).1 ≡ bolt.has_bucket c db
  pub get-put :
      (b l : String) (e : Entry) (db : bolt.Db)
      → bolt.has_bucket b db ≡ true
      → IsEntry e
      → bolt.get b l (bolt.put b e.key e.value db).1
        ≡ (if same e.key l then some e.value else bolt.get b l db)
  pub commit_ok : (db : bolt.Db) → bolt.commit db ≡ none
  pub for_each-get :
      (b : String) (db : bolt.Db) (e : Entry)
      → bolt.has_bucket b db ≡ true
      → In e (bolt.for_each b db) ↔ (bolt.get b e.key db ≡ some e.value)

module _ (bolt : Bolt) where
  pub record FileBackend : Type 0 where
    pub db : bolt.Db
    pub closed : Bool

  -- Batch: what the function did is kept if it ends well and the transaction commits.
  pub batch : Option Err × bolt.Db → bolt.Db → Option Err × bolt.Db
  batch (some e, changed) db = (some e, db)
  batch (none, changed) db = elim (bolt.commit changed) [
    | some e ↦ (some e, db)
    | none ↦ (none, changed)
  ]

  -- The loop of `Put`; an error is only logged.
  pub put_entries : String → List Entry → bolt.Db → bolt.Db
  put_entries t [] db = db
  put_entries t (e ∷ es) db = put_entries t es (bolt.put t e.key e.value db).1

  -- The function that `Put` hands to Batch.
  pub put_in : String → List Entry → Option Err × bolt.Db → Option Err × bolt.Db
  unfolding put_entries
  put_in t es (some e, db) = (some e, db)
  put_in t es (none, db) = (none, put_entries t es db)

  abbrev wrap : Option Err → Option Err
  wrap none = none
  wrap (some e) = some (wrapped e)

  -- `Put`
  pub put : String → List Entry → FileBackend → Option Err × FileBackend
  unfolding batch put_in
  put t es s =
      let (err, db) = batch (put_in t es (bolt.create_bucket t s.db)) s.db in
      if s.closed then (some shut_down, s) else (wrap err, record s { db = db })

  abbrev value_of : Option Bytes → Bytes
  value_of none = []
  value_of (some v) = v

  pub get_entries : String → List String → bolt.Db → List Entry
  get_entries t [] db = []
  get_entries t (k ∷ ks) db =
      record { key = k; value = value_of (bolt.get t k db) } ∷ get_entries t ks db

  -- `Get`; none is the panic on a bucket that is not there.
  pub get : String → List String → FileBackend → Option (Err ⊎ List Entry)
  unfolding get_entries
  get t [] s = some (if s.closed then inl shut_down else inr [])
  get t (k ∷ ks) s =
      if s.closed
      then some (inl shut_down)
      else if bolt.has_bucket t s.db
      then some (inr (get_entries t (k ∷ ks) s.db))
      else none

  -- The loop of `Delete`; an error is only logged.
  pub delete_keys : String → List String → bolt.Db → bolt.Db
  delete_keys t [] db = db
  delete_keys t (k ∷ ks) db = delete_keys t ks (bolt.delete t k db).1

  -- `Delete`, which passes over the error of Batch; none is the panic on a bucket that is not there.
  pub delete : String → List String → FileBackend → Option (Option Err × FileBackend)
  unfolding batch delete_keys
  delete t [] s = some (if s.closed then some shut_down else none, s)
  delete t (k ∷ ks) s =
      if s.closed
      then some (some shut_down, s)
      else if bolt.has_bucket t s.db
      then some (none, record s { db = (batch (none, delete_keys t (k ∷ ks) s.db) s.db).1 })
      else none

  -- What `List` answers: the entries that its function has gone through, and the error of Batch.
  pub listed : String → Option Err × bolt.Db → Option Err → Option Err × List Entry
  listed t (some e, db) err = (err, [])
  listed t (none, db) err = (err, bolt.for_each t db)

  -- `List`: the entries that the function has gone through are answered along with an error. The
  -- values are those of the transaction: the code keeps slices that bbolt owns, which are theirs as
  -- long as no later transaction reuses the pages.
  pub list : String → FileBackend → (Option Err × List Entry) × FileBackend
  unfolding batch listed
  list t s =
      let made = bolt.create_bucket t s.db in
      let (err, db) = batch made s.db in
      if s.closed then ((some shut_down, []), s) else (listed t made err, record s { db = db })

  -- `Close` closes the database and leaves `closed`; a later call of the database fails.
  pub close : (bolt.Db → Option Err × bolt.Db) → FileBackend → Option Err × FileBackend
  close close_db s =
      let (err, db) = close_db s.db in if s.closed then (none, s) else (err, record s { db = db })
