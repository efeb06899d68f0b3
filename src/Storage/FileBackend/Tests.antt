-- ===== src/Storage/FileBackend/Tests.antt =====
-- A database in memory: the puts of all buckets, the latest first.
use rhosus.Base.{
  String, Bytes, true, false, Option, none, some, List, [], ◌∷◌, ◌≡◌, inl, inr, same, string_key,
  if◌then◌else◌, refl, sym, ◌∙◌, ap, arith, Option-cases, Bool-cases, none_ne_some,
}
use rhosus.Storage.Store.{Entry}
use rhosus.Storage.Tables.Memory.{
  find_row, remove, HasOneEach, find_row-remove, remove-HasOneEach, find_row-In, In-find_row,
  key-find_row,
}
use rhosus.Storage.FileBackend.{Bolt, IsBolt, FileBackend, put}

abbrev key_of : Entry → String
key_of e = e.key

abbrev distinct : List Entry → List Entry
distinct [] = []
distinct (e ∷ es) = e ∷ remove key_of e.key (distinct es)

abbrev value_under : Option Entry → Option Bytes
value_under none = none
value_under (some e) = some e.value

abbrev memory_bolt : Bolt
memory_bolt = record {
  Db = String → List Entry;
  create_bucket = λ b db. (none, db);
  has_bucket = λ b db. true;
  put = λ b k v db. (none, λ c. if same b c then record { key = k; value = v } ∷ db c else db c);
  get = λ b k db. value_under (find_row key_of k (db b));
  delete = λ b k db. (none, λ c. if same b c then remove key_of k (db c) else db c);
  for_each = λ b db. distinct (db b);
  commit = λ db. none;
}

distinct-HasOneEach : (es : List Entry) → HasOneEach key_of (distinct es)
distinct-HasOneEach [] = tt
distinct-HasOneEach (e ∷ es) = (
  ground (arith, find_row-remove key_of e.key e.key (distinct es), string_key.same_iff e.key e.key),
  remove-HasOneEach key_of e.key (distinct es) (distinct-HasOneEach es),
)

find_row-distinct :
    (k : String) (es : List Entry) → find_row key_of k (distinct es) ≡ find_row key_of k es
find_row-distinct k [] = refl
find_row-distinct k (e ∷ es) = elim (Bool-cases (same e.key k)) [
  | inl eq ↦ rw eq refl
  | inr ne ↦ rw ne (find_row-remove key_of e.key k (distinct es) ∙ rw ne (find_row-distinct k es))
]

value_under-find_row :
    (es : List Entry) (e : Entry)
    → value_under (find_row key_of e.key es) ≡ some e.value
    → find_row key_of e.key es ≡ some e
value_under-find_row es e eq = elim (Option-cases (find_row key_of e.key es)) [
  | inl missing ↦ elim (none_ne_some (sym (ap value_under missing) ∙ eq)) [ ]
  | inr (f, there) ↦
      let keys : f.key ≡ e.key = key-find_row key_of e.key es f there in
      let values : f.value ≡ e.value = ground (arith, sym (ap value_under there) ∙ eq) in
      there ∙ ap some (λ i. record { key = keys i; value = values i })
]

abbrev memory_bolt-IsBolt : IsBolt memory_bolt
memory_bolt-IsBolt = record {
  create_ok = λ b db key. refl;
  has_bucket-create = λ b db key. refl;
  get-create = λ b c k db key. refl;
  has_bucket-put = λ b c k v db. refl;
  get-put =
      λ b l e db made fits. ground (arith, string_key.same_iff b b, string_key.same_iff e.key l);
  commit_ok = λ db. refl;
  for_each-get = λ b db e made. (
    (λ m. ap value_under (
        sym (find_row-distinct e.key (db b))
        ∙ In-find_row key_of (distinct (db b)) e (distinct-HasOneEach (db b)) m)),
    λ eq.
        find_row-In key_of e.key (distinct (db b)) e
          (find_row-distinct e.key (db b) ∙ value_under-find_row (db b) e eq),
  );
}

abbrev entry : String → Bytes → Entry
entry key value = record { key = key; value = value }

-- One key is put twice.
abbrev three : List Entry
three = entry "docs/a" (1 ∷ []) ∷ entry "docs/b" (2 ∷ []) ∷ entry "docs/a" (3 ∷ []) ∷ []

abbrev fresh : FileBackend memory_bolt
fresh = record { db = λ b. []; closed = false }
