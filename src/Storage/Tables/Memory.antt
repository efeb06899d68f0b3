-- ===== src/Storage/Tables/Memory.antt =====
-- A table in memory that meets the laws: the rows as a list, without an order among indices.
use rhosus.Base.{
  String, string_key, Bool, true, not, ◌&&◌, Option, none, some, List, [], ◌∷◌, ◌≡◌, refl, inl, inr,
  In, same, arith, if◌then◌else◌, Bool-cases, ◌∙◌, ap, subst, Option-cases,
}
use rhosus.Storage.Types.{library}
use rhosus.Storage.Tables.{IndexSchema, Table, IsTable, find_index, IsComplete}

module _ {Row : Type 0} (key : Row → String) where
  abbrev pub find_row : String → List Row → Option Row
  find_row i [] = none
  find_row i (r ∷ rs) = if same (key r) i then some r else find_row i rs

  abbrev pub remove : String → List Row → List Row
  remove i [] = []
  remove i (r ∷ rs) = let rest = remove i rs in if same (key r) i then rest else r ∷ rest

  abbrev select : (Row → String) → String → List Row → List Row
  select field v [] = []
  select field v (r ∷ rs) =
      let rest = select field v rs in if same (field r) v then r ∷ rest else rest

  abbrev head : List Row → Option Row
  head [] = none
  head (r ∷ rs) = some r

  abbrev has_values : List (IndexSchema Row) → Row → Bool
  has_values [] r = true
  has_values (ix ∷ schema) r = not (same (ix.field r) "") && has_values schema r

  abbrev pub memory_table : List (IndexSchema Row) → Table Row
  memory_table schema = record {
    State = List Row;
    insert =
        λ r s. if has_values schema r then (none, r ∷ remove (key r) s) else (some (library 1), s);
    delete = λ r s. elim (find_row (key r) s) [
      | none ↦ (some (library 2), s)
      | some _ ↦ (none, remove (key r) s)
    ];
    first = λ name v s. elim (find_index name schema) [
      | none ↦ inl (library 3)
      | some ix ↦ inr (head (select ix.field v s))
    ];
    get = λ name v s. elim (find_index name schema) [
      | none ↦ inl (library 3)
      | some ix ↦ inr (select ix.field v s)
    ];
    get_all = λ name s. elim (find_index name schema) [ none ↦ inl (library 3) | some ix ↦ inr s ];
  }

  -- No two rows have one key.
  abbrev pub HasOneEach : List Row → Type 0
  HasOneEach [] = Unit
  HasOneEach (r ∷ rs) = (find_row (key r) rs ≡ none) × HasOneEach rs

  pub key-find_row : (i : String) (s : List Row) (r : Row) → find_row i s ≡ some r → key r ≡ i
  key-find_row i [] r e = ground arith
  key-find_row i (q ∷ s) r e = elim (Bool-cases (same (key q) i)) [
    | inl eq ↦ ground (arith, string_key.same_iff (key q) i)
    | inr ne ↦ key-find_row i s r (ground arith)
  ]

  pub find_row-remove :
      (i j : String) (s : List Row)
      → find_row j (remove i s) ≡ (if same i j then none else find_row j s)
  find_row-remove i j [] = ground arith
  find_row-remove i j (r ∷ s) = ground (
    arith,
    find_row-remove i j s,
    string_key.same_iff (key r) i,
    string_key.same_iff (key r) j,
    string_key.same_iff i j,
  )

  pub has_values-IsComplete :
      (schema : List (IndexSchema Row)) (r : Row) → IsComplete schema r → has_values schema r ≡ true
  has_values-IsComplete [] r h = refl
  has_values-IsComplete (ix ∷ schema) r h =
      ground (arith, h.0, has_values-IsComplete schema r h.1, string_key.same_iff (ix.field r) "")

  pub remove-HasOneEach : (i : String) (s : List Row) → HasOneEach s → HasOneEach (remove i s)
  remove-HasOneEach i [] h = tt
  remove-HasOneEach i (r ∷ s) h = elim (Bool-cases (same (key r) i)) [
    | inl eq ↦ rw eq (remove-HasOneEach i s h.1)
    | inr ne ↦ rw ne (find_row-remove i (key r) s ∙ ground (arith, h.0), remove-HasOneEach i s h.1)
  ]

  pub find_row-In : (i : String) (s : List Row) (r : Row) → find_row i s ≡ some r → In r s
  find_row-In i [] r e = ground arith
  find_row-In i (q ∷ s) r e = elim (Bool-cases (same (key q) i)) [
    | inl eq ↦ inl (ground arith)
    | inr ne ↦ inr (find_row-In i s r (ground arith))
  ]

  pub In-find_row : (s : List Row) (r : Row) → HasOneEach s → In r s → find_row (key r) s ≡ some r
  In-find_row [] r h m = elim m [ ]
  In-find_row (q ∷ s) r h (inl e) = ground (arith, string_key.same_iff (key q) (key r), ap key e)
  In-find_row (q ∷ s) r h (inr m) =
      let found = In-find_row s r h.1 m in
      ground (arith, h.0, found, string_key.same_iff (key q) (key r))

  pub In-select :
      (field : Row → String) (v : String) (s : List Row) (r : Row)
      → In r (select field v s)
      → In r s × (field r ≡ v)
  In-select field v [] r m = elim m [ ]
  In-select field v (q ∷ s) r m = elim (Bool-cases (same (field q) v)) [
    | inl eq ↦
        elim (subst (λ c. In r (if c then q ∷ select field v s else select field v s)) eq m) [
          | inl e ↦ (inl e, ap field e ∙ (string_key.same_iff (field q) v).0 eq)
          | inr n ↦ let (a, b) = In-select field v s r n in (inr a, b)
        ]
    | inr ne ↦
        let n : In r (select field v s) =
          subst (λ c. In r (if c then q ∷ select field v s else select field v s)) ne m in
        let (a, b) = In-select field v s r n in (inr a, b)
  ]

  pub select-In :
      (field : Row → String) (v : String) (s : List Row) (r : Row)
      → In r s
      → field r ≡ v
      → In r (select field v s)
  select-In field v [] r m e = elim m [ ]
  select-In field v (q ∷ s) r m e = elim (Bool-cases (same (field q) v)) [
    | inl eq ↦ rw eq (elim m [ inl h ↦ inl h | inr h ↦ inr (select-In field v s r h e) ])
    | inr ne ↦ rw ne (elim m [
      | inl h ↦ ground (arith, ap field h, string_key.same_iff (field q) v)
      | inr h ↦ select-In field v s r h e
    ])
  ]

  pub head-In : (s : List Row) (r : Row) → head s ≡ some r → In r s
  head-In [] r e = ground arith
  head-In (q ∷ s) r e = inl (ground arith)

  pub head_nothing : (s : List Row) (r : Row) → head s ≡ none → In r s → ⊥
  head_nothing [] r e m = m
  head_nothing (q ∷ s) r e m = ground arith

module _ {Row : Type 0} (key : Row → String) where
  abbrev pub memory_table-IsTable :
      (schema : List (IndexSchema Row)) → IsTable (memory_table key schema) schema key
  memory_table-IsTable schema = record {
    row = find_row key;
    IsIndexed = HasOneEach key;
    key-row = λ i s r e. key-find_row key i s r e;
    insert_ok = λ r s c. rw (has_values-IsComplete key schema r c) refl;
    row-insert = λ r s i c.
        rw (has_values-IsComplete key schema r c) (ground (arith, find_row-remove key (key r) i s));
    insert-IsIndexed = λ r s h c u. rw (has_values-IsComplete key schema r c) (
      ground (arith, find_row-remove key (key r) (key r) s, string_key.same_iff (key r) (key r)),
      remove-HasOneEach key (key r) s h,
    );
    delete_ok = λ r s e. ground arith;
    delete_missing = λ r s e. ground arith;
    row-delete =
        λ r s i. ground (arith, find_row-remove key (key r) i s, string_key.same_iff (key r) i);
    delete-IsIndexed = λ r s h. elim (Option-cases (find_row key (key r) s)) [
      | inl none_there ↦ rw (none_there, memory_table) h
      | inr (q, there) ↦ rw (there, memory_table) (remove-HasOneEach key (key r) s h)
    ];
    first_lem = λ name v ix s known u h.
        let rs = select key ix.field v s in
        (
          head key rs,
          rw (known, memory_table) refl,
          (λ r e.
              let (m, eq) = In-select key ix.field v s r (head-In key rs r e) in
              (In-find_row key s r h m, eq)),
          λ none_there i r e eq.
              head_nothing key rs r none_there
                (select-In key ix.field v s r (find_row-In key i s r e) eq),
        );
    get_lem = λ name v ix s known h. (
      select key ix.field v s,
      rw (known, memory_table) refl,
      λ r. (
        (λ m. let (m, eq) = In-select key ix.field v s r m in (In-find_row key s r h m, eq)),
        λ (e, eq). select-In key ix.field v s r (find_row-In key (key r) s r e) eq,
      ),
    );
    get_all_lem = λ name ix s known h. (
      s,
      rw (known, memory_table) refl,
      λ r. ((λ m. In-find_row key s r h m), λ e. find_row-In key (key r) s r e),
    );
    get_unknown = λ name v s unknown. (library 3, rw (unknown, memory_table) refl);
  }
