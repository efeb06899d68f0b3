-- ===== src/Cluster/Buffer/Order.antt =====
-- The order of a peer's buffer, and which entries a batch adds to it.
use rhosus.Base.{
  ◌≤◌, ◌<◌, Option, none, some, List, [], ◌∷◌, ◌++◌, ◌≡◌, refl, inl, inr, get_last?, arith,
  get_last?-append, Option-cases, Bool-cases, leb, ltb, false, ◌∙◌,
}
use mathlib.Core.List.{append-nil, append_assoc}
use rhosus.Cluster.Types.{Entry}
use rhosus.Cluster.Buffer.{EntriesBuffer, append, write_batch, read, empty}

-- `e` may stand behind `last`: its index is greater, and its term is not less.
abbrev pub Fits : Option Entry → Entry → Type 0
Fits none e = Unit
Fits (some last) e = (last.index < e.index) × (last.term ≤ e.term)

-- Entries that may stand behind `last`, one after another.
abbrev pub Chain : Option Entry → List Entry → Type 0
Chain last [] = Unit
Chain last (e ∷ es) = Fits last e × Chain (some e) es

abbrev pub IsOrdered : List Entry → Type 0
IsOrdered = Chain none

Chain-append :
    (last : Option Entry) (x : Entry) (xs : List Entry) (e : Entry)
    → Chain last (x ∷ xs)
    → Fits (get_last? (x ∷ xs)) e
    → Chain last ((x ∷ xs) ++ e ∷ [])
Chain-append last x [] e h f = (h.0, (f, tt))
Chain-append last x (y ∷ xs) e h f = (h.0, Chain-append (some x) y xs e h.1 f)

append-IsOrdered :
    (e : Entry) (b : EntriesBuffer)
    → IsOrdered b.entries
    → Fits (get_last? b.entries) e
    → IsOrdered (append e b).entries
unfolding append
append-IsOrdered e b = go b.entries
  where
    go : (xs : List Entry) → IsOrdered xs → Fits (get_last? xs) e → IsOrdered (xs ++ e ∷ [])
    go [] h f = (tt, tt)
    go (x ∷ xs) h f = Chain-append none x xs e h f

Fits-of_tests :
    (last e : Entry)
    → leb e.index last.index ≡ false
    → ltb e.term last.term ≡ false
    → Fits (some last) e
Fits-of_tests last e p q = (ground arith, ground arith)

-- A batch keeps the buffer in order, whatever it holds, whether or not it is refused.
pub write_batch-IsOrdered :
    (es : List Entry) (b : EntriesBuffer)
    → IsOrdered b.entries
    → IsOrdered (write_batch es b).1.entries
unfolding write_batch
write_batch-IsOrdered [] b h = h
write_batch-IsOrdered (e ∷ es) b h = elim (Option-cases (get_last? b.entries)) [
  | inl p ↦
      rw (p, write_batch) (write_batch-IsOrdered es (append e b) (append-IsOrdered e b h (rw p tt)))
  | inr (last, p) ↦ elim (Bool-cases (leb e.index last.index)) [
    | inl old ↦ rw (p, write_batch, old) h
    | inr new ↦ elim (Bool-cases (ltb e.term last.term)) [
      | inl less ↦ rw (p, write_batch, new, less) (write_batch-IsOrdered es b h)
      | inr ok ↦
          rw (p, write_batch, new, ok)
            (write_batch-IsOrdered es (append e b)
              (append-IsOrdered e b h (rw p (Fits-of_tests last e new ok))))
    ]
  ]
]

write_batch-step :
    (e : Entry) (es : List Entry) (b : EntriesBuffer)
    → Fits (get_last? b.entries) e
    → write_batch (e ∷ es) b ≡ write_batch es (append e b)
unfolding write_batch
write_batch-step e es b f = elim (Option-cases (get_last? b.entries)) [
  | inl p ↦ rw (p, write_batch) refl
  | inr (last, p) ↦ in_order last p (rw p at f)
]
  where
    in_order :
        (last : Entry)
        → get_last? b.entries ≡ some last
        → Fits (some last) e
        → write_batch (e ∷ es) b ≡ write_batch es (append e b)
    in_order last p f' = ground arith

-- A batch that stands in order behind the buffer is taken whole and without an error.
pub write_batch-append :
    (es : List Entry) (b : EntriesBuffer)
    → Chain (get_last? b.entries) es
    → write_batch es b ≡ (none, record { entries = b.entries ++ es })
unfolding write_batch
write_batch-append [] b h = rw append-nil
write_batch-append (e ∷ es) b h =
    write_batch-step e es b h.0
    ∙ write_batch-append es (append e b) (unfold append in rw get_last?-append h.1)
    ∙ unfold append in rw append_assoc

-- Reading drains: what was appended in order comes out once, oldest first.
pub read-write_batch :
    (es : List Entry) (b : EntriesBuffer)
    → Chain (get_last? b.entries) es
    → read (write_batch es b).1 ≡ (b.entries ++ es, empty)
unfolding read
read-write_batch es b h = rw (write_batch-append es b h)
