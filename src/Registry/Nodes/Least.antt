-- ===== src/Registry/Nodes/Least.antt =====
-- `GetNodesWithLeastBlocks` of rhosus/registry/nodes_map.go
use rhosus.Base.{
  ℕ, zero, suc, String, true, length-sort_by, sort_by-one, sort_by-nil, none, some, List, [], ◌∷◌,
  ◌++◌, ◌≡◌, refl, sym, ◌∙◌, ap, arith, length, take, drop, ltb, Bool-cases, Option-cases,
  none_ne_some, length-take, IsSortedBy, sort_by, sort_by-IsSortedBy, sort_by-perm, inl, inr,
}
use Prim.Native.Nat.{min}
use mathlib.Core.List.{Perm}
use rhosus.Registry.Types.{Node}
use rhosus.Registry.Nodes.{Nodes, add_metric, with_metrics, second, get_nodes_with_least_blocks}

module _ {A : Type 0} where
  take-drop : (n : ℕ) (xs : List A) → take n xs ++ drop n xs ≡ xs
  take-drop zero xs = refl
  take-drop (suc n) [] = refl
  take-drop (suc n) (x ∷ xs) = ap (◌∷◌ x) (take-drop n xs)

  take_nil : (n : ℕ) → take {A = A} n [] ≡ []
  take_nil zero = refl
  take_nil (suc n) = refl

  take_all : (n : ℕ) (xs : List A) → ltb (length xs) n ≡ true → take n xs ≡ xs
  take_all zero xs e = ground arith
  take_all (suc n) [] e = refl
  take_all (suc n) (x ∷ xs) e = ap (◌∷◌ x) (take_all n xs (ground arith))

second-take : {A B : Type 0} (n : ℕ) (xs : List (A × B)) → second (take n xs) ≡ take n (second xs)
second-take zero xs = refl
second-take (suc n) [] = refl
second-take (suc n) ((a, b) ∷ xs) = ap (◌∷◌ b) (second-take n xs)

length-second : {A B : Type 0} (xs : List (A × B)) → length (second xs) ≡ length xs
length-second [] = refl
length-second ((a, b) ∷ xs) = ap suc (length-second xs)

some_injective : {A : Type 0} {a b : A} → some a ≡ some b → a ≡ b
some_injective e = ground arith

module _ (id : String) (n : Node) (nodes : Nodes) where
  with_metrics-none : n.blocks_used ≡ none → with_metrics ((id, n) ∷ nodes) ≡ none
  unfolding with_metrics
  with_metrics-none e = ap (λ u. add_metric u n (with_metrics nodes)) e

  with_metrics-stop :
      (used : ℕ)
      → n.blocks_used ≡ some used
      → with_metrics nodes ≡ none
      → with_metrics ((id, n) ∷ nodes) ≡ none
  unfolding with_metrics
  with_metrics-stop used e f =
      ap (λ u. add_metric u n (with_metrics nodes)) e ∙ ap (add_metric (some used) n) f

  with_metrics-some :
      (used : ℕ) (ms : List (ℕ × Node))
      → n.blocks_used ≡ some used
      → with_metrics nodes ≡ some ms
      → with_metrics ((id, n) ∷ nodes) ≡ some ((used, n) ∷ ms)
  unfolding with_metrics
  with_metrics-some used ms e f =
      ap (λ u. add_metric u n (with_metrics nodes)) e ∙ ap (add_metric (some used) n) f

chosen_of_one :
    (n : ℕ) (id : String) (node : Node) (ns : List (ℕ × Node))
    → with_metrics ((id, node) ∷ []) ≡ some ns
    → node ∷ [] ≡ second (sort_by (λ (p : ℕ × Node). p.0) ns)
unfolding with_metrics
chosen_of_one n id node ns e = elim (Option-cases node.blocks_used) [
  | inl none_used ↦ elim (none_ne_some (sym (with_metrics-none id node [] none_used) ∙ e)) [ ]
  | inr (used, known) ↦
      rw⁻¹ (some_injective (sym (with_metrics-some id node [] used [] known refl) ∙ e))
        (sym (ap second (sort_by-one (λ (p : ℕ × Node). p.0) (used, node))))
]

chosen_lem :
    (n : ℕ) (nodes : Nodes) (ns : List (ℕ × Node))
    → with_metrics nodes ≡ some ns
    → get_nodes_with_least_blocks n nodes
      ≡ some (second (take n (sort_by (λ (p : ℕ × Node). p.0) ns)))
unfolding get_nodes_with_least_blocks with_metrics
chosen_lem n [] ns e = rw⁻¹ (some_injective e) (
    ap some (
      sym (
        ap (λ xs. second (take n xs)) (sort_by-nil (λ (p : ℕ × Node). p.0))
        ∙ ap second (take_nil n))))
chosen_lem n ((id, node) ∷ []) ns e =
    ap some (ap (take n) (chosen_of_one n id node ns e) ∙ sym (second-take n _))
chosen_lem n (x ∷ y ∷ nodes) ns e =
    let sorted = second (sort_by (λ (p : ℕ × Node). p.0) ns) in
    elim (Bool-cases (ltb (length sorted) n)) [
      | inl few ↦
          rw (e, get_nodes_with_least_blocks, few)
            (ap some (sym (take_all n sorted few) ∙ sym (second-take n _)))
      | inr enough ↦ rw (e, get_nodes_with_least_blocks, enough) (ap some (sym (second-take n _)))
    ]

length-with_metrics :
    (nodes : Nodes) (ns : List (ℕ × Node)) → with_metrics nodes ≡ some ns → length ns ≡ length nodes
unfolding with_metrics
length-with_metrics [] ns e = ground arith
length-with_metrics ((id, n) ∷ nodes) ns e = elim (Option-cases n.blocks_used) [
  | inl none_used ↦ elim (none_ne_some (sym (with_metrics-none id n nodes none_used) ∙ e)) [ ]
  | inr (used, known) ↦ elim (Option-cases (with_metrics nodes)) [
    | inl none_left ↦
        elim (none_ne_some (sym (with_metrics-stop id n nodes used known none_left) ∙ e)) [ ]
    | inr (ms, found) ↦
        let same_list =
          some_injective (sym (with_metrics-some id n nodes used ms known found) ∙ e) in
        rw⁻¹ same_list (ap suc (length-with_metrics nodes ms found))
  ]
]

-- The list pairs each node, in order, with the count of used blocks that its metrics have.
abbrev pub IsMeasured : Nodes → List (ℕ × Node) → Type 0
IsMeasured [] [] = Unit
IsMeasured [] (m ∷ ns) = ⊥
IsMeasured ((id, node) ∷ nodes) [] = ⊥
IsMeasured ((id, node) ∷ nodes) ((used, m) ∷ ns) =
    (node.blocks_used ≡ some used) × (m ≡ node) × IsMeasured nodes ns

with_metrics-IsMeasured :
    (nodes : Nodes) (ns : List (ℕ × Node)) → IsMeasured nodes ns → with_metrics nodes ≡ some ns
unfolding with_metrics
with_metrics-IsMeasured [] [] h = refl
with_metrics-IsMeasured [] (m ∷ ns) h = elim h [ ]
with_metrics-IsMeasured ((id, node) ∷ nodes) [] h = elim h [ ]
with_metrics-IsMeasured ((id, node) ∷ nodes) ((used, m) ∷ ns) h =
    with_metrics-some id node nodes used ns h.0 (with_metrics-IsMeasured nodes ns h.2)
    ∙ ap (λ (k : Node). some ((used, k) ∷ ns)) (sym h.1)

-- Let the metrics of all nodes be known, and let `ns` pair each node with its number of used blocks.
-- Then the nodes that are chosen are the number asked for, or all if there are fewer, and no node
-- that is left out has fewer used blocks than a chosen one: the chosen and the others together are
-- the nodes of `ns` in the order of their used blocks.
pub get_nodes_with_least_blocks-least :
    (n : ℕ) (nodes : Nodes) (ns : List (ℕ × Node))
    → IsMeasured nodes ns
    → (chosen rest : List (ℕ × Node)) × (get_nodes_with_least_blocks n nodes ≡ some (second chosen))
      × (length chosen ≡ min n (length nodes))
      × Perm (chosen ++ rest) ns
      × IsSortedBy (λ p. p.0) (chosen ++ rest)
get_nodes_with_least_blocks-least n nodes ns measured =
    let known = with_metrics-IsMeasured nodes ns measured in
    let sorted = sort_by (λ (p : ℕ × Node). p.0) ns in
    (
      take n sorted,
      drop n sorted,
      chosen_lem n nodes ns known,
      length-take n sorted
          ∙ ap (min n)
              (length-sort_by (λ (p : ℕ × Node). p.0) ns ∙ length-with_metrics nodes ns known),
      rw (take-drop n sorted) (sort_by-perm (λ (p : ℕ × Node). p.0) ns),
      rw (take-drop n sorted) (sort_by-IsSortedBy (λ (p : ℕ × Node). p.0) ns),
    )
