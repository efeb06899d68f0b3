-- ===== src/Registry/Placing/Answered.antt =====
-- `GetFileHandler` of rhosus/registry/files.go, described without its maps: which nodes are asked for
-- which blocks, and what is sent of their answers.
use mathlib.Core.List.{append-nil, map-append, append_assoc, Perm}
use rhosus.Base.{
  ℕ, String, string_key, none, some, List, [], ◌∷◌, ◌++◌, map, Dict, lookup, insert, ◌⊎◌, inl, inr,
  ◌≡◌, ◌≢◌, refl, sym, ap, subst, ◌∙◌, In, All, All-insert, ◌↔◌, same, if◌then◌else◌, IsSortedBy,
  lookup-insert, HasUniqueKeys, insert-HasUniqueKeys, Bool-cases, Option-cases, arith,
}
use rhosus.Storage.Types.{FileInfo, BlockInfo, Placement}
use rhosus.Storage.Store.{Env, get_file_by_path}
use rhosus.Storage.Store
use rhosus.Cluster.Types
use rhosus.Registry.Types.{Registry, Node, FsBlock, PlacementInfo, RegistryErr, ok}
use rhosus.Registry.Nodes.{get_blocks}
use rhosus.Registry.Remove.{ByNode, add_request, known_requests}
use rhosus.Registry.Placing.{
  index_of, index_map, stored_indices, with_index, first_placements, fetch_blocks, get_file_handler,
}
use rhosus.Registry.Placing.Fetch.{get_file_handler_lem}

-- The last index that the blocks of the storage have for an identifier, or the one before.
abbrev pub index_in : List BlockInfo → String → ℕ → ℕ
index_in [] a before = before
index_in (b ∷ bs) a before = index_in bs a (if same b.id a then b.index else before)

-- The block as it is answered, with the index that the storage has for it.
abbrev pub filled : List BlockInfo → FsBlock → FsBlock
filled blocks b = record b { index = index_in blocks b.id 0 }

-- What a node is asked for: the blocks whose first placement it has, in order.
abbrev pub asked : String → List BlockInfo → List PlacementInfo
asked node [] = []
asked node (b ∷ bs) = elim b.placements [
  | [] ↦ asked node bs
  | p ∷ _ ↦
      if same p.node_id node
      then record { block_id = b.id; partition_id = p.partition_id } ∷ asked node bs
      else asked node bs
]

-- No element stands in the list twice.
abbrev pub IsDistinct : List String → Type 0
IsDistinct [] = Unit
IsDistinct (n ∷ ns) = (¬ In n ns) × IsDistinct ns

abbrev pub HasPlacement : BlockInfo → Type 0
HasPlacement b = b.placements ≢ []

list_cases : {A : Type 0} (xs : List A) → (xs ≡ []) ⊎ ((x : A) × (ys : List A) × (xs ≡ x ∷ ys))
list_cases [] = inl refl
list_cases (x ∷ xs) = inr (x, xs, refl)

index_of-insert :
    (a c : String) (i : ℕ) (m : Dict String ℕ)
    → index_of (insert a i m) c ≡ (if same a c then i else index_of m c)
unfolding index_of
index_of-insert a c i m = ground (arith, lookup-insert a c i m)

index_of-index_map :
    (c : String) (bs : List BlockInfo) (m : Dict String ℕ)
    → index_of (index_map (map (λ (b : BlockInfo). (b.id, b.index)) bs) m) c
      ≡ index_in bs c (index_of m c)
unfolding index_map
index_of-index_map c [] m = refl
index_of-index_map c (b ∷ bs) m =
    index_of-index_map c bs (insert b.id b.index m)
    ∙ ap (index_in bs c) (index_of-insert b.id c b.index m)

with_index-stored_indices :
    (blocks : List BlockInfo) (b : FsBlock) → with_index (stored_indices blocks) b ≡ filled blocks b
unfolding with_index stored_indices index_of lookup
with_index-stored_indices blocks b =
    ap (λ i. record b { index = i }) (index_of-index_map b.id blocks [])

lookup-add_request :
    (n node : String) (i : PlacementInfo) (m : ByNode)
    → known_requests (lookup n (add_request node i m))
      ≡ known_requests (lookup n m) ++ (if same node n then i ∷ [] else [])
unfolding add_request
lookup-add_request n node i m =
    let is = known_requests (lookup node m) ++ i ∷ [] in
    elim (Bool-cases (same node n)) [
      | inl e ↦
          let found : lookup n (insert node is m) ≡ some is =
            ground (arith, lookup-insert node n is m, e) in
          rw e (
            ap known_requests found
            ∙ ap (λ (k : String). known_requests (lookup k m) ++ i ∷ [])
                ((string_key.same_iff node n).0 e))
      | inr e ↦
          let found : lookup n (insert node is m) ≡ lookup n m =
            ground (arith, lookup-insert node n is m, e) in
          rw e (ap known_requests found ∙ sym (append-nil (known_requests (lookup n m))))
    ]

asked-∷ :
    (n : String) (b : BlockInfo) (bs : List BlockInfo) (p : Placement) (ps : List Placement)
    → b.placements ≡ p ∷ ps
    → asked n (b ∷ bs)
      ≡ (if same p.node_id n
          then record { block_id = b.id; partition_id = p.partition_id } ∷ []
          else [])
        ++ asked n bs
asked-∷ n b bs p ps e = elim (Bool-cases (same p.node_id n)) [
  | inl here ↦ rw (e, here) refl
  | inr elsewhere ↦ rw (e, elsewhere) refl
]

add_request-HasUniqueKeys :
    (node : String) (i : PlacementInfo) (m : ByNode)
    → HasUniqueKeys m
    → HasUniqueKeys (add_request node i m)
unfolding add_request
add_request-HasUniqueKeys node i m unique = insert-HasUniqueKeys node _ m unique

sum_cases : {A B : Type 0} (x : A ⊎ B) → ((a : A) × (x ≡ inl a)) ⊎ ((b : B) × (x ≡ inr b))
sum_cases (inl a) = inl (a, refl)
sum_cases (inr b) = inr (b, refl)

-- The request of a node names a block.
abbrev Asks : String × List PlacementInfo → Type 0
Asks e = e.1 ≢ []

append_one : (is : List PlacementInfo) (i : PlacementInfo) → is ++ i ∷ [] ≢ []
append_one [] i e = ground (arith, e)
append_one (j ∷ is) i e = ground (arith, e)

add_request-Asks :
    (node : String) (i : PlacementInfo) (m : ByNode) → All Asks m → All Asks (add_request node i m)
unfolding add_request
add_request-Asks node i m h = All-insert Asks node _ m (append_one _ i) h

-- The requests: every node in one entry, with what it is asked for.
record AreRequests (blocks : List BlockInfo) (m requests : ByNode) : Type 0 where
  unique : HasUniqueKeys requests
  asking : All Asks requests
  known :
      (n : String)
      → known_requests (lookup n requests) ≡ known_requests (lookup n m) ++ asked n blocks

first_placements-AreRequests :
    (bs : List BlockInfo) (m : ByNode)
    → HasUniqueKeys m
    → All Asks m
    → All HasPlacement bs
    → (requests : ByNode) × (first_placements bs m ≡ some requests) × AreRequests bs m requests
unfolding first_placements
first_placements-AreRequests [] m unique asking h = (
  m,
  refl,
  record {
    unique = unique;
    asking = asking;
    known = λ n. sym (append-nil (known_requests (lookup n m)));
  },
)
first_placements-AreRequests (b ∷ bs) m unique asking h = elim (list_cases b.placements) [
  | inl e ↦ absurd (h.0 e)
  | inr (p, ps, e) ↦
      let i : PlacementInfo = record { block_id = b.id; partition_id = p.partition_id } in
      let m' = add_request p.node_id i m in
      let (requests, ran, are) =
        first_placements-AreRequests bs m' (add_request-HasUniqueKeys p.node_id i m unique)
          (add_request-Asks p.node_id i m asking) h.1 in
      (
        requests,
        rw (e, first_placements) ran,
        record {
          unique = are.unique;
          asking = are.asking;
          known = λ n.
              are.known n
              ∙ ap (λ xs. xs ++ asked n bs) (lookup-add_request n p.node_id i m)
              ∙ append_assoc (known_requests (lookup n m)) _ _
              ∙ ap (λ xs. known_requests (lookup n m) ++ xs) (sym (asked-∷ n b bs p ps e));
        },
      )
]

In-lookup :
    (n : String) (is : List PlacementInfo) (m : ByNode)
    → HasUniqueKeys m
    → In (n, is) m
    → lookup n m ≡ some is
unfolding lookup
In-lookup n is [] unique there = elim there [ ]
In-lookup n is ((k, js) ∷ m) unique (inl e) =
    let names : n ≡ k = ap (λ (x : String × List PlacementInfo). x.0) e in
    let values : is ≡ js = ap (λ (x : String × List PlacementInfo). x.1) e in
    rw ((string_key.same_iff k n).1 (sym names)) (ap some (sym values))
In-lookup n is ((k, js) ∷ m) unique (inr there) =
    let later = In-lookup n is m unique.1 there in
    ground (arith, later, unique.0, string_key.same_iff k n)

names : ByNode → List String
names m = map (λ (x : String × List PlacementInfo). x.0) m

In-names : (n : String) (m : ByNode) → In n (names m) → lookup n m ≢ none
unfolding names lookup
In-names n [] there = elim there [ ]
In-names n ((k, js) ∷ m) (inl e) = ground (arith, string_key.same_iff k n, e)
In-names n ((k, js) ∷ m) (inr there) = let later = In-names n m there in ground (arith, later)

known_requests-Asks :
    (n : String) (m : ByNode) → All Asks m → In n (names m) → known_requests (lookup n m) ≢ []
unfolding names lookup
known_requests-Asks n [] h there = elim there [ ]
known_requests-Asks n ((k, js) ∷ m) h there = elim (Bool-cases (same k n)) [
  | inl e ↦ rw e h.0
  | inr e ↦ rw e (elim there [
    | inl eq ↦ absurd (ground (arith, string_key.same_iff k n, eq, e))
    | inr later ↦ known_requests-Asks n m h.1 later
  ])
]

names-In : (n : String) (m : ByNode) → known_requests (lookup n m) ≢ [] → In n (names m)
unfolding names lookup
names-In n [] h = h refl
names-In n ((k, js) ∷ m) h = elim (Bool-cases (same k n)) [
  | inl e ↦ inl (sym ((string_key.same_iff k n).0 e))
  | inr e ↦ inr (names-In n m (rw e at h))
]

names-IsDistinct : (m : ByNode) → HasUniqueKeys m → IsDistinct (names m)
unfolding names
names-IsDistinct [] h = tt
names-IsDistinct ((k, js) ∷ m) h = (λ there. In-names k m there h.0, names-IsDistinct m h.1)

module _ (call : String → List PlacementInfo → RegistryErr ⊎ List FsBlock)
    (nodes : Dict String Node) (blocks : List BlockInfo) where
  -- The blocks that a node answers: none if it is not known or fails.
  abbrev pub answered : String → List FsBlock
  answered n = elim (lookup n nodes) [
    | none ↦ []
    | some k ↦ elim (call n (asked n blocks)) [ inl e ↦ [] | inr bs ↦ bs ]
  ]

  -- The answers of some nodes, with the indices that the storage has.
  abbrev pub answers_of : List String → List FsBlock
  answers_of [] = []
  answers_of (n ∷ ns) = map (filled blocks) (answered n) ++ answers_of ns

  fetch_blocks-∷ :
      (n : String) (m : ByNode)
      → fetch_blocks call nodes ((n, asked n blocks) ∷ m) ≡ answered n ++ fetch_blocks call nodes m
  unfolding fetch_blocks get_blocks
  fetch_blocks-∷ n m = elim (Option-cases (lookup n nodes)) [
    | inl e ↦ rw (e, fetch_blocks, answered) refl
    | inr (k, e) ↦ elim (sum_cases (call n (asked n blocks))) [
      | inl (err, f) ↦ rw (e, fetch_blocks, answered, f) refl
      | inr (bs, f) ↦ rw (e, fetch_blocks, answered, f) refl
    ]
  ]

  filled-fetch_blocks :
      (m : ByNode)
      → ((n : String) (is : List PlacementInfo) → In (n, is) m → is ≡ asked n blocks)
      → map (filled blocks) (fetch_blocks call nodes m) ≡ answers_of (names m)
  unfolding fetch_blocks names
  filled-fetch_blocks [] h = refl
  filled-fetch_blocks ((n, is) ∷ m) h =
      ap (λ (js : List PlacementInfo). map (filled blocks) (fetch_blocks call nodes ((n, js) ∷ m)))
        (h n is (inl refl))
      ∙ ap (map (filled blocks)) (fetch_blocks-∷ n m)
      ∙ map-append (filled blocks) (answered n) (fetch_blocks call nodes m)
      ∙ ap (λ bs. map (filled blocks) (answered n) ++ bs)
          (filled-fetch_blocks m (λ k js there. h k js (inr there)))

-- Let the path name a file whose blocks each have a placement. Then what is sent is, in the order of
-- the indices, what the nodes answer, together, that the first placements of the blocks name, each node
-- once: each of them, if it is known and does not fail, to the
-- one request for exactly the blocks that have their first placement on it. Of each block, the index
-- is the one that the storage has for it, and nothing else is changed.
pub get_file_handler-answers :
    {senv : Env} {cenv : Types.Env}
    (call : String → List PlacementInfo → RegistryErr ⊎ List FsBlock) (path : String)
    (r : Registry senv cenv) (f : FileInfo) (blocks : List BlockInfo)
    → get_file_by_path path r.storage ≡ inr (some f)
    → Store.get_blocks f.id r.storage ≡ inr blocks
    → All HasPlacement blocks
    → (nodes : List String) × (sent : List FsBlock) × (get_file_handler call path r ≡ ok sent)
      × IsSortedBy (λ b. b.index) sent
      × IsDistinct nodes
      × ((n : String) → In n nodes ↔ (asked n blocks ≢ []))
      × Perm sent (answers_of call r.nodes blocks nodes)
unfolding lookup
get_file_handler-answers call path r f blocks found stored placed =
    let (requests, grouped, are) = first_placements-AreRequests blocks [] tt tt placed in
    let (sent, ran, sorted, perm) =
      get_file_handler_lem call path r f blocks requests found stored grouped in
    let filled_in =
      ap (λ (g : FsBlock → FsBlock). map g (fetch_blocks call r.nodes requests))
        (λ i b. with_index-stored_indices blocks b i)
      ∙ filled-fetch_blocks call r.nodes blocks requests (λ n is there.
        ap known_requests (sym (In-lookup n is requests are.unique there)) ∙ are.known n) in
    (
      names requests,
      sent,
      ran,
      sorted,
      names-IsDistinct requests are.unique,
      λ n. (
        λ there e. known_requests-Asks n requests are.asking there (are.known n ∙ e),
        λ some_asked. names-In n requests (λ e. some_asked (sym (are.known n) ∙ e)),
      ),
      subst (λ (bs : List FsBlock). Perm sent bs) filled_in perm,
    )
