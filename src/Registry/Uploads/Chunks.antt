-- ===== src/Registry/Uploads/Chunks.antt =====
-- An upload whose goroutines run at once, each with a buffer that was never used.
use mathlib.Core.List.{append-nil, append_assoc, map-append}
use rhosus.Base.{
  ℕ, zero, suc, ◌+◌, ◌*◌, ◌≤◌, ◌<◌, ◌≡◌, refl, inl, inr, String, Bytes, true, false, none, some,
  List, [], ◌∷◌, ◌++◌, length, take, drop, length-append, length-take, length-drop, map, get_elem?,
  ◌==◌, ltb, leb, if◌then◌else◌, arith, ap, sym, ◌∙◌, subst, Bool-cases, dec_lt,
}
use rhosus.Registry.Types.{FsBlock}
use rhosus.Registry.Uploads.{
  Piece, own, shared, UploadBlock, Upload, Event, round, run, fill, get_buffer, take_chunk,
  run_block, perform, perform_all, start, bytes_of, sent_block, data_to_transfer, upload_block_size,
  buffers_limit,
}

-- Each chunk is read into a new buffer, and its goroutine runs before the next is read.
abbrev pub in_order : ℕ → List Event
in_order zero = round none ∷ []
in_order (suc n) = round none ∷ run 0 ∷ in_order n

-- The blocks of a content: `n` full ones, the first with the index `i`, and the rest if there is any.
unfoldable pub upload_blocks : (ℕ → String) → ℕ → ℕ → Bytes → List FsBlock
upload_blocks new_id zero i content =
    if length content == 0
    then []
    else record { id = new_id i; index = i + 1; len = length content; bytes = content } ∷ []
upload_blocks new_id (suc n) i content =
    record {
      id = new_id i;
      index = i + 1;
      len = upload_block_size;
      bytes = take upload_block_size content;
    }
    ∷ upload_blocks new_id n (i + 1) (drop upload_block_size content)

-- The contents of blocks, one after the other.
unfoldable pub joined : List FsBlock → Bytes
joined [] = []
joined (b ∷ bs) = b.bytes ++ joined bs

pub take_all : (n : ℕ) (xs : Bytes) → length xs ≤ n → take n xs ≡ xs
take_all zero [] le = refl
take_all zero (x ∷ xs) le = absurd (omega arith)
take_all (suc n) [] le = refl
take_all (suc n) (x ∷ xs) le = ap (◌∷◌ x) (take_all n xs (omega arith))

take-drop {ℓ} : {A : Type ℓ} (n : ℕ) (xs : List A) → take n xs ++ drop n xs ≡ xs
take-drop zero xs = refl
take-drop (suc n) [] = refl
take-drop (suc n) (x ∷ xs) = ap (◌∷◌ x) (take-drop n xs)

pub joined-upload_blocks :
    (new_id : ℕ → String) (n i : ℕ) (content : Bytes)
    → joined (upload_blocks new_id n i content) ≡ content
unfolding joined upload_blocks
joined-upload_blocks new_id zero i [] = refl
joined-upload_blocks new_id zero i (x ∷ content) = ground (arith, append-nil (x ∷ content))
joined-upload_blocks new_id (suc n) i content =
    ap (λ t. take upload_block_size content ++ t)
      (joined-upload_blocks new_id n (i + 1) (drop upload_block_size content))
    ∙ take-drop upload_block_size content

drop-nil : (n : ℕ) → drop {A = ℕ} n [] ≡ []
drop-nil zero = refl
drop-nil (suc n) = refl

fill-append :
    (memory : List Bytes) (chunk : Bytes)
    → fill (length memory) chunk (memory ++ [] ∷ []) ≡ memory ++ chunk ∷ []
fill-append [] chunk =
    ap (λ x. x ∷ []) (ap (λ t. chunk ++ t) (drop-nil (length chunk)) ∙ append-nil chunk)
fill-append (x ∷ memory) chunk = ap (◌∷◌ x) (fill-append memory chunk)

get_elem?-append_left :
    (xs ys : List Bytes) (i : ℕ) → i < length xs → get_elem? (xs ++ ys) i ≡ get_elem? xs i
get_elem?-append_left [] ys i lt = absurd (omega arith)
get_elem?-append_left (x ∷ xs) ys zero lt = refl
get_elem?-append_left (x ∷ xs) ys (suc i) lt = get_elem?-append_left xs ys i (omega arith)

get_elem?-append_last :
    (xs : List Bytes) (x : Bytes) → get_elem? (xs ++ x ∷ []) (length xs) ≡ some x
get_elem?-append_last [] x = refl
get_elem?-append_last (y ∷ xs) x = get_elem?-append_last xs x

-- The buffer of a block's data, if it has one, is there.
abbrev pub IsHeld : ℕ → Piece → Type 0
IsHeld n (own x) = Unit
IsHeld n (shared b) = b < n

abbrev pub AreHeld : ℕ → List UploadBlock → Type 0
AreHeld n [] = Unit
AreHeld n (b ∷ bs) = IsHeld n b.piece × AreHeld n bs

bytes_of-append :
    (memory : List Bytes) (x : Bytes) (p : Piece)
    → IsHeld (length memory) p
    → bytes_of (memory ++ x ∷ []) p ≡ bytes_of memory p
unfolding bytes_of
bytes_of-append memory x (own y) held = refl
bytes_of-append memory x (shared b) held =
    ground (arith, get_elem?-append_left memory (x ∷ []) b held)

sent_block-append :
    (memory : List Bytes) (x : Bytes) (bs : List UploadBlock)
    → AreHeld (length memory) bs
    → map (sent_block (memory ++ x ∷ [])) bs ≡ map (sent_block memory) bs
unfolding sent_block
sent_block-append memory x [] held = refl
sent_block-append memory x (b ∷ bs) held =
    ground (arith, bytes_of-append memory x b.piece held.0, sent_block-append memory x bs held.1)

IsHeld-suc : (n : ℕ) (p : Piece) → IsHeld n p → IsHeld (suc n) p
IsHeld-suc n (own x) h = tt
IsHeld-suc n (shared b) h = omega arith

AreHeld-append :
    (n : ℕ) (b : UploadBlock) (bs : List UploadBlock)
    → AreHeld n bs
    → IsHeld (suc n) b.piece
    → AreHeld (suc n) (bs ++ b ∷ [])
AreHeld-append n b [] held new = (new, tt)
AreHeld-append n b (c ∷ bs) held new =
    (IsHeld-suc n c.piece held.0, AreHeld-append n b bs held.1 new)

-- The block of a full chunk, and the upload before and after its goroutine.
abbrev pub full_block : (ℕ → String) → Upload → UploadBlock
full_block new_id u = record {
  id = new_id (length u.blocks);
  index = u.counter;
  len = upload_block_size;
  piece = shared (length u.memory);
}

unfoldable pub mid : Upload → Upload
mid u = record u {
  unread = drop upload_block_size u.unread;
  memory = u.memory ++ take upload_block_size u.unread ∷ [];
  running = length u.memory ∷ [];
}

unfoldable pub grown : (ℕ → String) → Upload → Upload
grown new_id u = record u {
  unread = drop upload_block_size u.unread;
  memory = u.memory ++ take upload_block_size u.unread ∷ [];
  free = u.free ++ length u.memory ∷ [];
  running = [];
  counter = u.counter + 1;
  blocks = u.blocks ++ full_block new_id u ∷ [];
  total = u.total + upload_block_size;
}

pub round-mid :
    (new_id : ℕ → String) (u : Upload)
    → u.running ≡ []
    → u.ended ≡ false
    → upload_block_size ≤ length u.unread
    → perform new_id (round none) u ≡ mid u
unfolding perform get_buffer take_chunk mid
round-mid new_id u idle more full = ground (
  arith,
  fill-append u.memory (take upload_block_size u.unread),
  length-take upload_block_size u.unread,
)

pub run-grown : (new_id : ℕ → String) (u : Upload) → perform new_id (run 0) (mid u) ≡ grown new_id u
unfolding perform run_block mid grown
run-grown new_id u = refl

pub perform_all-grown :
    (new_id : ℕ → String) (es : List Event) (u : Upload)
    → u.running ≡ []
    → u.ended ≡ false
    → upload_block_size ≤ length u.unread
    → perform_all new_id (round none ∷ run 0 ∷ es) u ≡ perform_all new_id es (grown new_id u)
unfolding perform_all
perform_all-grown new_id es u idle more full =
    ap (perform_all new_id es)
      (ap (perform new_id (run 0)) (round-mid new_id u idle more full) ∙ run-grown new_id u)

-- An upload that goes on with a buffer to read into.
pub record IsReady (u : Upload) : Type 0 where
  pub available : leb buffers_limit (length u.running) ≡ false
  pub more : u.ended ≡ false
  pub counted : u.counter ≡ length u.blocks + 1
  pub held : AreHeld (length u.memory) u.blocks

pub grown-IsReady : (new_id : ℕ → String) (u : Upload) → IsReady u → IsReady (grown new_id u)
unfolding grown
grown-IsReady new_id u ok = record {
  available = refl;
  more = ok.more;
  counted = omega (arith, length-append u.blocks (full_block new_id u ∷ []), ok.counted);
  held =
      subst (λ n. AreHeld n (u.blocks ++ full_block new_id u ∷ []))
        (omega (arith, length-append u.memory (take upload_block_size u.unread ∷ [])))
        (AreHeld-append (length u.memory) (full_block new_id u) u.blocks ok.held (omega arith));
}

-- The blocks that are sent, after a buffer and a block are added.
data_to_transfer-append :
    (u : Upload) (x : Bytes) (b : UploadBlock)
    → AreHeld (length u.memory) u.blocks
    → map (sent_block (u.memory ++ x ∷ [])) (u.blocks ++ b ∷ [])
      ≡ data_to_transfer u ++ sent_block (u.memory ++ x ∷ []) b ∷ []
unfolding data_to_transfer
data_to_transfer-append u x b held =
    map-append (sent_block (u.memory ++ x ∷ [])) u.blocks (b ∷ [])
    ∙ ap (λ t. t ++ sent_block (u.memory ++ x ∷ []) b ∷ [])
        (sent_block-append u.memory x u.blocks held)

sent_block_eq :
    (memory : List Bytes) (b : UploadBlock) (x : Bytes) (i : ℕ)
    → bytes_of memory b.piece ≡ x
    → b.index ≡ i
    → sent_block memory b ≡ record { id = b.id; index = i; len = b.len; bytes = x }
unfolding sent_block
sent_block_eq memory b x i e h = ground (arith, e, h)

bytes_of-shared :
    (memory : List Bytes) (b : ℕ) (x : Bytes)
    → get_elem? memory b ≡ some x
    → bytes_of memory (shared b) ≡ x
unfolding bytes_of
bytes_of-shared memory b x e = ground (arith, e)

bytes_of-own : (memory : List Bytes) (x : Bytes) → bytes_of memory (own x) ≡ x
unfolding bytes_of
bytes_of-own memory x = refl

pub data_to_transfer-grown :
    (new_id : ℕ → String) (u : Upload)
    → IsReady u
    → data_to_transfer (grown new_id u)
      ≡ data_to_transfer u
        ++ record {
          id = new_id (length u.blocks);
          index = length u.blocks + 1;
          len = upload_block_size;
          bytes = take upload_block_size u.unread;
        }
          ∷ []
unfolding data_to_transfer grown
data_to_transfer-grown new_id u ok =
    let chunk = take upload_block_size u.unread in
    data_to_transfer-append u chunk (full_block new_id u) ok.held
    ∙ ap (λ b. data_to_transfer u ++ b ∷ [])
        (sent_block_eq (u.memory ++ chunk ∷ []) (full_block new_id u) chunk (length u.blocks + 1)
          (bytes_of-shared (u.memory ++ chunk ∷ []) (length u.memory) chunk
            (get_elem?-append_last u.memory chunk))
          ok.counted)

-- What the rest of an upload comes to.
unfoldable pub Finishes : (ℕ → String) → ℕ → Upload → Upload → Type 0
Finishes new_id n u r =
    (r.ended ≡ true)
    × (data_to_transfer r ≡ data_to_transfer u ++ upload_blocks new_id n (length u.blocks) u.unread)
    × (r.total ≡ u.total + length u.unread)

-- The upload after a last chunk, and after none.
abbrev small_block : (ℕ → String) → Upload → UploadBlock
small_block new_id u = record {
  id = new_id (length u.blocks);
  index = u.counter;
  len = length u.unread;
  piece = own u.unread;
}

with_last : (ℕ → String) → Upload → Upload
with_last new_id u = record u {
  memory = u.memory ++ u.unread ∷ [];
  free = u.free ++ length u.memory ∷ [];
  blocks = u.blocks ++ small_block new_id u ∷ [];
  total = u.total + length u.unread;
  ended = true;
}

take_chunk-last :
    (new_id : ℕ → String) (chunk : Bytes) (b : ℕ) (memory : List Bytes) (free : List ℕ) (u : Upload)
    → 0 < length chunk
    → length chunk < upload_block_size
    → take_chunk new_id chunk b memory free u ≡ record u {
      memory = fill b chunk memory;
      free = free ++ b ∷ [];
      blocks =
          u.blocks
          ++ record {
            id = new_id (length u.blocks);
            index = u.counter;
            len = length chunk;
            piece = own chunk;
          }
            ∷ [];
      total = u.total + length chunk;
      ended = true;
    }
unfolding take_chunk
take_chunk-last new_id chunk b memory free u some_left short =
    elim (Bool-cases (length chunk == 0)) [
      | inl e ↦ absurd (ground (arith, e))
      | inr nonzero ↦ elim (Bool-cases (ltb (length chunk) upload_block_size)) [
        | inl lt ↦ rw (nonzero, lt) refl
        | inr ge ↦ absurd (ground (arith, ge))
      ]
    ]

round-take_chunk :
    (new_id : ℕ → String) (u : Upload)
    → leb buffers_limit (length u.running) ≡ false
    → u.ended ≡ false
    → perform new_id (round none) u
      ≡ take_chunk new_id
          (take upload_block_size u.unread)
          (length u.memory)
          (u.memory ++ [] ∷ [])
          u.free
          u
unfolding perform get_buffer
round-take_chunk new_id u available more = rw (more, available) refl

round-with_last :
    (new_id : ℕ → String) (u : Upload)
    → IsReady u
    → 0 < length u.unread
    → length u.unread < upload_block_size
    → perform new_id (round none) u ≡ with_last new_id u
unfolding with_last
round-with_last new_id u ok some_left short =
    round-take_chunk new_id u ok.available ok.more
    ∙ ap (λ chunk. take_chunk new_id chunk (length u.memory) (u.memory ++ [] ∷ []) u.free u)
        (take_all upload_block_size u.unread (omega arith))
    ∙ take_chunk-last new_id u.unread (length u.memory) (u.memory ++ [] ∷ []) u.free u some_left
        short
    ∙ ap
        (λ m. record u {
          memory = m;
          free = u.free ++ length u.memory ∷ [];
          blocks = u.blocks ++ small_block new_id u ∷ [];
          total = u.total + length u.unread;
          ended = true;
        })
        (fill-append u.memory u.unread)

without_last : Upload → Upload
without_last u = record u {
  memory = u.memory ++ [] ∷ [];
  free = u.free ++ length u.memory ∷ [];
  ended = true;
}

round-without_last :
    (new_id : ℕ → String) (u : Upload)
    → IsReady u
    → length u.unread ≡ 0
    → perform new_id (round none) u ≡ without_last u
unfolding perform get_buffer take_chunk without_last
round-without_last new_id u ok nothing =
    let all = take_all upload_block_size u.unread (omega arith) in
    ground (arith, ok.available, ok.more, all)

with_last-Finishes :
    (new_id : ℕ → String) (u : Upload)
    → IsReady u
    → 0 < length u.unread
    → Finishes new_id 0 u (with_last new_id u)
unfolding Finishes with_last data_to_transfer upload_blocks
with_last-Finishes new_id u ok some_left = (
  refl,
  data_to_transfer-append u u.unread (small_block new_id u) ok.held
      ∙ ap (λ b. data_to_transfer u ++ b ∷ [])
          (sent_block_eq (u.memory ++ u.unread ∷ []) (small_block new_id u) u.unread
            (length u.blocks + 1) (bytes_of-own (u.memory ++ u.unread ∷ []) u.unread) ok.counted)
      ∙ ap (λ t. data_to_transfer u ++ t) (ground arith),
  refl,
)

without_last-Finishes :
    (new_id : ℕ → String) (u : Upload)
    → IsReady u
    → length u.unread ≡ 0
    → Finishes new_id 0 u (without_last u)
unfolding Finishes without_last data_to_transfer upload_blocks
without_last-Finishes new_id u ok nothing = (
  refl,
  sent_block-append u.memory [] u.blocks ok.held
      ∙ sym (append-nil (data_to_transfer u))
      ∙ ap (λ t. data_to_transfer u ++ t) (ground arith),
  omega arith,
)

pub round-Finishes :
    (new_id : ℕ → String) (u : Upload)
    → IsReady u
    → length u.unread < upload_block_size
    → Finishes new_id 0 u (perform new_id (round none) u)
round-Finishes new_id u ok short = elim (dec_lt 0 (length u.unread)) [
  | yes some_left ↦
      subst (Finishes new_id 0 u) (sym (round-with_last new_id u ok some_left short))
        (with_last-Finishes new_id u ok some_left)
  | no none_left ↦
      subst (Finishes new_id 0 u) (sym (round-without_last new_id u ok (omega arith)))
        (without_last-Finishes new_id u ok (omega arith))
]

grown-Finishes :
    (new_id : ℕ → String) (n : ℕ) (u r : Upload)
    → IsReady u
    → upload_block_size ≤ length u.unread
    → Finishes new_id n (grown new_id u) r
    → Finishes new_id (suc n) u r
unfolding Finishes upload_blocks grown
grown-Finishes new_id n u r ok full h = (
  h.0,
  h.1
      ∙ ap
          (λ t.
            t ++ upload_blocks new_id n (length (grown new_id u).blocks) (grown new_id u).unread)
          (data_to_transfer-grown new_id u ok)
      ∙ append_assoc (data_to_transfer u) _ _
      ∙ ap
          (λ i.
            data_to_transfer u
            ++ record {
              id = new_id (length u.blocks);
              index = length u.blocks + 1;
              len = upload_block_size;
              bytes = take upload_block_size u.unread;
            }
              ∷ upload_blocks new_id n i (drop upload_block_size u.unread))
          (length-append u.blocks (full_block new_id u ∷ [])),
  omega (arith, h.2, length-drop upload_block_size u.unread),
)

in_order-Finishes :
    (new_id : ℕ → String) (n : ℕ) (u : Upload)
    → IsReady u
    → u.running ≡ []
    → n * upload_block_size ≤ length u.unread
    → length u.unread < suc n * upload_block_size
    → Finishes new_id n u (perform_all new_id (in_order n) u)
unfolding perform_all
in_order-Finishes new_id zero u ok idle lo hi = round-Finishes new_id u ok (omega arith)
in_order-Finishes new_id (suc n) u ok idle lo hi =
    let full : upload_block_size ≤ length u.unread = omega arith in
    let left = length-drop upload_block_size u.unread in
    subst (Finishes new_id (suc n) u)
      (sym (perform_all-grown new_id (in_order n) u idle ok.more full))
      (grown-Finishes new_id n u _ ok full (
        in_order-Finishes new_id n (grown new_id u) (grown-IsReady new_id u ok)
          (unfold grown in refl) (unfold grown in omega (arith, left))
          (unfold grown in omega (arith, left))))

pub start-IsReady : (content : Bytes) → IsReady (start content)
unfolding start
start-IsReady content = record { available = refl; more = refl; counted = refl; held = tt }

-- An upload of `n` full chunks and a shorter rest, whose goroutines run at once and whose buffers are
-- new, ends with the blocks of the content: the full ones and, if there is a rest, one for it, with
-- the indices from 1 on. Their contents make the content again, and the size of the file is its length.
pub perform_all-in_order :
    (new_id : ℕ → String) (n : ℕ) (content : Bytes)
    → n * upload_block_size ≤ length content
    → length content < suc n * upload_block_size
    → ((perform_all new_id (in_order n) (start content)).ended ≡ true)
      × (data_to_transfer (perform_all new_id (in_order n) (start content))
          ≡ upload_blocks new_id n 0 content)
      × (joined (data_to_transfer (perform_all new_id (in_order n) (start content))) ≡ content)
      × ((perform_all new_id (in_order n) (start content)).total ≡ length content)
unfolding Finishes start data_to_transfer
perform_all-in_order new_id n content lo hi =
    let h = in_order-Finishes new_id n (start content) (start-IsReady content) refl lo hi in
    (h.0, h.1, ap joined h.1 ∙ joined-upload_blocks new_id n 0 content, omega (arith, h.2))
