-- ===== src/Registry/Uploads/Races.antt =====
-- Uploads whose goroutines run late, or whose buffers are used again.
use mathlib.Core.List.{append-nil}
use rhosus.Base.{
  ℕ, zero, suc, ◌+◌, ◌-◌, ◌*◌, ◌≤◌, ◌<◌, ◌≡◌, refl, inl, inr, String, Bytes, true, false, none,
  some, List, [], ◌∷◌, ◌++◌, length, take, drop, length-take, length-drop, ◌==◌, ltb, arith, ap,
  sym, ◌∙◌, subst, Bool-cases,
}
use rhosus.Registry.Types.{FsBlock}
use rhosus.Registry.Uploads.{
  shared, UploadBlock, Upload, round, run, fill, get_buffer, take_chunk, run_block, perform,
  perform_all, start, bytes_of, sent_block, data_to_transfer, upload_block_size,
}
use rhosus.Registry.Uploads.Chunks.{
  mid, grown, round-mid, perform_all-grown, IsReady, Finishes, round-Finishes, joined,
  joined-upload_blocks, upload_blocks,
}

mid-IsReady : (content : Bytes) → IsReady (mid (start content))
unfolding mid start
mid-IsReady content = record { available = refl; more = refl; counted = refl; held = tt }

-- Nothing waits for the goroutines: let the first chunk be full, and the rest of the content shorter
-- than a chunk. If the goroutine of the first chunk did not run when the loop ends, the blocks that
-- are sent have the rest alone, and the size of the file so far is that of the rest.
pub perform_all_unwaited :
    (new_id : ℕ → String) (content : Bytes)
    → upload_block_size ≤ length content
    → length content < 2 * upload_block_size
    → ((perform_all new_id (round none ∷ round none ∷ []) (start content)).ended ≡ true)
      × (joined
            (data_to_transfer (perform_all new_id (round none ∷ round none ∷ []) (start content)))
          ≡ drop upload_block_size content)
      × ((perform_all new_id (round none ∷ round none ∷ []) (start content)).total
          ≡ length content - upload_block_size)
unfolding perform_all
perform_all_unwaited new_id content lo hi =
    let left = length-drop upload_block_size content in
    let u = mid (start content) in
    let full =
      round-mid new_id (start content) (unfold start in refl) (unfold start in refl)
        (unfold start in lo) in
    let h =
      round-Finishes new_id u (mid-IsReady content) (unfold mid start in omega (arith, left)) in
    subst
      (λ v.
        ((perform new_id (round none) v).ended ≡ true)
        × (joined (data_to_transfer (perform new_id (round none) v))
            ≡ drop upload_block_size content)
        × ((perform new_id (round none) v).total ≡ length content - upload_block_size))
      (sym full)
      (unfold Finishes mid start data_to_transfer in
        (
          h.0,
          ap joined h.1 ∙ joined-upload_blocks new_id 0 0 (drop upload_block_size content),
          omega (arith, h.2, left),
        ))

drop_all : (n : ℕ) (xs : Bytes) → length xs ≤ n → drop n xs ≡ []
drop_all zero [] le = refl
drop_all zero (x ∷ xs) le = absurd (omega arith)
drop_all (suc n) [] le = refl
drop_all (suc n) (x ∷ xs) le = drop_all n xs (omega arith)

fill_whole : (x y : Bytes) → length x ≡ length y → fill 0 y (x ∷ []) ≡ y ∷ []
fill_whole x y e =
    ap (λ t. t ∷ []) (ap (λ t. y ++ t) (drop_all (length y) x (omega arith)) ∙ append-nil y)

take_chunk-full :
    (new_id : ℕ → String) (chunk : Bytes) (b : ℕ) (memory : List Bytes) (free : List ℕ) (u : Upload)
    → length chunk ≡ upload_block_size
    → take_chunk new_id chunk b memory free u ≡ record u {
      unread = drop upload_block_size u.unread;
      memory = fill b chunk memory;
      free = free;
      running = u.running ++ b ∷ [];
    }
unfolding take_chunk
take_chunk-full new_id chunk b memory free u full = elim (Bool-cases (length chunk == 0)) [
  | inl e ↦ absurd (ground (arith, e))
  | inr nonzero ↦ elim (Bool-cases (ltb (length chunk) upload_block_size)) [
    | inl lt ↦ absurd (ground (arith, lt))
    | inr ge ↦ rw (nonzero, ge) refl
  ]
]

-- The first two chunks of a content, the second one in the buffer of the first.
abbrev pub chunk_two : Bytes → Bytes
chunk_two content = take upload_block_size (drop upload_block_size content)

abbrev shared_block : (ℕ → String) → ℕ → UploadBlock
shared_block new_id i = record {
  id = new_id i;
  index = i + 1;
  len = upload_block_size;
  piece = shared 0;
}

reused : (ℕ → String) → Bytes → Upload
reused new_id content = record {
  unread = drop upload_block_size (drop upload_block_size content);
  memory = chunk_two content ∷ [];
  free = 0 ∷ [];
  running = [];
  counter = 3;
  blocks = shared_block new_id 0 ∷ shared_block new_id 1 ∷ [];
  total = upload_block_size + upload_block_size;
  ended = false;
}

between : (ℕ → String) → Bytes → Upload
between new_id content = record {
  unread = drop upload_block_size (drop upload_block_size content);
  memory = chunk_two content ∷ [];
  free = [];
  running = 0 ∷ [];
  counter = 2;
  blocks = shared_block new_id 0 ∷ [];
  total = upload_block_size;
  ended = false;
}

round-between :
    (new_id : ℕ → String) (content : Bytes)
    → 2 * upload_block_size ≤ length content
    → perform new_id (round (some 0)) (grown new_id (start content)) ≡ between new_id content
unfolding perform get_buffer grown start between
round-between new_id content lo =
    let x = take upload_block_size content in
    let y = chunk_two content in
    let left = length-drop upload_block_size content in
    let one = length-take upload_block_size content in
    let two = length-take upload_block_size (drop upload_block_size content) in
    take_chunk-full new_id y 0 (x ∷ []) [] (grown new_id (start content)) (omega (arith, two, left))
    ∙ ap (λ m. record (between new_id content) { memory = m })
        (fill_whole x y (omega (arith, one, two, left)))

run-reused :
    (new_id : ℕ → String) (content : Bytes)
    → perform new_id (run 0) (between new_id content) ≡ reused new_id content
unfolding perform run_block between reused
run-reused new_id content = refl

reused-IsReady : (new_id : ℕ → String) (content : Bytes) → IsReady (reused new_id content)
unfolding reused
reused-IsReady new_id content = record {
  available = refl;
  more = refl;
  counted = refl;
  held = (omega arith, (omega arith, tt));
}

joined-reused :
    (new_id : ℕ → String) (content rest : Bytes) (bs : List FsBlock)
    → joined bs ≡ rest
    → joined (data_to_transfer (reused new_id content) ++ bs)
      ≡ chunk_two content ++ (chunk_two content ++ rest)
unfolding reused data_to_transfer sent_block bytes_of joined
joined-reused new_id content rest bs e = ap (λ t. chunk_two content ++ (chunk_two content ++ t)) e

schedule-reused :
    (new_id : ℕ → String) (content : Bytes)
    → 2 * upload_block_size ≤ length content
    → perform_all new_id
        (round none ∷ run 0 ∷ round (some 0) ∷ run 0 ∷ round none ∷ [])
        (start content)
      ≡ perform new_id (round none) (reused new_id content)
unfolding perform_all
schedule-reused new_id content lo =
    perform_all-grown new_id (round (some 0) ∷ run 0 ∷ round none ∷ []) (start content)
      (unfold start in refl) (unfold start in refl) (unfold start in omega arith)
    ∙ ap (λ u. perform new_id (round none) (perform new_id (run 0) u))
        (round-between new_id content lo)
    ∙ ap (perform new_id (round none)) (run-reused new_id content)

reused-Finishes :
    (new_id : ℕ → String) (content : Bytes)
    → length content < 3 * upload_block_size
    → ((perform new_id (round none) (reused new_id content)).ended ≡ true)
      × (joined (data_to_transfer (perform new_id (round none) (reused new_id content)))
          ≡ chunk_two content
            ++ (chunk_two content ++ drop upload_block_size (drop upload_block_size content)))
unfolding Finishes reused
reused-Finishes new_id content hi =
    let rest = drop upload_block_size (drop upload_block_size content) in
    let left = length-drop upload_block_size content in
    let left' = length-drop upload_block_size (drop upload_block_size content) in
    let h =
      round-Finishes new_id (reused new_id content) (reused-IsReady new_id content)
        (unfold reused in omega (arith, left, left')) in
    (
      h.0,
      ap joined h.1
          ∙ joined-reused new_id content rest (upload_blocks new_id 0 2 rest)
              (joined-upload_blocks new_id 0 2 rest),
    )

-- A goroutine gives its buffer back to the pool while its block still shares the memory. Let a content
-- have two full chunks and a shorter rest, and the pool hand the buffer of the first chunk out for the
-- second. Then the upload ends with the content of the second chunk in both blocks, and the rest.
pub perform_all_reused :
    (new_id : ℕ → String) (content : Bytes)
    → 2 * upload_block_size ≤ length content
    → length content < 3 * upload_block_size
    → ((perform_all new_id
          (round none ∷ run 0 ∷ round (some 0) ∷ run 0 ∷ round none ∷ [])
          (start content)).ended
        ≡ true)
      × (joined (
            data_to_transfer (
              perform_all new_id
                (round none ∷ run 0 ∷ round (some 0) ∷ run 0 ∷ round none ∷ [])
                (start content)))
          ≡ chunk_two content
            ++ (chunk_two content ++ drop upload_block_size (drop upload_block_size content)))
perform_all_reused new_id content lo hi =
    let run_all = schedule-reused new_id content lo in
    let h = reused-Finishes new_id content hi in
    subst
      (λ u.
        (u.ended ≡ true)
        × (joined (data_to_transfer u)
            ≡ chunk_two content
              ++ (chunk_two content ++ drop upload_block_size (drop upload_block_size content))))
      (sym run_all) h
