-- ===== src/Data/IdxFile/Mirror.antt =====
-- What the slots of a file of headers hold, as a function from slots, and how it goes with a map of
-- blocks when a block comes or goes.
use rhosus.Base.{
  ℕ, ◌*◌, ◌/◌, ◌<◌, ◌≡◌, ◌≢◌, refl, ◌⊎◌, inl, inr, Bytes, bytes_key, bytes_eq_iff, true, none, some,
  [], ◌∷◌, Dict, same, lookup, insert, delete, lookup-insert, lookup-delete, HasUniqueKeys,
  insert-HasUniqueKeys, delete-HasUniqueKeys, ◌==◌, ==_iff, if◌then◌else◌, arith, ap, sym, ◌∙◌,
  Bool-cases,
}
use rhosus.Data.Files.{slice}
use rhosus.Data.IdxFile.{IdxBlock, marshal, is_bytes_all_zeros, partition_blocks_count}
use rhosus.Data.IdxFile.Restart.{IsStorable, Mirrors}

-- No block is at the slot.
abbrev pub IsVacant : ℕ → Dict Bytes IdxBlock → Type 0
IsVacant n m = (a : Bytes) (b : IdxBlock) → lookup a m ≡ some b → b.offset / 44 ≢ n

-- `at n` is the bytes of slot `n`: the header of the block there, or zeros.
pub record IsMirror (at : ℕ → Bytes) (m : Dict Bytes IdxBlock) : Type 0 where
  pub unique : HasUniqueKeys m
  pub storable : (a : Bytes) (b : IdxBlock) → lookup a m ≡ some b → IsStorable a b
  pub on_slot : (a : Bytes) (b : IdxBlock) → lookup a m ≡ some b → b.offset ≡ b.offset / 44 * 44
  pub header : (a : Bytes) (b : IdxBlock) → lookup a m ≡ some b → at (b.offset / 44) ≡ marshal b
  pub vacant :
      (n : ℕ) → n < partition_blocks_count → IsVacant n m → is_bytes_all_zeros (at n) ≡ true

-- Other slots that hold the same.
pub IsMirror-ext :
    (at at' : ℕ → Bytes) (m : Dict Bytes IdxBlock)
    → ((n : ℕ) → at' n ≡ at n)
    → IsMirror at m
    → IsMirror at' m
IsMirror-ext at at' m e ok = record {
  unique = ok.unique;
  storable = ok.storable;
  on_slot = ok.on_slot;
  header = λ a b h. e (b.offset / 44) ∙ ok.header a b h;
  vacant = λ n lt h. ap is_bytes_all_zeros (e n) ∙ ok.vacant n lt h;
}

-- Another map with the same entries.
pub IsMirror-lookup :
    (at : ℕ → Bytes) (m r : Dict Bytes IdxBlock)
    → HasUniqueKeys r
    → ((c : Bytes) → lookup c r ≡ lookup c m)
    → IsMirror at m
    → IsMirror at r
IsMirror-lookup at m r unique e ok = record {
  unique = unique;
  storable = λ a b h. ok.storable a b (sym (e a) ∙ h);
  on_slot = λ a b h. ok.on_slot a b (sym (e a) ∙ h);
  header = λ a b h. ok.header a b (sym (e a) ∙ h);
  vacant = λ n lt h. ok.vacant n lt (λ a b k. h a b (e a ∙ k));
}

-- The slots with one of them changed.
abbrev pub with_slot : ℕ → Bytes → (ℕ → Bytes) → ℕ → Bytes
with_slot slot bytes at n = if slot == n then bytes else at n

insert-IsVacant :
    (n : ℕ) (a : Bytes) (b : IdxBlock) (m : Dict Bytes IdxBlock)
    → lookup a m ≡ none
    → IsVacant n (insert a b m)
    → (b.offset / 44 ≢ n) × IsVacant n m
insert-IsVacant n a b m fresh h = (
  h a b (ground (arith, lookup-insert a a b m, bytes_eq_iff a a)),
  λ c x e. h c x (ground (arith, lookup-insert a c b m, bytes_eq_iff a c)),
)

delete-IsVacant :
    (n : ℕ) (a : Bytes) (b : IdxBlock) (m : Dict Bytes IdxBlock)
    → lookup a m ≡ some b
    → b.offset / 44 ≢ n
    → IsVacant n (delete a m)
    → IsVacant n m
delete-IsVacant n a b m there ne h c x e = elim (Bool-cases (same a c)) [
  | inl eq ↦ ground (arith, bytes_eq_iff a c)
  | inr differ ↦ h c x (lookup-delete a c m ∙ rw differ e)
]

-- A new block at a vacant slot, with its header.
pub insert-IsMirror :
    (a : Bytes) (b : IdxBlock) (slot : ℕ) (at : ℕ → Bytes) (m : Dict Bytes IdxBlock)
    → IsMirror at m
    → lookup a m ≡ none
    → IsStorable a b
    → b.offset ≡ slot * 44
    → IsVacant slot m
    → IsMirror (with_slot slot (marshal b) at) (insert a b m)
insert-IsMirror a b slot at m ok fresh storable there free =
    let new = λ (c : Bytes). lookup-insert a c b m in
    record {
      unique = insert-HasUniqueKeys a b m ok.unique;
      storable = λ c x e. ground (arith, new c, storable, ok.storable c x, bytes_eq_iff a c);
      on_slot = λ c x e. ground (arith, new c, ok.on_slot c x, bytes_eq_iff a c);
      header = λ c x e. ground (arith, new c, ok.header c x, bytes_eq_iff a c, free c x);
      vacant = λ n lt h.
          let (elsewhere, before) = insert-IsVacant n a b m fresh h in
          ground (arith, ok.vacant n lt before, ==_iff slot n);
    }

abbrev pub zeros : Bytes
zeros = slice (λ _. 0) 0 44

-- A block goes, and zeros are put in its slot.
pub delete-IsMirror :
    (a : Bytes) (b : IdxBlock) (at : ℕ → Bytes) (m : Dict Bytes IdxBlock)
    → IsMirror at m
    → lookup a m ≡ some b
    → ((c : Bytes) (x : IdxBlock) → lookup c m ≡ some x → x.offset / 44 ≡ b.offset / 44 → a ≡ c)
    → IsMirror (with_slot (b.offset / 44) zeros at) (delete a m)
unfolding is_bytes_all_zeros
delete-IsMirror a b at m ok there apart = record {
  unique = delete-HasUniqueKeys a m ok.unique;
  storable = λ c x e. ground (arith, lookup-delete a c m, ok.storable c x);
  on_slot = λ c x e. ground (arith, lookup-delete a c m, ok.on_slot c x);
  header = λ c x e. ground (
    arith,
    lookup-delete a c m,
    ok.header c x,
    apart c x,
    bytes_eq_iff a c,
    ==_iff (b.offset / 44) (x.offset / 44),
  );
  vacant = λ n lt h. elim (Bool-cases (b.offset / 44 == n)) [
    | inl own ↦ rw own refl
    | inr other ↦ rw other (
        ok.vacant n lt
          (delete-IsVacant n a b m there (λ e. ground (arith, ==_iff (b.offset / 44) n)) h))
  ];
}

-- A slot is that of a block, or vacant.
block_at :
    (n : ℕ) (m : Dict Bytes IdxBlock)
    → HasUniqueKeys m
    → ((a : Bytes) × (b : IdxBlock) × (lookup a m ≡ some b) × (b.offset / 44 ≡ n)) ⊎ IsVacant n m
unfolding lookup
block_at n [] unique = inr (λ a b e. ground arith)
block_at n ((c, x) ∷ m) unique = elim (Bool-cases (x.offset / 44 == n)) [
  | inl here ↦ inl (c, x, ground (arith, bytes_eq_iff c c), ground (arith, here))
  | inr other ↦ elim (block_at n m unique.1) [
    | inl (a, b, e, there) ↦ inl (a, b, ground (arith, e, unique.0, bytes_eq_iff c a), there)
    | inr free ↦ inr (λ a b e. ground (arith, free a b, other, ==_iff (x.offset / 44) n))
  ]
]

-- Slot by slot.
pub IsMirror-Mirrors :
    (byte : ℕ → ℕ) (m : Dict Bytes IdxBlock) (n : ℕ)
    → IsMirror (λ k. slice byte (k * 44) 44) m
    → n < partition_blocks_count
    → Mirrors byte m n
IsMirror-Mirrors byte m n ok lt = elim (block_at n m ok.unique) [
  | inl (a, b, e, there) ↦ inl (
    a,
    b,
    e,
    ok.on_slot a b e ∙ ap (λ k. k * 44) there,
    ap (λ k. slice byte (k * 44) 44) (sym there) ∙ ok.header a b e,
  )
  | inr free ↦ inr (free, ok.vacant n lt free)
]
