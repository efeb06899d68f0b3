-- ===== src/Data/Tests/Headers.antt =====
-- The theorems on the file of headers at a file with one header.
use rhosus.Base.{
  ℕ, ◌-◌, ◌*◌, ◌/◌, ◌<◌, ◌≡◌, ◌≢◌, refl, inl, inr, Bytes, bytes_key, bytes_eq_iff, true, ◌&&◌, none,
  some, [], ◌∷◌, Dict, lookup, leb, ltb, if◌then◌else◌, arith, ap, ◌∙◌, Bool-cases, ◌==◌, ==_iff,
  subst, sym,
}
use rhosus.Data.Files.{slice, byte_or_zero}
use rhosus.Data.Files.Slices.{slice_ext}
use rhosus.Data.IdxFile.{
  IdxBlock, marshal, put_uint64, load, is_bytes_all_zeros, partition_blocks_count,
}
use rhosus.Data.IdxFile.Restart.{Mirrors, IsStorable, load-mirrored}
use rhosus.Data.Partition.{BlockPlacementInfo, remove_blocks}
use rhosus.Data.Partition.Unknown.{remove_blocks_unknown}
use rhosus.Data.Tests.{Memory, memory, memory-IsDisk, part, id_a, id_b}

abbrev pub header : IdxBlock
header = record { id = id_a; size = 4; offset = 132 }

abbrev pub headers : Dict Bytes IdxBlock
headers = (id_a, header) ∷ []

-- The header at slot 3, and zeros elsewhere.
abbrev pub header_bytes : ℕ → ℕ
header_bytes p = if leb 132 p && ltb p 176 then byte_or_zero (marshal header) (p - 132) else 0

abbrev pub header_file : Memory
header_file = record { size = 22528; byte = header_bytes }

pub lookup-singleton :
    (a c : Bytes) (x y : IdxBlock) → lookup c ((a, x) ∷ []) ≡ some y → (a ≡ c) × (x ≡ y)
unfolding lookup
lookup-singleton a c x y e = ground (arith, bytes_eq_iff a c)

zeros-is_bytes_all_zeros : (off : ℕ) → is_bytes_all_zeros (slice (λ _. 0) off 44) ≡ true
unfolding is_bytes_all_zeros
zeros-is_bytes_all_zeros off = refl

pub header_bytes_apart :
    (n : ℕ) → n ≢ 3 → is_bytes_all_zeros (slice header_bytes (n * 44) 44) ≡ true
header_bytes_apart n ne =
    ap is_bytes_all_zeros (slice_ext header_bytes (λ _. 0) (n * 44) 44 (λ p lo hi. ground arith))
    ∙ zeros-is_bytes_all_zeros (n * 44)

headers-Mirrors : (n : ℕ) → n < partition_blocks_count → Mirrors header_bytes headers n
unfolding marshal put_uint64 lookup
headers-Mirrors n lt = elim (Bool-cases (n == 3)) [
  | inl e ↦
      subst (Mirrors header_bytes headers) (sym ((==_iff n 3).0 e))
        (inl (id_a, header, refl, refl, refl))
  | inr ne ↦ inr (
    λ a b e.
        subst (λ x. x.offset / 44 ≢ n) (lookup-singleton id_a a header b e).1
          (λ at_3. ground arith),
    header_bytes_apart n (λ e. ground arith),
  )
]

pub headers-IsStorable : (a : Bytes) (b : IdxBlock) → lookup a headers ≡ some b → IsStorable a b
unfolding marshal put_uint64 is_bytes_all_zeros
headers-IsStorable a b e =
    let one = lookup-singleton id_a a header b e in
    subst (λ c. IsStorable c b) one.0
      (subst (IsStorable id_a) one.1
        (record { own_id = refl; id_length = refl; size_lt = omega arith; nonzero = refl }))

load-mirrored_example :
    (r : Dict Bytes IdxBlock) × (load memory 513 header_file ≡ some r)
    × ((c : Bytes) → lookup c r ≡ lookup c headers)
load-mirrored_example =
    load-mirrored memory-IsDisk header_file headers headers-IsStorable
      (λ a b e.
        subst (λ x. x.offset / 44 < 512) (lookup-singleton id_a a header b e).1 (omega arith))
      (λ a c x y e f h.
        sym (lookup-singleton id_a a header x e).0 ∙ (lookup-singleton id_a c header y f).0)
      headers-Mirrors refl

abbrev unknown_block : BlockPlacementInfo
unknown_block = record { block_id = id_b; partition_id = [] }

unknown : lookup id_b part.blocks_map ≡ none
unfolding lookup
unknown = refl

remove_blocks_unknown_example :
    memory-IsDisk.byte (remove_blocks (unknown_block ∷ []) part).1.idx_file 7
    ≡ (if ltb 7 44 then 0 else memory-IsDisk.byte part.idx_file 7)
remove_blocks_unknown_example =
    remove_blocks_unknown memory-IsDisk unknown_block part unknown refl (omega arith) 7
