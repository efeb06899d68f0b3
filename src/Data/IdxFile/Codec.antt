-- ===== src/Data/IdxFile/Codec.antt =====
-- A header survives its encoding.
use rhosus.Base.{
  ℕ, ◌^◌, ◌<◌, ◌≡◌, Bytes, some, ◌++◌, length, take, drop, arith, take-append, drop-append,
  length-append, subst, ◌∙◌, ap,
}
use rhosus.Data.IdxFile.{IdxBlock, put_uint64, get_uint64, marshal, unmarshal}

get_uint64-put_uint64 : (x : ℕ) → x < 2 ^ 64 → get_uint64 (put_uint64 x) ≡ some x
unfolding get_uint64 put_uint64
get_uint64-put_uint64 x h = ap some (omega arith)

pub length-marshal : (b : IdxBlock) → length b.id ≡ 36 → length (marshal b) ≡ 44
unfolding marshal put_uint64
length-marshal b h = omega (arith, length-append b.id (put_uint64 b.size))

unmarshal_eq :
    (bytes i : Bytes) (n : ℕ) (r : IdxBlock)
    → get_uint64 (drop 36 bytes) ≡ some n
    → take 36 bytes ≡ i
    → unmarshal bytes r ≡ some (record r { id = i; size = n })
unfolding unmarshal
unmarshal_eq bytes i n r e h = ground (arith, e, h)

-- A header whose identifier has 36 bytes is read back with its identifier and its size.
pub unmarshal-marshal :
    (b r : IdxBlock)
    → length b.id ≡ 36
    → b.size < 2 ^ 64
    → unmarshal (marshal b) r ≡ some (record r { id = b.id; size = b.size })
unfolding marshal
unmarshal-marshal b r len small =
    unmarshal_eq _ b.id b.size r
      (ap get_uint64 (
          subst (λ n. drop n (b.id ++ put_uint64 b.size) ≡ put_uint64 b.size) len
            (drop-append b.id (put_uint64 b.size)))
        ∙ get_uint64-put_uint64 b.size small)
      (subst (λ n. take n (b.id ++ put_uint64 b.size) ≡ b.id) len
        (take-append b.id (put_uint64 b.size)))
