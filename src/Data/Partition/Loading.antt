-- ===== src/Data/Partition/Loading.antt =====
-- `loadHeader` on a disk that does not fail.
use mathlib.Core.Option.{Option}
use rhosus.Base.{
  ℕ, ◌≡◌, refl, Bytes, bytes_key, bytes_eq_iff, none, some, [], ◌∷◌, Dict, lookup, insert,
  lookup-insert, HasUniqueKeys, insert-HasUniqueKeys, arith,
}
use rhosus.Data.Files.{Files, IsDisk}
use rhosus.Data.IdxFile
use rhosus.Data.IdxFile.{
  IdxBlock, Err, idx_file_size, partition_blocks_count, default_partition_size,
}
use rhosus.Data.Partition.{Partition, insert_all, load_header}

abbrev pub first_of : Option IdxBlock → Option IdxBlock → Option IdxBlock
first_of none o = o
first_of (some b) o = some b

pub first_of-none : (o : Option IdxBlock) → first_of o none ≡ o
first_of-none none = refl
first_of-none (some b) = refl

pub lookup-insert_all :
    (c : Bytes) (m acc : Dict Bytes IdxBlock)
    → HasUniqueKeys m
    → ((a : Bytes) (b : IdxBlock) → lookup a m ≡ some b → b.id ≡ a)
    → lookup c (insert_all m acc) ≡ first_of (lookup c m) (lookup c acc)
unfolding insert_all lookup
lookup-insert_all c [] acc unique own = refl
lookup-insert_all c ((a, b) ∷ m) acc unique own =
    let id_eq : b.id ≡ a = own a b (ground (arith, bytes_eq_iff a a)) in
    let rest =
      lookup-insert_all c m (insert b.id b acc) unique.1
        (λ d x e. own d x (ground (arith, unique.0, bytes_eq_iff a d))) in
    ground (
      arith,
      rest,
      id_eq,
      lookup-insert b.id c b acc,
      bytes_eq_iff a c,
      bytes_eq_iff b.id c,
      unique.0,
    )

pub insert_all-HasUniqueKeys :
    (m acc : Dict Bytes IdxBlock) → HasUniqueKeys acc → HasUniqueKeys (insert_all m acc)
unfolding insert_all
insert_all-HasUniqueKeys [] acc unique = unique
insert_all-HasUniqueKeys ((a, b) ∷ m) acc unique =
    insert_all-HasUniqueKeys m (insert b.id b acc) (insert-HasUniqueKeys b.id b acc unique)

module _ {fs : Files} (disk : IsDisk fs) where
  -- A read of the first bytes of the file gives them all, and moves no more than its position.
  pub record IsReadable (f : fs.File) : Type 0 where
    pub full_read : (fs.read idx_file_size f).0 ≡ idx_file_size
    pub no_error : (fs.read idx_file_size f).1 ≡ none
    pub same_size : disk.size (fs.read idx_file_size f).2 ≡ disk.size f
    pub same_bytes : (q : ℕ) → disk.byte (fs.read idx_file_size f).2 q ≡ disk.byte f q

  pub load_header_loaded :
      (m : Dict Bytes IdxBlock) (p : Partition fs)
      → IsReadable p.file
      → IdxFile.load fs 513 p.idx_file ≡ some m
      → load_header 513 p
        ≡ some (
          none,
          record p {
            file = (fs.read idx_file_size p.file).2;
            blocks_map = insert_all m p.blocks_map;
          },
        )
  unfolding load_header
  load_header_loaded m p readable loaded =
      ground (arith, readable.full_read, readable.no_error, loaded)
