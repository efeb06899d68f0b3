-- ===== src/Data/PartitionsMap.antt =====
-- rhosus/node/data/partitions.go and idx_file.go: how the map of partitions is filled at the start of
-- a node, and which of its partitions are handed out. The directory and its files are given by the
-- operating system, and fileutil.Preallocate is a parameter.
pub mod Room
pub mod Restarted
use rhosus.Base.{
  ℕ, zero, suc, ◌+◌, ◌-◌, Bytes, bytes_key, Bool, true, false, not, ◌&&◌, ◌||◌, ◌==◌, ◌⊎◌, inl, inr,
  Option, none, some, List, [], ◌∷◌, ◌++◌, length, replicate, get_elem?, Dict, lookup, insert, leb,
  if◌then◌else◌,
}
use rhosus.Data.Files.{IoErr, Files}
use rhosus.Data.IdxFile.{Err, default_partition_size, partition_blocks_count, idx_file_size}
use rhosus.Data.Partition.{Partition, is_available, load_header}
use rhosus.Data.Manager.{Manager, Created, new_partition, create_partition}

-- What the directory holds under a name, with the results of opening it and its file of headers.
pub record DirEntry (fs : Files) : Type 0 where
  pub name : Bytes
  pub is_dir : Bool
  pub opened : IoErr ⊎ fs.File
  pub idx : IoErr ⊎ fs.File

abbrev pub default_min_partitions_count : ℕ
default_min_partitions_count = 1

-- The blocks that a partition must have room for, so that the watcher makes no new one.
abbrev pub enough_room : ℕ
enough_room = 150

module _ {fs : Files} where
  -- The test of `watchCreatePartitions`
  pub has_enough_room : Partition fs → Bool
  has_enough_room p = not p.full && leb enough_room (partition_blocks_count - length p.blocks_map)

  pub parts_available : Dict Bytes (Partition fs) → ℕ
  unfolding has_enough_room
  parts_available [] = 0
  parts_available ((a, p) ∷ parts) = (if has_enough_room p then 1 else 0) + parts_available parts

  -- A tick of `watchCreatePartitions`, which logs an error.
  pub watch_create_partitions : Created fs → Dict Bytes (Partition fs) → Dict Bytes (Partition fs)
  unfolding parts_available create_partition
  watch_create_partitions created parts =
      if leb 1 (parts_available parts) then parts else (create_partition created parts).1

  -- The loop of `getRandomPartition`
  pub available_parts : Dict Bytes (Partition fs) → List Bytes
  available_parts [] = []
  available_parts ((a, p) ∷ parts) =
      let rest = available_parts parts in
      if not p.full && not (length p.blocks_map == partition_blocks_count) then a ∷ rest else rest

  -- The partitions that `getRandomPartition` chooses from, or the error of `createPartition`.
  pub candidates :
      Created fs → Dict Bytes (Partition fs) → (Err ⊎ List Bytes) × Dict Bytes (Partition fs)
  unfolding available_parts create_partition
  candidates created parts = elim (available_parts parts) [
    | [] ↦ elim (create_partition created parts).0 [
      | inl e ↦ (inl e, (create_partition created parts).1)
      | inr a ↦ (inr (a ∷ []), (create_partition created parts).1)
    ]
    | a ∷ ids ↦ (inr (a ∷ ids), parts)
  ]

  -- `getRandomPartition`; `rand n` is below `n`. A nil partition is `none`.
  pub get_random_partition :
      (ℕ → ℕ)
      → Created fs
      → Dict Bytes (Partition fs)
      → (Err ⊎ Option (Partition fs)) × Dict Bytes (Partition fs)
  unfolding candidates
  get_random_partition rand created parts =
      let (ids, parts') = candidates created parts in
      elim ids [
        | inl e ↦ (inl e, parts')
        | inr ids ↦ elim (get_elem? ids (rand (length ids))) [
          | none ↦ (inr none, parts')
          | some a ↦ (inr (lookup a parts'), parts')
        ]
      ]

  -- `GetAvailablePartitions`
  pub get_available_partitions : ℕ → Dict Bytes (Partition fs) → Dict Bytes (Partition fs)
  get_available_partitions blocks [] = []
  get_available_partitions blocks ((a, p) ∷ parts) =
      let rest = get_available_partitions blocks parts in
      if is_available blocks p then (a, p) ∷ rest else rest

  part_ids : Dict Bytes (Partition fs) → List Bytes
  part_ids [] = []
  part_ids ((a, p) ∷ parts) = a ∷ part_ids parts

  -- `GetPartitionIDs`: as many empty texts as there are partitions, and then the identifiers.
  pub get_partition_ids : Dict Bytes (Partition fs) → List Bytes
  unfolding part_ids
  get_partition_ids parts = replicate (length parts) [] ++ part_ids parts

  -- `getPartsCount`
  pub get_parts_count : Dict Bytes (Partition fs) → ℕ
  get_parts_count parts = length parts

  -- A file of the directory is a partition by the length of its name.
  unfoldable pub is_partition : DirEntry fs → Bool
  is_partition e = not e.is_dir && length e.name == 36

module _ (fs : Files) (preallocate : ℕ → fs.File → Option IoErr × fs.File) where
  -- `NewIdxFile`, from the result of opening the file.
  pub new_idx_file : IoErr ⊎ fs.File → IoErr ⊎ fs.File
  new_idx_file (inl e) = inl e
  new_idx_file (inr f) =
      let (err, f') = preallocate idx_file_size f in elim err [ some e ↦ inl e | none ↦ inr f' ]

  -- `newPartition` with its error.
  pub open_partition : Bytes → fs.File → IoErr ⊎ fs.File → IoErr ⊎ Partition fs
  unfolding new_idx_file new_partition
  open_partition a file idx = elim (new_idx_file idx) [
    | inl e ↦ inl e
    | inr idx' ↦ inr (new_partition a file idx')
  ]

  -- One round of the loop of `loadPartitions`: an error that ends the loop, or the map. A
  -- partition with a header that cannot be loaded is passed by. `none` is a panic, or no fuel.
  pub load_partition :
      ℕ → DirEntry fs → Dict Bytes (Partition fs) → Option (IoErr ⊎ Dict Bytes (Partition fs))
  unfolding open_partition is_partition
  load_partition fuel e parts =
      if is_partition e
      then elim e.opened [
        | inl err ↦ some (inl err)
        | inr file ↦ elim (open_partition e.name file e.idx) [
          | inl err ↦ some (inr parts)
          | inr p ↦ elim (load_header fuel p) [
            | none ↦ none
            | some (err, p') ↦ elim err [
              | some _ ↦ some (inr parts)
              | none ↦ some (inr (insert e.name p' parts))
            ]
          ]
        ]
      ]
      else some (inr parts)

  pub load_entries :
      ℕ
      → List (DirEntry fs)
      → Dict Bytes (Partition fs)
      → Option (IoErr ⊎ Dict Bytes (Partition fs))
  unfolding load_partition
  load_entries fuel [] parts = some (inr parts)
  load_entries fuel (e ∷ es) parts = elim (load_partition fuel e parts) [
    | none ↦ none
    | some r ↦ elim r [ inl err ↦ some (inl err) | inr parts' ↦ load_entries fuel es parts' ]
  ]

  -- A try to make a first partition, whose errors are logged; those of Preallocate and Sync do not
  -- end it.
  pub try_create : DirEntry fs → Dict Bytes (Partition fs) → Dict Bytes (Partition fs)
  unfolding open_partition
  try_create e parts = elim e.opened [
    | inl err ↦ parts
    | inr file ↦
        let file' = (fs.sync (preallocate default_partition_size file).1).1 in
        elim (open_partition e.name file' e.idx) [ inl err ↦ parts | inr p ↦ insert p.id p parts ]
  ]

  -- The loop that makes the first partitions. `tries` are what the rounds meet; `none` is a loop
  -- that is not over after these.
  pub create_first :
      List (DirEntry fs) → Dict Bytes (Partition fs) → Option (Dict Bytes (Partition fs))
  unfolding try_create
  create_first [] parts =
      if leb default_min_partitions_count (length parts) then some parts else none
  create_first (e ∷ tries) parts =
      let rest = create_first tries (try_create e parts) in
      if leb default_min_partitions_count (length parts) then some parts else rest

  -- `loadPartitions` on an empty map. An error of ReadDir, which gives no entries, is returned last.
  pub load_partitions :
      ℕ
      → Option IoErr
      → List (DirEntry fs)
      → List (DirEntry fs)
      → Option (IoErr ⊎ Dict Bytes (Partition fs))
  unfolding load_entries create_first
  load_partitions fuel dir_err entries tries = elim (load_entries fuel entries []) [
    | none ↦ none
    | some r ↦ elim r [
      | inl err ↦ some (inl err)
      | inr parts ↦ elim (create_first tries parts) [
        | none ↦ none
        | some parts' ↦ elim dir_err [ some e ↦ some (inl e) | none ↦ some (inr parts') ]
      ]
    ]
  ]

  -- `NewPartitionsMap`, from the results of filepath.Abs and os.MkdirAll.
  pub new_partitions_map :
      ℕ
      → Option IoErr
      → Option IoErr
      → Option IoErr
      → List (DirEntry fs)
      → List (DirEntry fs)
      → Option (IoErr ⊎ Dict Bytes (Partition fs))
  unfolding load_partitions
  new_partitions_map fuel abs_err mkdir_err dir_err entries tries = elim abs_err [
    | some e ↦ some (inl e)
    | none ↦ elim mkdir_err [
      | some e ↦ some (inl e)
      | none ↦ load_partitions fuel dir_err entries tries
    ]
  ]

  -- `NewManager`
  pub new_manager :
      ℕ
      → Option IoErr
      → Option IoErr
      → Option IoErr
      → List (DirEntry fs)
      → List (DirEntry fs)
      → Option (IoErr ⊎ Manager fs)
  unfolding new_partitions_map
  new_manager fuel abs_err mkdir_err dir_err entries tries =
      elim (new_partitions_map fuel abs_err mkdir_err dir_err entries tries) [
        | none ↦ none
        | some r ↦ elim r [
          | inl e ↦ some (inl e)
          | inr parts ↦ some (inr (record { parts = parts; shutdown = false }))
        ]
      ]
