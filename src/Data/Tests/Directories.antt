-- ===== src/Data/Tests/Directories.antt =====
-- The theorems on the map of partitions at a directory with one partition.
use rhosus.Base.{
  In, ◌≡◌, ◌≢◌, refl, inl, inr, Bytes, bytes_key, if◌then◌else◌, Bool, true, false, ◌||◌, none,
  some, List, [], ◌∷◌, Dict, HasUniqueKeys, same, lookup, All, arith, subst,
}
use rhosus.Data.Files.{other}
use rhosus.Data.IdxFile.{idx_file_size}
use rhosus.Data.Partition.{Partition}
use rhosus.Data.Partition.Stored.{IsSound}
use rhosus.Data.Partition.Mirrored.{IsMirrored}
use rhosus.Data.Manager.Contents.{content, AreOpen}
use rhosus.Data.PartitionsMap.{DirEntry, is_partition, load_partitions, watch_create_partitions}
use rhosus.Data.PartitionsMap.Restarted.{
  AreSaved, IsOf, has_name, has_part, load_partitions-content,
}
use rhosus.Data.PartitionsMap.Room.{IsRoomy, watch_create_partitions-IsRoomy}
use rhosus.Data.Tests.{memory, memory-IsDisk, id_a, id_b}
use rhosus.Data.Tests.Headers.{header_file}
use rhosus.Data.Tests.Managers.{lookup-one, new_file}
use rhosus.Data.Tests.Restarts.{kept, kept-IsSound, kept-IsMirrored, memory-IsReadable}

abbrev saved : Dict Bytes (Partition memory)
saved = (id_b, kept) ∷ []

saved-AreSaved : AreSaved memory-IsDisk saved
saved-AreSaved a p e =
    subst
      (λ q.
        IsSound memory-IsDisk q
        × (memory-IsDisk.size q.idx_file ≡ idx_file_size)
        × IsMirrored memory-IsDisk q)
      (lookup-one a id_b kept p e) (kept-IsSound, refl, kept-IsMirrored)

-- The file of the partition, and a folder.
abbrev directory : List (DirEntry memory)
directory =
    record { name = id_b; is_dir = false; opened = inr kept.file; idx = inr header_file }
    ∷ record { name = id_a; is_dir = true; opened = inl (other 21); idx = inl (other 2) }
    ∷ []

directory-IsOf : All (IsOf memory-IsDisk saved) directory
unfolding is_partition lookup
directory-IsOf = (
  λ e. (
    kept,
    kept.file,
    header_file,
    refl,
    refl,
    refl,
    (refl, λ q. refl),
    (refl, λ q. refl),
    memory-IsReadable kept.file,
  ),
  (λ e. ground arith, tt),
)

flag_of :
    (t : Bool)
    → (t || false) ≡ elim (if t then some kept else none) [ none ↦ false | some _ ↦ true ]
flag_of true = refl
flag_of false = refl

directory-exact : (b : Bytes) → has_name memory-IsDisk b directory ≡ has_part memory-IsDisk b saved
unfolding is_partition lookup
directory-exact b = flag_of (same id_b b)

saved-lookup : lookup id_b saved ≢ none
unfolding lookup
saved-lookup e = ground arith

load_partitions-content_example :
    (r : Dict Bytes (Partition memory)) × (load_partitions memory
        (λ n f. (none, f))
        513
        none
        directory
        []
      ≡ some (inr r))
    × AreOpen memory-IsDisk r
    × ((b : Bytes) → has_part memory-IsDisk b r ≡ has_part memory-IsDisk b saved)
    × ((b c : Bytes) → content memory-IsDisk r b c ≡ content memory-IsDisk saved b c)
load_partitions-content_example =
    load_partitions-content memory-IsDisk saved saved-AreSaved (λ n f. (none, f)) (λ g fits. refl)
      id_b directory [] saved-lookup directory-IsOf directory-exact

watch_create_partitions-IsRoomy_example :
    let parts' = watch_create_partitions (inr (id_a, new_file, new_file)) saved in
    ((b : Bytes) × (p : Partition memory) × In (b, p) parts' × IsRoomy p)
    × ((b : Bytes) (p : Partition memory) → In (b, p) saved → IsRoomy p → parts' ≡ saved)
    × ((b : Bytes) → id_a ≢ b → lookup b parts' ≡ lookup b saved)
watch_create_partitions-IsRoomy_example =
    watch_create_partitions-IsRoomy id_a new_file new_file saved

saved-HasUniqueKeys : HasUniqueKeys saved
unfolding lookup
saved-HasUniqueKeys = (refl, tt)
