-- ===== src/Data/PartitionsMap/Restarted.antt =====
-- A restart of the node on a disk that does not fail: the partitions of the directory are loaded.
use rhosus.Base.{
  ℕ, ◌≡◌, ◌≢◌, refl, inl, inr, Bytes, bytes_key, bytes_eq_iff, Bool, true, false, ◌&&◌, ◌||◌,
  Option, none, some, List, [], ◌∷◌, Dict, same, lookup, insert, lookup-insert, lookup-insert-cases,
  All, arith, if◌then◌else◌, ◌∙◌, subst, Bool-cases,
}
use rhosus.Data.Files.{Files, IsDisk, IoErr}
use rhosus.Data.IdxFile.{idx_file_size}
use rhosus.Data.Partition.{Partition}
use rhosus.Data.Partition.Stored.{stored, IsSound}
use rhosus.Data.Partition.Mirrored.{IsMirrored}
use rhosus.Data.Partition.Loading.{IsReadable}
use rhosus.Data.Manager.Contents.{content, AreOpen}
use rhosus.Data.Manager.Restarted.{IsCopy, load_header-stored}
use rhosus.Data.PartitionsMap.{
  DirEntry, is_partition, open_partition, load_partition, load_entries, create_first,
  load_partitions,
}

module _ {fs : Files} (disk : IsDisk fs) where
  -- Each partition is sound, and has the headers of its blocks on disk.
  abbrev pub AreSaved : Dict Bytes (Partition fs) → Type 0
  AreSaved saved =
      (a : Bytes) (p : Partition fs)
      → lookup a saved ≡ some p
      → IsSound disk p × (disk.size p.idx_file ≡ idx_file_size) × IsMirrored disk p

  -- An entry that is taken for a partition has the bytes of a partition that was saved.
  abbrev pub IsOf : Dict Bytes (Partition fs) → DirEntry fs → Type 0
  IsOf saved e =
      is_partition e ≡ true
      → (p : Partition fs) × (f : fs.File) × (g : fs.File) × (lookup e.name saved ≡ some p)
        × (e.opened ≡ inr f)
        × (e.idx ≡ inr g)
        × IsCopy disk f p.file
        × IsCopy disk g p.idx_file
        × IsReadable disk f

  abbrev pub has_part : Bytes → Dict Bytes (Partition fs) → Bool
  has_part a parts = elim (lookup a parts) [ none ↦ false | some _ ↦ true ]

  -- The directory has a partition of that name.
  abbrev pub has_name : Bytes → List (DirEntry fs) → Bool
  has_name a [] = false
  has_name a (e ∷ es) = is_partition e && same e.name a || has_name a es

  module _ (saved : Dict Bytes (Partition fs)) (all_saved : AreSaved saved)
      (preallocate : ℕ → fs.File → Option IoErr × fs.File)
      (allocated : (g : fs.File)
        → disk.size g ≡ idx_file_size
        → preallocate idx_file_size g ≡ (none, g)) where
    load_partition_copy :
        (e : DirEntry fs) (p : Partition fs) (acc : Dict Bytes (Partition fs)) (f g : fs.File)
        → is_partition e ≡ true
        → lookup e.name saved ≡ some p
        → e.opened ≡ inr f
        → e.idx ≡ inr g
        → IsCopy disk f p.file
        → IsCopy disk g p.idx_file
        → IsReadable disk f
        → (r : Partition fs) × (load_partition fs preallocate 513 e acc
            ≡ some (inr (insert e.name r acc)))
          × (r.closed ≡ false)
          × IsSound disk r
          × ((c : Bytes) → stored disk r c ≡ stored disk p c)
    unfolding load_partition open_partition
    load_partition_copy e p acc f g is there opened idx same_file same_idx readable =
        let (sound, fits, mirrored) = all_saved e.name p there in
        let (r, loaded, up, sound_r, _, contents) =
          load_header-stored disk e.name f g p sound fits mirrored same_file same_idx readable in
        (
          r,
          ground (arith, is, opened, idx, allocated g (same_idx.0 ∙ fits), loaded),
          up,
          sound_r,
          contents,
        )

    -- What a map with more partitions has.
    IsLoaded : Dict Bytes (Partition fs) → Dict Bytes (Partition fs) → (Bytes → Bool) → Type 0
    IsLoaded acc r loaded =
        AreOpen disk r
        × ((a : Bytes) → has_part a r ≡ loaded a || has_part a acc)
        × ((a c : Bytes)
            → content disk r a c
              ≡ (if loaded a then content disk saved a c else content disk acc a c))

    insert-IsLoaded :
        (a : Bytes) (p q : Partition fs) (acc : Dict Bytes (Partition fs))
        → AreOpen disk acc
        → lookup a saved ≡ some p
        → q.closed ≡ false
        → IsSound disk q
        → ((c : Bytes) → stored disk q c ≡ stored disk p c)
        → IsLoaded acc (insert a q acc) (same a)
    unfolding IsLoaded content
    insert-IsLoaded a p q acc ok there up sound contents = (
      λ b x e. elim (lookup-insert-cases a b q x acc e) [
        | inl new ↦ subst (λ y. IsSound disk y × (y.closed ≡ false)) new (sound, up)
        | inr old ↦ ok b x old
      ],
      λ b. ground (arith, lookup-insert a b q acc),
      λ b c. ground (arith, lookup-insert a b q acc, bytes_eq_iff a b, there, contents c),
    )

    load_partition_cases :
        (e : DirEntry fs) (acc : Dict Bytes (Partition fs))
        → AreOpen disk acc
        → IsOf saved e
        → (r : Dict Bytes (Partition fs)) × (load_partition fs preallocate 513 e acc ≡ some (inr r))
          × IsLoaded acc r (λ a. is_partition e && same e.name a)
    unfolding load_partition IsLoaded
    load_partition_cases e acc ok of = elim (Bool-cases (is_partition e)) [
      | inl is ↦
          let (p, f, g, there, opened, idx, same_file, same_idx, readable) = of is in
          let (q, ran, up, sound, contents) =
            load_partition_copy e p acc f g is there opened idx same_file same_idx readable in
          (
            insert e.name q acc,
            ran,
            rw is (insert-IsLoaded e.name p q acc ok there up sound contents),
          )
      | inr other ↦ (acc, ground (arith, other), rw other (ok, λ a. refl, λ a c. refl))
    ]

    load_entries-IsLoaded :
        (es : List (DirEntry fs)) (acc : Dict Bytes (Partition fs))
        → AreOpen disk acc
        → All (IsOf saved) es
        → (r : Dict Bytes (Partition fs)) × (load_entries fs preallocate 513 es acc ≡ some (inr r))
          × IsLoaded acc r (λ a. has_name a es)
    unfolding load_entries IsLoaded
    load_entries-IsLoaded [] acc ok ofs = (acc, refl, (ok, λ a. refl, λ a c. refl))
    load_entries-IsLoaded (e ∷ es) acc ok ofs =
        let (next, one, more) = load_partition_cases e acc ok ofs.0 in
        let (r, ran, all) = load_entries-IsLoaded es next more.0 ofs.1 in
        (
          r,
          ground (arith, one, ran),
          (
            all.0,
            λ a. ground (arith, all.1 a, more.1 a),
            λ a c. ground (arith, all.2 a c, more.2 a c),
          ),
        )

    create_first_none :
        (a : Bytes) (tries : List (DirEntry fs)) (parts : Dict Bytes (Partition fs))
        → has_part a parts ≡ true
        → create_first fs preallocate tries parts ≡ some parts
    unfolding create_first lookup
    create_first_none a [] [] h = ground arith
    create_first_none a [] (p ∷ parts) h = ground arith
    create_first_none a (e ∷ tries) [] h = ground arith
    create_first_none a (e ∷ tries) (p ∷ parts) h = ground arith

    -- A restart of a node: let there be a partition, each partition be sound, and have the headers of
    -- its blocks in its index file of 512 slots. Let the directory be read without an error, its
    -- entries with a name of 36 bytes be files with the bytes of the partitions, one at least for each
    -- and for no other name, and an index file of 512 slots need no more space. Then
    -- `loadPartitions` ends without an error or a panic and makes no new partition: it has exactly
    -- these partitions, open and sound, and each block with its content.
    pub load_partitions-content :
        (a : Bytes) (entries tries : List (DirEntry fs))
        → lookup a saved ≢ none
        → All (IsOf saved) entries
        → ((b : Bytes) → has_name b entries ≡ has_part b saved)
        → (r : Dict Bytes (Partition fs)) × (load_partitions fs preallocate 513 none entries tries
            ≡ some (inr r))
          × AreOpen disk r
          × ((b : Bytes) → has_part b r ≡ has_part b saved)
          × ((b c : Bytes) → content disk r b c ≡ content disk saved b c)
    unfolding load_partitions IsLoaded content lookup
    load_partitions-content a entries tries there ofs exact =
        let (r, ran, all) = load_entries-IsLoaded entries [] (λ b p e. ground arith) ofs in
        let known = λ (b : Bytes). all.1 b in
        let kept = create_first_none a tries r (ground (arith, all.1 a, exact a)) in
        (
          r,
          ground (arith, ran, kept),
          all.0,
          λ b. ground (arith, all.1 b, exact b),
          λ b c. ground (arith, all.2 b c, exact b),
        )
