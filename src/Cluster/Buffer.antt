-- ===== src/Cluster/Buffer.antt =====
-- rhosus/registry/cluster/buffer.go: the entries that wait to be sent to one peer.
pub mod Order
use rhosus.Base.{Option, none, some, List, [], ◌∷◌, ◌++◌, get_last?, ltb, leb, if◌then◌else◌}
use rhosus.Cluster.Types.{Entry, Err, corrupt}

pub record EntriesBuffer : Type 0 where
  pub entries : List Entry

-- `&entriesBuffer{}`
abbrev pub empty : EntriesBuffer
empty = record { entries = [] }

append : Entry → EntriesBuffer → EntriesBuffer
append e b = record { entries = b.entries ++ e ∷ [] }

-- `Write` indexes the last entry with no check: on an empty buffer it panics, which is `none`.
pub write : Entry → EntriesBuffer → Option (Option Err × EntriesBuffer)
unfolding append
write e b = elim (get_last? b.entries) [
  | none ↦ none
  | some last ↦ some (
      if leb e.index last.index
      then (some corrupt, b)
      else if ltb e.term last.term
      then (none, b)
      else (none, append e b))
]

-- The loop of `WriteBatch`. The entries before an error stay written.
unfoldable pub write_batch : List Entry → EntriesBuffer → Option Err × EntriesBuffer
unfolding append
write_batch [] b = (none, b)
write_batch (e ∷ es) b =
    let skipped = write_batch es b in
    let written = write_batch es (append e b) in
    elim (get_last? b.entries) [
      | none ↦ written
      | some last ↦
          if leb e.index last.index
          then (some corrupt, b)
          else if ltb e.term last.term
          then skipped
          else written
    ]

-- `Read` hands the entries over and clears the buffer.
pub read : EntriesBuffer → List Entry × EntriesBuffer
read b = (b.entries, empty)
