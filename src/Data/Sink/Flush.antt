-- ===== src/Data/Sink/Flush.antt =====
-- A tick of the sink on a disk that does not fail.
use rhosus.Base.{Bytes, bytes_key, List, [], ◌∷◌, same, some, Option, if◌then◌else◌}
use rhosus.Data.Files.{Files}
use rhosus.Data.Partition.{Partition, Block}

-- The last content of an identifier in the channel, or what there is without.
abbrev pub last_content : Bytes → List Block → Option Bytes → Option Bytes
last_content c [] before = before
last_content c (b ∷ q) before = last_content c q (if same b.id c then some b.bytes else before)
