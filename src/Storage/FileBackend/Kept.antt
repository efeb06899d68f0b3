-- ===== src/Storage/FileBackend/Kept.antt =====
-- `Put` and `List` of rhosus/registry/storage/backend_file.go: what is put is listed.
use rhosus.Base.{String, Bytes, Option, some, List, [], ◌∷◌, same, string_key, if◌then◌else◌}
use rhosus.Storage.Store.{Entry}
use rhosus.Storage.FileBackend.{FileBackend}

-- The value that a list of entries leaves under a key: the last of them, or what was there.
abbrev pub last_value : List Entry → String → Option Bytes → Option Bytes
last_value [] k before = before
last_value (e ∷ es) k before = last_value es k (if same e.key k then some e.value else before)
