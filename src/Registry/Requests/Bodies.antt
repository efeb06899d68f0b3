-- ===== src/Registry/Requests/Bodies.antt =====
-- What is put is what is got: the body of an answer is the content that was uploaded.
use rhosus.Base.{List}
use mathlib.Core.List.{Perm}
use mathlib.Core.List.Perm
use rhosus.Storage.Store
use rhosus.Cluster.Types
use rhosus.Registry.Types.{Registry}
