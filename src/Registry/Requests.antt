-- ===== src/Registry/Requests.antt =====
-- rhosus/registry/file_handlers.go: HandleGetFile, HandleList and HandleDeleteFile. Of an answer the
-- status and the body before its encoding are kept.
pub mod Bodies
use rhosus.Base.{
  ℕ, zero, suc, String, Bytes, Bool, true, false, Option, none, some, List, [], ◌∷◌, ◌++◌, take,
  length, map, ◌⊎◌, inl, inr, leb, ltb, if◌then◌else◌,
}
use text.Mathlib.Text.{◌==◌ as str_eq}
use rhosus.Storage.Types.{FileInfo, FileType, dir_type, file_type, symlink_type}
use rhosus.Storage.Store.{Env, get_file_by_path, get_files_by_parent_id}
use rhosus.Cluster.Types
use rhosus.Cluster.Entries.{EntryCodecs, Timing}
use rhosus.Registry.Types.{
  Registry, RegistryErr, Result, ok, failed, waiting, panicked, PlacementInfo, FsBlock,
  CommonResponse, storage_err, no_such_file_or_directory,
}
use rhosus.Registry.Paths.{trim}
use rhosus.Registry.Placing.{get_file_handler}
use rhosus.Registry.Remove.{handle_remove_file_or_path}

-- What `io.CopyN` writes of a block: its data, and no more than its length.
pub copied : FsBlock → Bytes
copied b = take b.len b.bytes

pub body_of : List FsBlock → Bytes
unfolding copied
body_of [] = []
body_of (b ∷ bs) = copied b ++ body_of bs

-- The error that the handler returns, with the status that it has set: 404 or none.
pub record GetFailure : Type 0 where
  pub status : Option ℕ
  pub err : RegistryErr

pub status_of : RegistryErr → Option ℕ
status_of no_such_file_or_directory = some 404
status_of e = none

-- The answer for a file: the body, or a failure.
pub get_answer : Result (List FsBlock) → Result (GetFailure ⊎ Bytes)
unfolding body_of status_of
get_answer (ok bs) = ok (inr (body_of bs))
get_answer (failed e) = ok (inl (record { status = status_of e; err = e }))
get_answer waiting = waiting
get_answer panicked = panicked

-- `HandleGetFile`
pub handle_get_file :
    {senv : Env} {cenv : Types.Env}
    → (String → List PlacementInfo → RegistryErr ⊎ List FsBlock)
    → String
    → Registry senv cenv
    → Result (GetFailure ⊎ Bytes)
unfolding get_answer
handle_get_file call url r = get_answer (get_file_handler call (trim url) r)

-- api_pb.FileInfo, whose type is FILE, the zero of the enum, for any other type than DIR.
pub record ListedFile : Type 0 where
  pub name : String
  pub file_size : ℕ
  pub is_file : Bool

pub listed_file : FileInfo → ListedFile
listed_file f = record {
  name = f.name;
  file_size = f.file_size;
  is_file = elim f.type [ dir_type ↦ false | file_type ↦ true | symlink_type ↦ true ];
}

-- `HandleList`: none is the status 404. `sort` is sort.Slice with the comparison of the handler, which
-- is no order; none is its panic on an empty or a short name.
pub handle_list :
    {senv : Env} {cenv : Types.Env}
    → (List ListedFile → Option (List ListedFile))
    → String
    → Registry senv cenv
    → Result (Option (List ListedFile))
unfolding listed_file
handle_list sort url r =
    let answer : String → Result (Option (List ListedFile)) = λ parent.
      elim (get_files_by_parent_id parent r.storage) [
        | inl e ↦ failed (storage_err e)
        | inr files ↦ elim (sort (map listed_file files)) [
          | none ↦ panicked
          | some list ↦ ok (some list)
        ]
      ] in
    if str_eq url "/" then answer "root" else elim (get_file_by_path (trim url) r.storage) [
      | inl e ↦ failed (storage_err e)
      | inr found ↦ elim found [ none ↦ ok none | some dir ↦ answer dir.id ]
    ]

-- `HandleDeleteFile`
pub handle_delete_file :
    {senv : Env} {cenv : Types.Env}
    → ℕ
    → EntryCodecs
    → Timing
    → Timing
    → String
    → Registry senv cenv
    → Result CommonResponse × Registry senv cenv
handle_delete_file fuel codecs first second url r =
    handle_remove_file_or_path fuel codecs first second url r
