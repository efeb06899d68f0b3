-- ===== src/Registry/Files.antt =====
-- rhosus/registry/files.go, and HandleMakeDir of rhosus/registry/sys_handlers.go: files and
-- directories are added. The identifier of a new one is an argument.
pub mod Register
use rhosus.Base.{
  ℕ, zero, suc, String, Bool, true, false, Option, none, some, List, [], ◌∷◌, ◌⊎◌, inl, inr,
  if◌then◌else◌,
}
use rhosus.Storage.Types.{FileInfo, dir_type, Err}
use rhosus.Storage.Store.{Env, Storage, store_file, get_file_by_path}
use rhosus.Cluster.Types
use rhosus.Cluster.Entries.{EntryCodecs, Timing, write_assign_file_entry}
use rhosus.Registry.Paths.{split, join, all_but_last, last_part, trim}
use rhosus.Registry.Types.{
  Registry, RegistryErr, Result, ok, failed, waiting, panicked, file_exists_err,
  no_such_file_or_directory, storage_err, CommonResponse, after_write,
}

abbrev pub success : CommonResponse
success = record { success = true; err = "" }

abbrev pub refusal : String → CommonResponse
refusal err = record { success = false; err = err }

-- The identifier of the parent of a path with the parts `sPath`: `root` for a path of one part.
unfoldable pub parent_of : {senv : Env} → String → Storage senv → RegistryErr ⊎ String
parent_of path s = elim (split path) [
  | [] ↦ inr "root"
  | part ∷ parts ↦ elim parts [
    | [] ↦ inr "root"
    | _ ∷ _ ↦ elim (get_file_by_path (join (all_but_last (split path))) s) [
      | inl e ↦ inl (storage_err e)
      | inr found ↦ elim found [ none ↦ inl no_such_file_or_directory | some p ↦ inr p.id ]
    ]
  ]
]

-- The directory that `HandleMakeDir` makes.
abbrev pub new_dir : String → String → String → FileInfo
new_dir uid parent path = record {
  id = uid;
  parent_id = parent;
  type = dir_type;
  name = last_part (split path);
  path = path;
  file_size = 0;
  permission = 0;
  replication = 0;
}

module _ {senv : Env} {cenv : Types.Env} where
  -- A file is stored, and its entry written; what was stored stays if the entry is not written.
  pub store_and_announce :
      {A : Type 0}
      → A
      → EntryCodecs
      → Timing
      → FileInfo
      → Registry senv cenv
      → Result A × Registry senv cenv
  store_and_announce a codecs at_time f r =
      let (err, s) = store_file f r.storage in
      let (outcome, c) = write_assign_file_entry codecs at_time f r.cluster in
      elim err [
        | some e ↦ (failed (storage_err e), record r { storage = s })
        | none ↦ (after_write a outcome, record r { storage = s; cluster = c })
      ]

  -- `RegisterFile`
  unfoldable pub register_file :
      EntryCodecs → Timing → FileInfo → Registry senv cenv → Result Unit × Registry senv cenv
  unfolding parent_of store_and_announce
  register_file codecs at_time f r = elim (get_file_by_path f.path r.storage) [
    | inl e ↦ (failed (storage_err e), r)
    | inr found ↦ elim found [
      | some _ ↦ (failed file_exists_err, r)
      | none ↦ elim (parent_of f.path r.storage) [
        | inl e ↦ (failed e, r)
        | inr parent ↦ store_and_announce tt codecs at_time (record f { parent_id = parent }) r
      ]
    ]
  ]

  -- `FileExists`
  pub file_exists : String → Registry senv cenv → Err ⊎ Bool
  file_exists path r = elim (get_file_by_path path r.storage) [
    | inl e ↦ inl e
    | inr found ↦ elim found [ none ↦ inr false | some _ ↦ inr true ]
  ]

  -- `HandleMakeDir`. An error while the parent is looked up is answered as a missing parent.
  pub handle_make_dir :
      EntryCodecs
      → Timing
      → String
      → String
      → Registry senv cenv
      → Result CommonResponse × Registry senv cenv
  unfolding parent_of store_and_announce
  handle_make_dir codecs at_time uid req_path r =
      let path = trim req_path in
      elim (get_file_by_path path r.storage) [
        | inl e ↦ (failed (storage_err e), r)
        | inr found ↦ elim found [
          | some _ ↦ (ok (refusal "directory already exists"), r)
          | none ↦ elim (parent_of path r.storage) [
            | inl e ↦ (ok (refusal "no such file or directory"), r)
            | inr parent ↦ store_and_announce success codecs at_time (new_dir uid parent path) r
          ]
        ]
      ]
