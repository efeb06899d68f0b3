-- ===== src/Registry/Files/Register.antt =====
-- What `RegisterFile` and `HandleMakeDir` do to the storage and to the cluster.
use rhosus.Base.{String, none, inl, inr, ◌≡◌, refl, Option-cases}
use rhosus.Storage.Types.{FileInfo}
use rhosus.Storage.Store.{Env, store_file, get_file_by_path}
use rhosus.Cluster.Types
use rhosus.Cluster.Entries.{EntryCodecs, Timing, write_assign_file_entry}
use rhosus.Registry.Paths.{trim}
use rhosus.Registry.Types.{Registry}
use rhosus.Registry.Files.{
  parent_of, store_and_announce, register_file, handle_make_dir, new_dir, success,
}

module _ {senv : Env} {cenv : Types.Env} (codecs : EntryCodecs) (at_time : Timing) where
  store_and_announce-storage :
      {A : Type 0} (a : A) (f : FileInfo) (r : Registry senv cenv)
      → (store_and_announce a codecs at_time f r).1.storage ≡ (store_file f r.storage).1
  unfolding store_and_announce
  store_and_announce-storage a f r = elim (Option-cases (store_file f r.storage).0) [
    | inl ok ↦ rw (ok, store_and_announce) refl
    | inr (err, e) ↦ rw (e, store_and_announce) refl
  ]

  -- `register_file` stores a new file under its parent.
  pub register_file-storage :
      (f : FileInfo) (parent : String) (r : Registry senv cenv)
      → get_file_by_path f.path r.storage ≡ inr none
      → parent_of f.path r.storage ≡ inr parent
      → (register_file codecs at_time f r).1.storage
        ≡ (store_file (record f { parent_id = parent }) r.storage).1
  unfolding register_file
  register_file-storage f parent r absent above =
      rw (absent, register_file, above)
        (store_and_announce-storage tt (record f { parent_id = parent }) r)

  pub handle_make_dir-storage :
      (uid path parent : String) (r : Registry senv cenv)
      → get_file_by_path (trim path) r.storage ≡ inr none
      → parent_of (trim path) r.storage ≡ inr parent
      → (handle_make_dir codecs at_time uid path r).1.storage
        ≡ (store_file (new_dir uid parent (trim path)) r.storage).1
  unfolding handle_make_dir
  handle_make_dir-storage uid path parent r absent above =
      rw (absent, handle_make_dir, above)
        (store_and_announce-storage success (new_dir uid parent (trim path)) r)

  store_and_announce-cluster :
      {A : Type 0} (a : A) (f : FileInfo) (r : Registry senv cenv)
      → (store_file f r.storage).0 ≡ none
      → (store_and_announce a codecs at_time f r).1.cluster
        ≡ (write_assign_file_entry codecs at_time f r.cluster).1
  unfolding store_and_announce
  store_and_announce-cluster a f r ok = rw (ok, store_and_announce) refl

  pub register_file-cluster :
      (f : FileInfo) (parent : String) (r : Registry senv cenv)
      → get_file_by_path f.path r.storage ≡ inr none
      → parent_of f.path r.storage ≡ inr parent
      → (store_file (record f { parent_id = parent }) r.storage).0 ≡ none
      → (register_file codecs at_time f r).1.cluster
        ≡ (write_assign_file_entry codecs at_time (record f { parent_id = parent }) r.cluster).1
  unfolding register_file
  register_file-cluster f parent r absent above ok =
      rw (absent, register_file, above)
        (store_and_announce-cluster tt (record f { parent_id = parent }) r ok)

  pub handle_make_dir-cluster :
      (uid path parent : String) (r : Registry senv cenv)
      → get_file_by_path (trim path) r.storage ≡ inr none
      → parent_of (trim path) r.storage ≡ inr parent
      → (store_file (new_dir uid parent (trim path)) r.storage).0 ≡ none
      → (handle_make_dir codecs at_time uid path r).1.cluster
        ≡ (write_assign_file_entry codecs at_time (new_dir uid parent (trim path)) r.cluster).1
  unfolding handle_make_dir
  handle_make_dir-cluster uid path parent r absent above ok =
      rw (absent, handle_make_dir, above)
        (store_and_announce-cluster success (new_dir uid parent (trim path)) r ok)
