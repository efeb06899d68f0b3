-- ===== src/Registry/Uploads/Stored.antt =====
-- What an upload leaves in the registry, by how the file is registered.
use rhosus.Base.{
  ℕ, String, Bytes, true, some, List, ◌≡◌, ◌⊎◌, inl, inr, refl, Option-cases, ap, sym, ◌∙◌,
}
use rhosus.Storage.Types.{FileInfo}
use rhosus.Storage.Store.{Env, Storage, get_file_by_path}
use rhosus.Storage.Store.Apart.{put_blocks-files}
use rhosus.Cluster.Types
use rhosus.Cluster.Entries.{EntryCodecs, Timing}
use rhosus.Registry.Types.{
  Registry, RegistryErr, ok, failed, PlacementInfo, FsBlock, file_exists_err,
}
use rhosus.Registry.Paths.{trim}
use rhosus.Registry.Files.{register_file}
use rhosus.Registry.Nodes.{get_nodes_with_least_blocks}
use rhosus.Registry.Placing.{transport_and_register_blocks, choose_nodes}
use rhosus.Registry.Uploads.{
  Event, Upload, answer_put, perform_all, start, data_to_transfer, uploaded_file, conflict,
  put_answer, handle_put_file,
}

module _ {senv : Env} {cenv : Types.Env}
    (call : String → List FsBlock → RegistryErr ⊎ List PlacementInfo) (codecs : EntryCodecs) where
  -- The blocks that are registered leave the files.
  transport_and_register_blocks-files :
      (at_time : Timing) (uid : String) (bs : List FsBlock) (factor : ℕ) (r : Registry senv cenv)
      → (transport_and_register_blocks call codecs at_time uid bs factor r).1.storage.files
        ≡ r.storage.files
  unfolding transport_and_register_blocks
  transport_and_register_blocks-files at_time uid bs factor r =
      elim (Option-cases (get_nodes_with_least_blocks factor r.nodes)) [
        | inl e ↦ rw (e, transport_and_register_blocks) refl
        | inr (ns, e) ↦ elim (Option-cases (choose_nodes factor ns)) [
          | inl f ↦ rw (e, transport_and_register_blocks, f) refl
          | inr (chosen, f) ↦
              rw (e, transport_and_register_blocks, f) (put_blocks-files _ r.storage)
        ]
      ]

  handle_put_file-ended :
      (at_blocks at_file : Timing) (new_id : ℕ → String) (before during : List Event)
      (uid url : String) (content : Bytes) (u : Upload) (r r' : Registry senv cenv)
      → perform_all new_id before (start content) ≡ u
      → u.ended ≡ true
      → transport_and_register_blocks call codecs at_blocks uid (data_to_transfer u) 2 r
        ≡ (ok tt, r')
      → handle_put_file call codecs at_blocks at_file new_id before during uid url content r
        ≡ answer_put (ok tt) r' (
            register_file codecs at_file
              (uploaded_file uid (trim url) (perform_all new_id during u).total)
              r')
  unfolding handle_put_file
  handle_put_file-ended at_blocks at_file new_id before during uid url content u r r' performed
        ended sent =
      rw (performed, sent, ended) refl

  register_file_exists :
      (f g : FileInfo) (at_time : Timing) (r : Registry senv cenv)
      → get_file_by_path f.path r.storage ≡ inr (some g)
      → register_file codecs at_time f r ≡ (failed file_exists_err, r)
  unfolding register_file
  register_file_exists f g at_time r there = rw (there, register_file) refl

  -- An upload to a path that has a file: once the loop has ended and the blocks are transported, the
  -- answer is a conflict, and the registry is as the transport of the blocks left it: of what the
  -- transport stored and announced, nothing is undone.
  pub handle_put_file_conflict :
      (at_blocks at_file : Timing) (new_id : ℕ → String) (before during : List Event)
      (uid url : String) (content : Bytes) (f : FileInfo) (r r' : Registry senv cenv)
      → (perform_all new_id before (start content)).ended ≡ true
      → transport_and_register_blocks call codecs at_blocks uid
          (data_to_transfer (perform_all new_id before (start content)))
          2
          r
        ≡ (ok tt, r')
      → get_file_by_path (trim url) r.storage ≡ inr (some f)
      → handle_put_file call codecs at_blocks at_file new_id before during uid url content r
        ≡ (ok conflict, r')
  unfolding put_answer get_file_by_path
  handle_put_file_conflict at_blocks at_file new_id before during uid url content f r r' ended sent
        there =
      let u = perform_all new_id before (start content) in
      let files = transport_and_register_blocks-files at_blocks uid (data_to_transfer u) 2 r in
      let kept : r'.storage.files ≡ r.storage.files =
        ap (λ o. o.1.storage.files) (sym sent) ∙ files in
      let still : get_file_by_path (trim url) r'.storage ≡ inr (some f) =
        ap (λ t. senv.files.first "path" (trim url) t) kept ∙ there in
      handle_put_file-ended at_blocks at_file new_id before during uid url content u r r' refl ended
        sent
      ∙ ap (answer_put (ok tt) r') (
          register_file_exists (uploaded_file uid (trim url) (perform_all new_id during u).total) f
            at_file r' still)
