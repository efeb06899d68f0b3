-- ===== src/Registry/Remove/Children.antt =====
-- `killChildren` of rhosus/registry/sys_handlers.go on a tree of files: it ends, and removes nothing.
use rhosus.Base.{
  ℕ, zero, suc, ◌<◌, String, string_key, some, List, [], ◌∷◌, ◌≡◌, inl, inr, arith, refl, In, Dict,
}
use rhosus.Storage.Types.{FileInfo, dir_type}
use rhosus.Storage.Tables.{IsTable, files_schema}
use rhosus.Storage.Store.{Env, Storage, get_files_by_parent_id}
use rhosus.Storage.Store.Files.{get_files_by_parent_id_lem}
use rhosus.Registry.Types.{Node, Result, ok}
use rhosus.Registry.Remove.{kill_children, for_each, then_do}

lt_zero : {n : ℕ} → n < 0 → ⊥
lt_zero h = omega arith

module _ {env : Env} (laws : IsTable env.files files_schema (λ f. f.id)) where
  -- The files form a tree: a file ranks below its parent, and a parent is a directory.
  abbrev pub IsTree : (String → ℕ) → Storage env → Type 0
  IsTree rank s =
      (c p : FileInfo)
      → laws.row c.id s.files ≡ some c
      → laws.row p.id s.files ≡ some p
      → c.parent_id ≡ p.id
      → (p.type ≡ dir_type) × (rank c.id < rank p.id)

  for_each-idle :
      (kill : FileInfo → Storage env → Result Unit × Storage env) (cs : List FileInfo)
      (s : Storage env)
      → ((c : FileInfo) → In c cs → kill c s ≡ (ok tt, s))
      → for_each kill cs s ≡ (ok tt, s)
  unfolding for_each then_do
  for_each-idle kill [] s idle = refl
  for_each-idle kill (c ∷ cs) s idle =
      rw (idle c (inl refl), for_each, then_do) (for_each-idle kill cs s (λ d m. idle d (inr m)))

  step :
      (fuel : ℕ) (nodes : Dict String Node) (f : FileInfo) (s : Storage env) (cs : List FileInfo)
      → get_files_by_parent_id f.id s ≡ inr cs
      → ((c : FileInfo)
          → In c cs
          → (f.type ≡ dir_type) × (kill_children fuel nodes c s ≡ (ok tt, s)))
      → kill_children (suc fuel) nodes f s ≡ (ok tt, s)
  unfolding kill_children then_do
  step fuel nodes f s [] got idle = rw (got, kill_children) refl
  step fuel nodes f s (c ∷ cs) got idle =
      rw (got, kill_children, (idle c (inl refl)).0, then_do)
        (for_each-idle (kill_children fuel nodes) (c ∷ cs) s (λ d m. (idle d m).1))

  -- `kill_children` on a tree ends well with any fuel above the rank of the file, and leaves the
  -- storage as it was: below a directory, no file is removed.
  pub kill_children-idle :
      (rank : String → ℕ) (fuel : ℕ) (nodes : Dict String Node) (f : FileInfo) (s : Storage env)
      → laws.IsIndexed s.files
      → IsTree rank s
      → laws.row f.id s.files ≡ some f
      → rank f.id < fuel
      → kill_children fuel nodes f s ≡ (ok tt, s)
  unfolding kill_children
  kill_children-idle rank zero nodes f s indexed tree there enough = elim (lt_zero enough) [ ]
  kill_children-idle rank (suc fuel) nodes f s indexed tree there enough =
      let (cs, got, is_child) = get_files_by_parent_id_lem laws f.id s indexed in
      step fuel nodes f s cs got (λ c m.
        let (c_there, parent) = (is_child c).0 m in
        let (is_dir, below) = tree c f c_there there parent in
        (
          is_dir,
          kill_children-idle rank fuel nodes c s indexed tree c_there
              (omega (arith, below, enough)),
        ))
