-- ===== src/Base/Dicts.antt =====
-- Go's maps as association lists with one entry to a key. The order of the entries is the order
-- in which a `range` loop visits them: Go leaves it open, and a theorem holds for each.
use Prim.Native.Nat.{suc, ◌≤◌}
use mathlib.Core.Path.{◌≡◌, refl, sym, ◌∙◌}
use mathlib.Core.Option
use mathlib.Core.Option.{Option, none, some, some_inj}
use mathlib.Core.List.{List, [], ◌∷◌}
use native.Mathlib.Omega.{arith}
use mathlib.Core.Logic.{◌⊎◌, inl, inr}
use rhosus.Base.Tests.{if◌then◌else◌, Bool-cases}
use rhosus.Base.Lists.{length, All}
use rhosus.Base.Keys.{Key, same}

abbrev pub Dict {ℓ κ} : Type ℓ → Type κ → Type (ℓ ⊔ κ)
Dict K V = List (K × V)

module _ {ℓ κ} {K : Type ℓ} ⦃k : Key K⦄ {V : Type κ} where
  unfoldable pub lookup : K → Dict K V → Option V
  lookup a [] = none
  lookup a ((b, v) ∷ m) = if same b a then some v else lookup a m

  unfoldable pub insert : K → V → Dict K V → Dict K V
  insert a v [] = (a, v) ∷ []
  insert a v ((b, w) ∷ m) = if same b a then (a, v) ∷ m else (b, w) ∷ insert a v m

  pub delete : K → Dict K V → Dict K V
  delete a [] = []
  delete a ((b, w) ∷ m) = let rest = delete a m in if same b a then rest else (b, w) ∷ rest

  -- `m[a]` changed in place; nothing happens if the key is not there.
  pub modify : K → (V → V) → Dict K V → Dict K V
  modify a f [] = []
  modify a f ((b, w) ∷ m) = if same b a then (b, f w) ∷ m else (b, w) ∷ modify a f m

  pub lookup-modify :
      (a b : K) (f : V → V) (m : Dict K V)
      → lookup b (modify a f m) ≡ (if same a b then Option.map f (lookup b m) else lookup b m)
  unfolding lookup modify
  lookup-modify a b f [] = ground arith
  lookup-modify a b f ((c, w) ∷ m) =
      ground (arith, k.same_iff a b, k.same_iff c a, k.same_iff c b, lookup-modify a b f m)

  pub lookup-insert :
      (a b : K) (v : V) (m : Dict K V)
      → lookup b (insert a v m) ≡ (if same a b then some v else lookup b m)
  unfolding lookup insert
  lookup-insert a b v [] = refl
  lookup-insert a b v ((c, w) ∷ m) =
      ground (arith, k.same_iff a b, k.same_iff c a, k.same_iff c b, lookup-insert a b v m)

  pub lookup-delete :
      (a b : K) (m : Dict K V) → lookup b (delete a m) ≡ (if same a b then none else lookup b m)
  unfolding lookup delete
  lookup-delete a b [] = ground arith
  lookup-delete a b ((c, w) ∷ m) =
      ground (arith, k.same_iff a b, k.same_iff c a, k.same_iff c b, lookup-delete a b m)

  pub length-insert-le : (a : K) (v : V) (m : Dict K V) → length (insert a v m) ≤ suc (length m)
  unfolding insert
  length-insert-le a v [] = omega arith
  length-insert-le a v ((b, w) ∷ m) = ground (arith, length-insert-le a v m)

  pub length-delete-le : (a : K) (m : Dict K V) → length (delete a m) ≤ length m
  unfolding delete
  length-delete-le a [] = omega arith
  length-delete-le a ((b, w) ∷ m) = ground (arith, length-delete-le a m)

  pub All-insert {κ'} :
      (P : K × V → Type κ') (a : K) (v : V) (m : Dict K V)
      → P (a, v)
      → All P m
      → All P (insert a v m)
  unfolding insert
  All-insert P a v [] h hs = (h, hs)
  All-insert P a v ((b, w) ∷ m) h hs = elim (Bool-cases (same b a)) [
    | inl e ↦ rw e (h, hs.1)
    | inr e ↦ rw e (hs.0, All-insert P a v m h hs.1)
  ]

  -- What is found after an insertion is the new value or was there before.
  pub lookup-insert-cases :
      (a b : K) (v w : V) (m : Dict K V)
      → lookup b (insert a v m) ≡ some w
      → (v ≡ w) ⊎ (lookup b m ≡ some w)
  lookup-insert-cases a b v w m e = elim (Bool-cases (same a b)) [
    | inl new ↦ inl (some_inj.0 (sym (rw new at (lookup-insert a b v m)) ∙ e))
    | inr old ↦ inr (sym (rw old at (lookup-insert a b v m)) ∙ e)
  ]

module _ {K : Type 0} ⦃k : Key K⦄ {V : Type 0} where
  -- Go's maps have one entry to a key.
  abbrev pub HasUniqueKeys : Dict K V → Type 0
  HasUniqueKeys [] = Unit
  HasUniqueKeys ((a, v) ∷ m) = (lookup a m ≡ none) × HasUniqueKeys m

  pub insert-HasUniqueKeys :
      (a : K) (v : V) (m : Dict K V) → HasUniqueKeys m → HasUniqueKeys (insert a v m)
  unfolding insert lookup
  insert-HasUniqueKeys a v [] h = (refl, tt)
  insert-HasUniqueKeys a v ((b, w) ∷ m) h = elim (Bool-cases (same b a)) [
    | inl e ↦ rw e (ground (arith, h.0, k.same_iff b a), h.1)
    | inr e ↦ rw e (
      ground (arith, lookup-insert a b v m, h.0, k.same_iff b a, k.same_iff a b),
      insert-HasUniqueKeys a v m h.1,
    )
  ]

  pub delete-HasUniqueKeys : (a : K) (m : Dict K V) → HasUniqueKeys m → HasUniqueKeys (delete a m)
  unfolding delete
  delete-HasUniqueKeys a [] h = tt
  delete-HasUniqueKeys a ((b, w) ∷ m) h = elim (Bool-cases (same b a)) [
    | inl e ↦ rw e (delete-HasUniqueKeys a m h.1)
    | inr e ↦ rw e (ground (arith, lookup-delete a b m, h.0), delete-HasUniqueKeys a m h.1)
  ]
