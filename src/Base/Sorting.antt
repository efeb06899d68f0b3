-- ===== src/Base/Sorting.antt =====
-- `sort.Slice` by a number of each element. Go leaves the order of elements with equal numbers open;
-- here they keep theirs.
use Prim.Native.Nat.{ℕ, suc, ◌≤◌}
use mathlib.Core.Path.{◌≡◌, refl, ap, ◌∙◌}
use mathlib.Core.Logic.{inl, inr, ◌↔◌}
use mathlib.Core.List.{List, [], ◌∷◌, Perm}
use mathlib.Core.List.Perm
use native.Mathlib.Omega.{arith}
use rhosus.Base.Tests.{leb, if◌then◌else◌, Bool-cases}
use rhosus.Base.Lists.{All, In, length}

module _ {ℓ} {A : Type ℓ} (number : A → ℕ) where
  pub insert_sorted : A → List A → List A
  insert_sorted x [] = x ∷ []
  insert_sorted x (y ∷ ys) =
      let rest = insert_sorted x ys in if leb (number x) (number y) then x ∷ y ∷ ys else y ∷ rest

  unfoldable pub sort_by : List A → List A
  unfolding insert_sorted
  sort_by [] = []
  sort_by (x ∷ xs) = insert_sorted x (sort_by xs)

  abbrev pub IsSortedBy : List A → Type 0
  IsSortedBy [] = Unit
  IsSortedBy (x ∷ xs) = All (λ y. number x ≤ number y) xs × IsSortedBy xs

  insert_sorted-perm : (x : A) (xs : List A) → Perm (insert_sorted x xs) (x ∷ xs)
  unfolding insert_sorted
  insert_sorted-perm x [] = Perm.rfl
  insert_sorted-perm x (y ∷ ys) = elim (Bool-cases (leb (number x) (number y))) [
    | inl le ↦ rw le Perm.rfl
    | inr gt ↦ rw gt (Perm.trans (Perm.cons y (insert_sorted-perm x ys)) (Perm.swap x y ys))
  ]

  -- Sorting rearranges a list.
  pub sort_by-perm : (xs : List A) → Perm (sort_by xs) xs
  unfolding sort_by
  sort_by-perm [] = Perm.rfl
  sort_by-perm (x ∷ xs) =
      Perm.trans (insert_sorted-perm x (sort_by xs)) (Perm.cons x (sort_by-perm xs))

  All-insert_sorted :
      (P : A → Type 0) (x : A) (xs : List A) → P x → All P xs → All P (insert_sorted x xs)
  unfolding insert_sorted
  All-insert_sorted P x [] p ps = (p, ps)
  All-insert_sorted P x (y ∷ ys) p ps = elim (Bool-cases (leb (number x) (number y))) [
    | inl le ↦ rw le (p, ps)
    | inr gt ↦ rw gt (ps.0, All-insert_sorted P x ys p ps.1)
  ]

  All-le : (n m : ℕ) (xs : List A) → n ≤ m → All (λ y. m ≤ number y) xs → All (λ y. n ≤ number y) xs
  All-le n m [] le h = tt
  All-le n m (x ∷ xs) le h = (omega (arith, h.0), All-le n m xs le h.1)

  -- What holds of all elements holds of all in the sorted list.
  pub All-sort_by : (P : A → Type 0) (xs : List A) → All P xs → All P (sort_by xs)
  unfolding sort_by
  All-sort_by P [] h = tt
  All-sort_by P (x ∷ xs) h = All-insert_sorted P x (sort_by xs) h.0 (All-sort_by P xs h.1)

  insert_sorted-IsSortedBy : (x : A) (xs : List A) → IsSortedBy xs → IsSortedBy (insert_sorted x xs)
  unfolding insert_sorted
  insert_sorted-IsSortedBy x [] h = (tt, tt)
  insert_sorted-IsSortedBy x (y ∷ ys) h = elim (Bool-cases (leb (number x) (number y))) [
    | inl le ↦
        let x_le : number x ≤ number y = ground arith in
        rw le ((x_le, All-le (number x) (number y) ys x_le h.0), h)
    | inr gt ↦ rw gt (
      All-insert_sorted (λ z. number y ≤ number z) x ys (ground arith) h.0,
      insert_sorted-IsSortedBy x ys h.1,
    )
  ]

  -- A sorted list is in the order of its numbers.
  pub sort_by-IsSortedBy : (xs : List A) → IsSortedBy (sort_by xs)
  unfolding sort_by
  sort_by-IsSortedBy [] = tt
  sort_by-IsSortedBy (x ∷ xs) = insert_sorted-IsSortedBy x (sort_by xs) (sort_by-IsSortedBy xs)

module _ {A : Type 0} (number : A → ℕ) where
  In-insert_sorted : (a x : A) (xs : List A) → In a (insert_sorted number x xs) ↔ In a (x ∷ xs)
  unfolding insert_sorted
  In-insert_sorted a x [] = ground arith
  In-insert_sorted a x (y ∷ ys) = elim (Bool-cases (leb (number x) (number y))) [
    | inl le ↦ rw le ((λ m. m), λ m. m)
    | inr gt ↦ rw gt (ground (arith, In-insert_sorted a x ys))
  ]

  -- Sorting keeps the elements.
  pub In-sort_by : (a : A) (xs : List A) → In a (sort_by number xs) ↔ In a xs
  unfolding sort_by
  In-sort_by a [] = ground arith
  In-sort_by a (x ∷ xs) = ground (arith, In-insert_sorted a x (sort_by number xs), In-sort_by a xs)

module _ {ℓ} {A : Type ℓ} (number other : A → ℕ) where
  All-agree :
      (n m : ℕ) (xs : List A)
      → n ≡ m
      → All (λ y. number y ≡ other y) xs
      → All (λ y. n ≤ number y) xs
      → All (λ y. m ≤ other y) xs
  All-agree n m [] e h hs = tt
  All-agree n m (x ∷ xs) e h hs = (omega (arith, h.0, hs.0), All-agree n m xs e h.1 hs.1)

  -- Two numbers that agree on a list sort it alike.
  pub IsSortedBy-agree :
      (xs : List A) → All (λ y. number y ≡ other y) xs → IsSortedBy number xs → IsSortedBy other xs
  IsSortedBy-agree [] h s = tt
  IsSortedBy-agree (x ∷ xs) h s =
      (All-agree (number x) (other x) xs h.0 h.1 s.0, IsSortedBy-agree xs h.1 s.1)

module _ {ℓ} {A : Type ℓ} (number : A → ℕ) where
  length-insert_sorted :
      (x : A) (xs : List A) → length (insert_sorted number x xs) ≡ suc (length xs)
  unfolding insert_sorted
  length-insert_sorted x [] = refl
  length-insert_sorted x (y ∷ ys) = elim (Bool-cases (leb (number x) (number y))) [
    | inl le ↦ rw le refl
    | inr gt ↦ rw gt (ap suc (length-insert_sorted x ys))
  ]

  pub length-sort_by : (xs : List A) → length (sort_by number xs) ≡ length xs
  unfolding sort_by
  length-sort_by [] = refl
  length-sort_by (x ∷ xs) = length-insert_sorted x (sort_by number xs) ∙ ap suc (length-sort_by xs)

  pub sort_by-one : (x : A) → sort_by number (x ∷ []) ≡ x ∷ []
  unfolding sort_by insert_sorted
  sort_by-one x = refl

  pub sort_by-nil : sort_by number [] ≡ []
  unfolding sort_by
  sort_by-nil = refl
