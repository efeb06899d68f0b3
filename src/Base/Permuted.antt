-- ===== src/Base/Permuted.antt =====
-- Two lists in the order of a number, with the same elements.
use Prim.Native.Nat.{ℕ, suc, ◌≤◌, ◌<◌}
use mathlib.Core.Path.{◌≡◌, refl, ap₂, sym, subst}
use mathlib.Core.Logic.Or
use mathlib.Core.List.{List, [], ◌∷◌, Perm, Mem, mem-cons, not-mem-nil}
use mathlib.Core.List.Perm
use native.Mathlib.Bridge.{le_prop}
use native.Mathlib.Omega.{arith}
use rhosus.Base.Lists.{All}
use rhosus.Base.Sorting.{IsSortedBy}

module _ {A : Type 0} (number : A → ℕ) where
  -- In the order of the number, and no number twice.
  abbrev pub IsStrictBy : List A → Type 0
  IsStrictBy [] = Unit
  IsStrictBy (x ∷ xs) = All (λ y. number x < number y) xs × IsStrictBy xs

  le_of_mem : (n : ℕ) (a : A) (xs : List A) → All (λ y. n ≤ number y) xs → Mem a xs → n ≤ number a
  le_of_mem n a [] h m = absurd (not-mem-nil m)
  le_of_mem n a (x ∷ xs) h m = Or.elim le_prop (mem-cons.0 m) (λ e. rw e h.0) (le_of_mem n a xs h.1)

  All-suc : (n : ℕ) (xs : List A) → All (λ y. n < number y) xs → All (λ y. suc n ≤ number y) xs
  All-suc n [] h = tt
  All-suc n (x ∷ xs) h = (omega (arith, h.0), All-suc n xs h.1)

  -- The first elements of two such lists are the same.
  head_unique :
      ((a b : A) → IsProp (a ≡ b))
      → (x y : A) (xs ys : List A) → All (λ z. number x ≤ number z) xs
      → All (λ z. number y < number z) ys
      → Perm (x ∷ xs) (y ∷ ys)
      → x ≡ y
  head_unique set x y xs ys sorted strict p =
      let in_ys : Mem x (y ∷ ys) = Perm.subset p x (mem-cons.1 (Or.inl refl)) in
      let in_xs : Mem y (x ∷ xs) = Perm.subset (Perm.symm p) y (mem-cons.1 (Or.inl refl)) in
      let le = le_of_mem (number x) y (x ∷ xs) (omega arith, sorted) in_xs in
      Or.elim (set x y) (mem-cons.0 in_ys) (λ e. e)
        (λ m.
          absurd
            (omega (arith, le, le_of_mem (suc (number y)) x ys (All-suc (number y) ys strict) m)))

  -- A list in order is the only rearrangement of one in order without a number twice.
  pub sorted_unique :
      ((a b : A) → IsProp (a ≡ b))
      → (xs ys : List A) → IsSortedBy number xs
      → IsStrictBy ys
      → Perm xs ys
      → xs ≡ ys
  sorted_unique set [] ys sorted strict p = sym (Perm.eq-nil (Perm.symm p))
  sorted_unique set (x ∷ xs) [] sorted strict p = Perm.eq-nil p
  sorted_unique set (x ∷ xs) (y ∷ ys) sorted strict p =
      let e = head_unique set x y xs ys sorted.0 strict.0 p in
      ap₂ ◌∷◌ e (
        sorted_unique set xs ys sorted.1 strict.1
          (Perm.cons_inv (subst (λ z. Perm (x ∷ xs) (z ∷ ys)) (sym e) p)))
