-- ===== src/Book/Totals.antt =====
-- The invariant of a side: the running total is the sum of the quantities, and every order is valid.
use mathlib.Core.List.{Perm, not-mem-nil}
use mathlib.Core.List.Perm
use stakan.Base.{ℕ, ◌%◌, ◌^◌, ◌≡◌, ◌∙◌, Bool, List, ◌∷◌, arith, add64, sub64, inl, inr}
use stakan.Wire.{Order}
use stakan.Book.Container.{OrderContainer}
use stakan.Book.Ops.{Side, add, cancel, replace, empty_side}
use stakan.Book.Branches.{add_branches, cancel_branches, replace_branches}
use stakan.Book.Multiset.{
  quantity_sum, quantity_sum-perm, AllValid, AllValid-cons, AllValid-tail, AllValid-perm,
}

module _ {before : Order → Order → Bool} (index : OrderContainer before) where
  pub record IsSound (s : Side index) : Type 0 where
    pub total_is_sum : s.total ≡ quantity_sum (index.elements s.orders) % 2 ^ 64
    pub all_valid : AllValid (index.elements s.orders)

  pub empty_side-IsSound : IsSound (empty_side index)
  unfolding empty_side
  empty_side-IsSound = record {
    total_is_sum = rw (index.elements-empty);
    all_valid = λ o m. absurd (not-mem-nil (rw (index.elements-empty) at m));
  }

  -- A side whose orders are known up to their order.
  sound :
      (s : Side index) (os : List Order)
      → Perm (index.elements s.orders) os
      → s.total ≡ quantity_sum os % 2 ^ 64
      → AllValid os
      → IsSound s
  sound s os p total valid = record {
    total_is_sum = rw (quantity_sum-perm p) total;
    all_valid = AllValid-perm (Perm.symm p) valid;
  }

  pub add-IsSound : (s : Side index) (o : Order) → IsSound s → IsSound (add index s o)
  add-IsSound s o h = elim (add_branches index s o) [
    | inr (_, same) ↦ rw same h
    | inl (v, free, total, p) ↦
        sound (add index s o) (o ∷ index.elements s.orders) p
          (total ∙ unfold add64 in omega (arith, h.total_is_sum))
          (AllValid-cons o (index.elements s.orders) v h.all_valid)
  ]

  -- The parts of an order that is taken out.
  module _ (s : Side index) (o : Order) (rest : List Order)
      (p : Perm (index.elements s.orders) (o ∷ rest)) (h : IsSound s) where
    rest_total : sub64 s.total o.quantity ≡ quantity_sum rest % 2 ^ 64
    unfolding sub64
    rest_total = omega (arith, h.total_is_sum, quantity_sum-perm p)

    rest_valid : AllValid rest
    rest_valid = AllValid-tail o rest (AllValid-perm p h.all_valid)

  pub cancel-IsSound : (s : Side index) (i : ℕ) → IsSound s → IsSound (cancel index s i)
  cancel-IsSound s i h = elim (cancel_branches index s i) [
    | inl (_, same) ↦ rw same h
    | inr (o, e, total, p) ↦
        sound (cancel index s i) (index.elements (cancel index s i).orders) Perm.rfl
          (total ∙ rest_total s o _ p h) (rest_valid s o _ p h)
  ]

  pub replace-IsSound :
      (s : Side index) (old new : Order) → IsSound s → IsSound (replace index s old new)
  replace-IsSound s old new h = elim (replace_branches index s old new) [
    | inl (_, same) ↦ rw same h
    | inr (v, _, (o, rest, e, total, p, q)) ↦
        sound (replace index s old new) (new ∷ rest) q
          (total ∙ unfold add64 in omega (arith, rest_total s o rest p h))
          (AllValid-cons new rest v (rest_valid s o rest p h))
  ]
