-- ===== src/Book/Branches.antt =====
-- What each call does to one side, branch by branch.
use mathlib.Core.List.{Perm}
use stakan.Base.{
  ℕ, ◌≡◌, refl, ◌∙◌, ap, ◌≢◌, ◌⊎◌, ◌↔◌, inl, inr, Bool, true, false, ◌||◌, List, ◌∷◌, arith, none,
  some, add64, sub64, Option-cases, Bool-cases, ℕ_discrete, ◌==◌,
}
use stakan.Wire.{Order}
use stakan.Book.Container.{OrderContainer}
use stakan.Book.Ops.{Side, validate, add, cancel, replace, replace_at}
use stakan.Book.Multiset.{IsValid}

pub validate_iff : (o : Order) → (validate o ≡ true) ↔ IsValid o
unfolding validate
validate_iff o = (
  λ h. record { has_price = λ e. ground arith; has_quantity = λ e. ground arith },
  λ v. ground (arith, v.has_price, v.has_quantity),
)

validate-false : (o : Order) → ¬ IsValid o → validate o ≡ false
validate-false o h = elim (Bool-cases (validate o)) [
  | inl e ↦ absurd (h ((validate_iff o).0 e))
  | inr e ↦ e
]

pub IsValid-dec : (o : Order) → Dec (IsValid o)
IsValid-dec o = elim (Bool-cases (validate o)) [
  | inl e ↦ yes ((validate_iff o).0 e)
  | inr e ↦ no (λ v. cc ((validate_iff o).1 v))
]

-- The test that `replace` writes out.
abbrev is_empty_order : Order → Bool
is_empty_order o = o.price == 0 || o.quantity == 0

is_empty_order-false : (o : Order) → IsValid o → is_empty_order o ≡ false
is_empty_order-false o v = ground (arith, v.has_price, v.has_quantity)

is_empty_order-true : (o : Order) → ¬ IsValid o → is_empty_order o ≡ true
is_empty_order-true o h = elim (Bool-cases (is_empty_order o)) [
  | inl e ↦ e
  | inr e ↦ absurd (h (record { has_price = λ p. ground arith; has_quantity = λ p. ground arith }))
]

module _ {before : Order → Order → Bool} (index : OrderContainer before) where
  abbrev orders_of : Side index → List Order
  orders_of s = index.elements s.orders

  -- An order with a price, a quantity and a free id joins the orders, and its quantity joins the total.
  -- An order that lacks a price or a quantity, or whose id is taken, changes nothing.
  pub add_branches :
      (s : Side index) (o : Order)
      → (IsValid o
          × (index.find s.orders o.id ≡ none)
          × ((add index s o).total ≡ add64 s.total o.quantity)
          × Perm (index.elements (add index s o).orders) (o ∷ index.elements s.orders))
        ⊎ (((¬ IsValid o) ⊎ ((x : Order) × (index.find s.orders o.id ≡ some x)))
            × (add index s o ≡ s))
  unfolding add
  add_branches s o = elim (IsValid-dec o) [
    | no bad ↦ inr (inl bad, rw (validate-false o bad))
    | yes v ↦ elim (Option-cases (index.find s.orders o.id)) [
      | inr (x, taken) ↦
          inr (inr (x, taken), rw (index.insert_taken s.orders o x taken) (ground arith))
      | inl free ↦
          let (done, p) = index.insert_new s.orders o free in
          inl (v, free, rw ((validate_iff o).1 v, done) refl, rw ((validate_iff o).1 v, done) p)
    ]
  ]

  -- A cancelled order leaves the orders and its quantity leaves the total. An unknown id changes nothing.
  pub cancel_branches :
      (s : Side index) (i : ℕ)
      → ((index.find s.orders i ≡ none) × (cancel index s i ≡ s))
        ⊎ ((o : Order) × (index.find s.orders i ≡ some o)
            × ((cancel index s i).total ≡ sub64 s.total o.quantity)
            × Perm (index.elements s.orders) (o ∷ index.elements (cancel index s i).orders))
  unfolding cancel
  cancel_branches s i = elim (Option-cases (index.find s.orders i)) [
    | inl e ↦ inl (e, rw (e, cancel))
    | inr (o, e) ↦ inr (o, e, rw (e, cancel), rw (e, cancel) (index.erase-perm s.orders i o e))
  ]

  replace_taken :
      (s : Side index) (old new o : Order)
      → IsValid new
      → old.id ≡ new.id
      → index.find s.orders old.id ≡ some o
      → replace index s old new ≡ replace_at index s new (some o)
  unfolding replace
  replace_taken s old new o v same e = rw (is_empty_order-false new v) (rw e (ground arith))

  replace_at-perm :
      (s : Side index) (new o : Order)
      → o.id ≡ new.id
      → index.find s.orders o.id ≡ some o
      → Perm
          (index.elements (replace_at index s new (some o)).orders)
          (new ∷ index.elements (index.erase s.orders o.id))
  unfolding replace_at
  replace_at-perm s new o e found =
      let moved : (record o { price = new.price; quantity = new.quantity }) ≡ new =
        λ i. record { id = e i; price = new.price; quantity = new.quantity } in
      rw moved at (
        index.modify-perm s.orders o.id
          (λ x. record x { price = new.price; quantity = new.quantity }) o found refl)

  -- A replacement with no price or no quantity, under another id, or of an unknown id changes nothing.
  -- Any other gives the order of that id the new price and quantity, and moves the total by the difference.
  pub replace_branches :
      (s : Side index) (old new : Order)
      → (((¬ IsValid new) ⊎ (old.id ≢ new.id) ⊎ (index.find s.orders old.id ≡ none))
          × (replace index s old new ≡ s))
        ⊎ (IsValid new
            × (old.id ≡ new.id)
            × ((o : Order) × (rest : List Order) × (index.find s.orders old.id ≡ some o)
                × ((replace index s old new).total ≡ add64 (sub64 s.total o.quantity) new.quantity)
                × Perm (index.elements s.orders) (o ∷ rest)
                × Perm (index.elements (replace index s old new).orders) (new ∷ rest)))
  unfolding replace
  replace_branches s old new = elim (IsValid-dec new) [
    | no bad ↦ inl (inl bad, rw (is_empty_order-true new bad))
    | yes v ↦ elim (ℕ_discrete old.id new.id) [
      | no other ↦ inl (inr (inl other), ground arith)
      | yes same ↦ elim (Option-cases (index.find s.orders old.id)) [
        | inl e ↦ inl (inr (inr e), rw (e, replace) (ground arith))
        | inr (o, e) ↦
            let (at, _) = index.find_some s.orders old.id o e in
            let found : index.find s.orders o.id ≡ some o =
              ap (λ k. index.find s.orders k) at ∙ e in
            inr (
              v,
              same,
              (
                o,
                index.elements (index.erase s.orders o.id),
                e,
                rw (replace_taken s old new o v same e) refl,
                index.erase-perm s.orders o.id o found,
                rw (replace_taken s old new o v same e) (replace_at-perm s new o (at ∙ same) found),
              ),
            )
      ]
    ]
  ]
