-- ===== src/Book/Abstract/Sides.antt =====
-- Each call of one side does to the bag of its orders what the call on bags does.
use mathlib.Core.Quot
use mathlib.Core.Path.{subst}
use stakan.Base.{
  ℕ, ◌≡◌, refl, sym, ap, ◌∙◌, Bool, true, false, ◌&&◌, not, List, ◌==◌, ==_of_eq, ==_of_ne,
  if◌then◌else◌, arith, ℕ_discrete, Bool-cases, if_true, if_false, inl, inr,
}
use stakan.Wire.{Order}
use stakan.Book.Container.{OrderContainer}
use stakan.Book.Ops.{Side, add, cancel, replace}
use stakan.Book.Branches.{add_branches, cancel_branches, replace_branches}
use stakan.Book.Multiset.{IsValid}
use stakan.Book.Abstract.{Bag, bag}
use stakan.Book.Abstract.Lists.{
  Lacks, has_id-Lacks, has_id-Mem, without_id-free, rewrite_all-free, without_id-head,
  rewrite_all-head, rest-Lacks,
}
use stakan.Book.Abstract.Bags.{is_complete, drop_id, rewrite_id, spec_add, spec_replace}

is_complete-IsValid : (o : Order) → IsValid o → is_complete o ≡ true
is_complete-IsValid o v = ground (arith, v.has_price, v.has_quantity)

not_complete : (o : Order) → ¬ IsValid o → is_complete o ≡ false
not_complete o h = elim (Bool-cases (is_complete o)) [
  | inl e ↦ absurd (h (record { has_price = λ p. ground arith; has_quantity = λ p. ground arith }))
  | inr e ↦ e
]

and_true : {a b : Bool} → a ≡ true → b ≡ true → a && b ≡ true
and_true e f = ground (arith, e, f)

and_false_left : {a : Bool} (b : Bool) → a ≡ false → a && b ≡ false
and_false_left b e = rw e refl

and_false_right : (a : Bool) {b : Bool} → b ≡ false → a && b ≡ false
and_false_right a e = ground (arith, e)

if_either : (c : Bool) {a b : Bag} → a ≡ b → (if c then a else b) ≡ b
if_either true e = e
if_either false e = refl

module _ {before : Order → Order → Bool} (index : OrderContainer before) where
  abbrev pub bag_of : Side index → Bag
  bag_of s = bag (index.elements s.orders)

  pub add_refines : (s : Side index) (o : Order) → bag_of (add index s o) ≡ spec_add o (bag_of s)
  add_refines s o = elim (add_branches index s o) [
    | inl (v, free, _, p) ↦
        Quot.sound p
        ∙ sym (
            if_true _ _ (
              and_true (is_complete-IsValid o v) (
                ap not (
                  has_id-Lacks o.id (index.elements s.orders)
                    (index.find_none s.orders o.id free)))))
    | inr (inl bad, same) ↦
        ap bag_of same ∙ sym (if_false _ _ (and_false_left _ (not_complete o bad)))
    | inr (inr (x, taken), same) ↦
        let (e, m) = index.find_some s.orders o.id x taken in
        ap bag_of same
        ∙ sym (
            if_false _ _
              (and_false_right _ (ap not (has_id-Mem o.id x (index.elements s.orders) m e))))
  ]

  pub cancel_refines : (s : Side index) (i : ℕ) → bag_of (cancel index s i) ≡ drop_id i (bag_of s)
  cancel_refines s i = elim (cancel_branches index s i) [
    | inl (unknown, same) ↦
        ap bag_of same
        ∙ ap bag
            (sym (without_id-free i (index.elements s.orders) (index.find_none s.orders i unknown)))
    | inr (o, found, _, p) ↦
        let (e, m) = index.find_some s.orders i o found in
        let rest : List Order = index.elements (cancel index s i).orders in
        let lacks : Lacks i rest =
          subst (λ k. Lacks k rest) e (rest-Lacks o rest (index.ids_unique s.orders) p) in
        sym (ap (drop_id i) (Quot.sound p) ∙ ap bag (without_id-head i o rest e lacks))
  ]

  pub replace_refines :
      (s : Side index) (old new : Order)
      → bag_of (replace index s old new) ≡ spec_replace old new (bag_of s)
  replace_refines s old new = elim (replace_branches index s old new) [
    | inl (inl bad, same) ↦
        ap bag_of same ∙ sym (if_false _ _ (and_false_left _ (not_complete new bad)))
    | inl (inr (inl other), same) ↦
        ap bag_of same ∙ sym (if_false _ _ (and_false_right _ (==_of_ne old.id new.id other)))
    | inl (inr (inr unknown), same) ↦ elim (ℕ_discrete old.id new.id) [
      | no other ↦
          ap bag_of same ∙ sym (if_false _ _ (and_false_right _ (==_of_ne old.id new.id other)))
      | yes e ↦
          let lacks : Lacks new.id (index.elements s.orders) =
            subst (λ k. Lacks k (index.elements s.orders)) e
              (index.find_none s.orders old.id unknown) in
          ap bag_of same
          ∙ sym (
              if_either (is_complete new && old.id == new.id)
                (ap bag (rewrite_all-free new (index.elements s.orders) lacks)))
    ]
    | inr (v, same, (o, rest, found, _, p, q)) ↦
        let (e, m) = index.find_some s.orders old.id o found in
        let lacks : Lacks new.id rest =
          subst (λ k. Lacks k rest) (e ∙ same) (rest-Lacks o rest (index.ids_unique s.orders) p) in
        Quot.sound q
        ∙ sym (
            if_true _ _ (and_true (is_complete-IsValid new v) (==_of_eq old.id new.id same))
            ∙ ap (rewrite_id new) (Quot.sound p)
            ∙ ap bag (rewrite_all-head new o rest (e ∙ same) lacks))
  ]
