-- ===== src/Book/Abstract.antt =====
-- What a side of the book promises: a bag of orders, that is, a list up to its order, with one equation
-- for each call. There is no container, no comparator and no running total.
pub mod Lists
pub mod Bags
pub mod Sides
pub mod Books
use mathlib.Core.List.{Perm, filter, foldr}
use mathlib.Core.Quot.{Quot}
use stakan.Base.{ℕ, ◌≡◌, ◌≢◌, Bool, false, ◌||◌, List, map, if◌then◌else◌, ◌==◌, ℕ_discrete}
use stakan.Wire.{Order}

abbrev pub Bag : Type 0
Bag = Quot (λ (xs : List Order) ys. Perm xs ys)

abbrev pub bag : List Order → Bag
bag xs = Quot.mk xs

abbrev pub other_than : (i : ℕ) (o : Order) → Dec (o.id ≢ i)
other_than i o = elim (ℕ_discrete o.id i) [ yes e ↦ no (λ n. n e) | no n ↦ yes n ]

-- Whether some order has an id.
abbrev pub has_id : ℕ → List Order → Bool
has_id i xs = foldr (λ (o : Order) b. o.id == i || b) false xs

abbrev pub without_id : ℕ → List Order → List Order
without_id i xs = filter (other_than i) xs

abbrev pub rewrite_one : Order → Order → Order
rewrite_one new o = if o.id == new.id then new else o

abbrev pub rewrite_all : Order → List Order → List Order
rewrite_all new xs = map (rewrite_one new) xs
