-- ===== src/Book/Container.antt =====
-- `boost::multi_index_container` with the three indices that bid_ask_book.h declares: ordered by a
-- comparator, hashed and unique by id, and ordered by price. The container is not part of the
-- repository, so it is an interface: the calls that the book makes, and what Boost documents of them.
use mathlib.Core.List.{Mem, Nodup, Pairwise, Perm, filter, head?}
use stakan.Base.{
  ℕ, ◌≡◌, ◌≢◌, ◌↔◌, Bool, true, false, List, [], ◌∷◌, map, Option, none, some, ℕ_discrete,
}
use stakan.Wire.{Order}

pub record OrderContainer (before : Order → Order → Bool) : Type 1 where
  pub Container : Type 0
  -- What an iteration of index 0 visits, in its order.
  pub elements : Container → List Order
  pub empty : Container
  pub is_empty : Container → Bool
  -- `get<0>().begin()`, if that is not `end()`.
  pub begin : Container → Option Order
  -- `get<1>().find(id)`, if that is not `end()`.
  pub find : Container → ℕ → Option Order
  pub insert : Container → Order → Container × Bool
  -- `get<1>().erase(it)` and `get<1>().modify(it, f)` at the iterator that `find` gave for an id.
  pub erase : Container → ℕ → Container
  pub modify : Container → ℕ → (Order → Order) → Container
  -- `get<2>().equal_range(price)`
  pub equal_range : Container → ℕ → List Order
  pub elements-empty : elements empty ≡ []
  pub ids_unique : (c : Container) → Nodup (map (λ o. o.id) (elements c))
  pub elements_ordered : (c : Container) → Pairwise (λ a b. before b a ≡ false) (elements c)
  pub is_empty_iff : (c : Container) → (is_empty c ≡ true) ↔ (elements c ≡ [])
  pub begin_lem : (c : Container) → begin c ≡ head? (elements c)
  pub find_some :
      (c : Container) (i : ℕ) (o : Order) → find c i ≡ some o → (o.id ≡ i) × Mem o (elements c)
  pub find_none :
      (c : Container) (i : ℕ) → find c i ≡ none → (o : Order) → Mem o (elements c) → o.id ≢ i
  pub insert_new :
      (c : Container) (o : Order)
      → find c o.id ≡ none
      → ((insert c o).1 ≡ true) × Perm (elements (insert c o).0) (o ∷ elements c)
  pub insert_taken : (c : Container) (o x : Order) → find c o.id ≡ some x → insert c o ≡ (c, false)
  pub erase-perm :
      (c : Container) (i : ℕ) (o : Order)
      → find c i ≡ some o
      → Perm (elements c) (o ∷ elements (erase c i))
  pub modify-perm :
      (c : Container) (i : ℕ) (f : Order → Order) (o : Order)
      → find c i ≡ some o
      → (f o).id ≡ o.id
      → Perm (elements (modify c i f)) (f o ∷ elements (erase c i))
  pub equal_range-perm :
      (c : Container) (p : ℕ)
      → Perm (equal_range c p) (filter (λ (o : Order). ℕ_discrete o.price p) (elements c))
