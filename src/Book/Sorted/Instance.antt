-- ===== src/Book/Sorted/Instance.antt =====
-- The sorted list as a container, with the laws of the interface.
use mathlib.Core.Path.{subst}
use mathlib.Core.List.{
  Mem, Nodup, Nodup-cons, mem-map_of_mem, Nodup-nil, Pairwise, Perm, filter, head?,
}
use mathlib.Core.List.Perm
use stakan.Base.{
  ℕ, ◌≡◌, ◌↔◌, refl, ap, ◌∙◌, Bool, true, false, List, [], ◌∷◌, Option, none, some, ℕ_discrete,
  Option-cases, inl, inr,
}
use stakan.Wire.{Order}
use stakan.Book.Compare.{
  IsStrictOrder, bid_before, ask_before, bid_before-IsStrictOrder, ask_before-IsStrictOrder,
}
use stakan.Book.Container.{OrderContainer}
use stakan.Book.Sorted.{
  find_id, remove_id, place, find_id-none, find_id-some, remove_id-perm, place-perm, place-InOrder,
  remove_id-InOrder, place-ids, remove_id-ids, InOrder, ids,
}

abbrev pub is_nil : List Order → Bool
is_nil [] = true
is_nil (o ∷ os) = false

pub is_nil_iff : (os : List Order) → (is_nil os ≡ true) ↔ (os ≡ [])
is_nil_iff [] = (λ e. refl, λ e. refl)
is_nil_iff (o ∷ os) = (λ e. cc, λ e. cc)

module _ (before : Order → Order → Bool) (strict : IsStrictOrder before) where
  pub record SortedList : Type 0 where
    pub items : List Order
    pub unique : Nodup (ids items)
    pub in_order : InOrder before strict.irrefl strict.trans items

  abbrev nothing : SortedList
  nothing = record { items = []; unique = Nodup-nil; in_order = Pairwise.nil }

  -- `place` where the id is free.
  unfoldable pub insert_at :
      (c : SortedList) (o : Order) (found : Option Order)
      → find_id o.id c.items ≡ found
      → SortedList × Bool
  insert_at c o (some x) e = (c, false)
  insert_at c o none e = (
    record {
      items = place before o c.items;
      unique = place-ids before o c.items e c.unique;
      in_order = place-InOrder before strict.irrefl strict.trans o c.items c.in_order;
    },
    true,
  )

  unfoldable pub insert : SortedList → Order → SortedList × Bool
  unfolding insert_at
  insert c o = insert_at c o (find_id o.id c.items) refl

  pub insert_free :
      (c : SortedList) (o : Order) (found : Option Order) (e : find_id o.id c.items ≡ found)
      → found ≡ none
      → ((insert_at c o found e).1 ≡ true) × Perm (insert_at c o found e).0.items (o ∷ c.items)
  unfolding insert_at
  insert_free c o none e h = (refl, place-perm before o c.items)
  insert_free c o (some x) e h = cc

  pub insert_old :
      (c : SortedList) (o x : Order) (found : Option Order) (e : find_id o.id c.items ≡ found)
      → found ≡ some x
      → insert_at c o found e ≡ (c, false)
  unfolding insert_at
  insert_old c o x none e h = cc
  insert_old c o x (some y) e h = refl

  unfoldable pub erase : SortedList → ℕ → SortedList
  erase c i = record {
    items = remove_id i c.items;
    unique = remove_id-ids i c.items c.unique;
    in_order = remove_id-InOrder before strict.irrefl strict.trans i c.items c.in_order;
  }

  -- The changed order goes to its new place, if it keeps its id.
  unfoldable pub modify_at : (c : SortedList) (i : ℕ) → (Order → Order) → Option Order → SortedList
  modify_at c i f none = c
  modify_at c i f (some o) = (insert (erase c i) (f o)).0

  unfoldable pub modify : SortedList → ℕ → (Order → Order) → SortedList
  unfolding modify_at
  modify c i f = modify_at c i f (find_id i c.items)

  free_after_erase :
      (c : SortedList) (i : ℕ) (o : Order)
      → find_id i c.items ≡ some o
      → find_id o.id (remove_id i c.items) ≡ none
  free_after_erase c i o e = elim (Option-cases (find_id o.id (remove_id i c.items))) [
    | inl free ↦ free
    | inr (y, taken) ↦
        let (same, m) = find_id-some o.id (remove_id i c.items) y taken in
        let split = Perm.nodup (Perm.map (λ x. x.id) (remove_id-perm i c.items o e)) c.unique in
        absurd (
          (Nodup-cons.0 split).0 (
            subst (λ k. Mem k (ids (remove_id i c.items))) same
              (mem-map_of_mem (λ (x : Order). x.id) m)))
  ]

  pub modify-items :
      (c : SortedList) (i : ℕ) (f : Order → Order) (o : Order)
      → find_id i c.items ≡ some o
      → (f o).id ≡ o.id
      → Perm (modify c i f).items (f o ∷ (erase c i).items)
  unfolding modify insert
  modify-items c i f o e same =
      rw (e, modify)
        ((insert_free (erase c i) (f o) _ refl (
          unfold erase in
          (ap (λ k. find_id k (remove_id i c.items)) same ∙ free_after_erase c i o e))).1)

unfoldable pub sorted_container :
    (before : Order → Order → Bool) → IsStrictOrder before → OrderContainer before
unfolding insert erase modify
sorted_container before strict = record {
  Container = SortedList before strict;
  elements = λ c. c.items;
  empty = nothing before strict;
  is_empty = λ c. is_nil c.items;
  begin = λ c. head? c.items;
  find = λ c i. find_id i c.items;
  insert = insert before strict;
  erase = erase before strict;
  modify = modify before strict;
  equal_range = λ c p. filter (λ (o : Order). ℕ_discrete o.price p) c.items;
  elements-empty = refl;
  ids_unique = λ c. c.unique;
  elements_ordered = λ c. c.in_order;
  is_empty_iff = λ c. is_nil_iff c.items;
  begin_lem = λ c. refl;
  find_some = λ c i o e. find_id-some i c.items o e;
  find_none = λ c i e. find_id-none i c.items e;
  insert_new = λ c o e. insert_free before strict c o (find_id o.id c.items) refl e;
  insert_taken = λ c o x e. insert_old before strict c o x (find_id o.id c.items) refl e;
  erase-perm = λ c i o e. remove_id-perm i c.items o e;
  modify-perm = λ c i f o e same. modify-items before strict c i f o e same;
  equal_range-perm = λ c p. Perm.rfl;
}

-- The two containers of the book.
unfoldable pub bid_container : OrderContainer bid_before
unfolding sorted_container
bid_container = sorted_container bid_before bid_before-IsStrictOrder

unfoldable pub ask_container : OrderContainer ask_before
unfolding sorted_container
ask_container = sorted_container ask_before ask_before-IsStrictOrder
