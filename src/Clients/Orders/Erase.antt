-- ===== src/Clients/Orders/Erase.antt =====
-- Removing the order of an id.
use stakan.Base.{
  ℕ, suc, ◌≤◌, ◌≡◌, ◌≢◌, refl, sym, ◌∙◌, ap, List, [], ◌∷◌, none, some, ok, arith, ℕ_discrete,
  ==_of_eq, ==_of_ne,
}
use mathlib.Core.Path.{subst}
use stakan.Base.Map.{Map, lookup, erase, lookup-erase}
use stakan.Wire.{Order}
use stakan.Clients.Orders.{Node, OrderEntry, OrderSide, erase_node, remove_by_id}
use stakan.Clients.Orders.Represents.{
  Absent, DistinctIds, Aligned, Rising, Represents, remove_order, Aligned-erase, Absent-dec,
}

Rising-lower : (lo lo' hi : ℕ) (ns : List Node) → lo ≤ lo' → Rising lo' hi ns → Rising lo hi ns
Rising-lower lo lo' hi [] h r = omega arith
Rising-lower lo lo' hi (n ∷ ns) h r = (omega arith, r.1)

-- The entry of an order that is in the list points to a node of the list.
handle_above :
    (m : Map OrderEntry) (ns : List Node) (os : List Order) (i lo hi : ℕ) (e : OrderEntry)
    → Aligned m ns os
    → Rising lo hi ns
    → ¬ Absent i os
    → lookup i m ≡ some e
    → lo ≤ e.it
handle_above m [] [] i lo hi e a r there found = absurd (there tt)
handle_above m [] (o ∷ os) i lo hi e a r there found = absurd a
handle_above m (n ∷ ns) [] i lo hi e a r there found = absurd a
handle_above m (n ∷ ns) (o ∷ os) i lo hi e a r there found = elim (ℕ_discrete o.id i) [
  | yes here ↦ let same = ap (λ k. lookup k m) here in ground (arith, same, a.1, r.0)
  | no other ↦
      let later =
        handle_above m ns os i (suc n.handle) hi e a.2 r.1 (λ b. there (other, b)) found in
      omega (arith, later, r.0)
]

apart : (a b : ℕ) → suc a ≤ b → a ≢ b
apart a b h e = omega arith

erase_node-Aligned :
    (m : Map OrderEntry) (ns : List Node) (os : List Order) (i lo hi : ℕ) (e : OrderEntry)
    → Aligned m ns os
    → Rising lo hi ns
    → DistinctIds os
    → ¬ Absent i os
    → lookup i m ≡ some e
    → (ms : List Node) × (erase_node e.it ns ≡ ok ms)
      × Aligned (erase i m) ms (remove_order i os)
      × Rising lo hi ms
unfolding erase_node
erase_node-Aligned m [] [] i lo hi e a r d there found = absurd (there tt)
erase_node-Aligned m [] (o ∷ os) i lo hi e a r d there found = absurd a
erase_node-Aligned m (n ∷ ns) [] i lo hi e a r d there found = absurd a
erase_node-Aligned m (n ∷ ns) (o ∷ os) i lo hi e a r d there found = elim (ℕ_discrete o.id i) [
  | yes here ↦
      let same = ap (λ k. lookup k m) here in
      let hit : n.handle ≡ e.it = ground (arith, same, a.1, found) in
      rw (==_of_eq _ _ hit, ==_of_eq _ _ here)
        (
          ns,
          refl,
          Aligned-erase m ns os i (subst (λ k. Absent k os) here d.0) a.2,
          Rising-lower lo (suc n.handle) hi ns (omega (arith, r.0)) r.1,
        )
  | no other ↦
      let gone : ¬ Absent i os = λ b. there (other, b) in
      let above = handle_above m ns os i (suc n.handle) hi e a.2 r.1 gone found in
      let (ms, p, q, w) = erase_node-Aligned m ns os i (suc n.handle) hi e a.2 r.1 d.1 gone found in
      rw (==_of_ne _ _ (apart n.handle e.it above), ==_of_ne _ _ other)
        (
          n ∷ ms,
          rw p,
          (a.0, lookup-erase i o.id m ∙ rw (==_of_ne _ _ (λ x. other (sym x))) a.1, q),
          (r.0, w),
        )
]

Absent-remove : (k i : ℕ) (os : List Order) → Absent k (remove_order i os) → k ≢ i → Absent k os
Absent-remove k i [] a h = tt
Absent-remove k i (o ∷ os) a h = elim (ℕ_discrete o.id i) [
  | yes here ↦ (λ e. h (sym e ∙ here), rw (==_of_eq _ _ here) at a)
  | no other ↦ let b = rw (==_of_ne _ _ other) at a in (b.0, Absent-remove k i os b.1 h)
]

Absent-keep : (k i : ℕ) (os : List Order) → Absent k os → Absent k (remove_order i os)
Absent-keep k i [] a = tt
Absent-keep k i (o ∷ os) a = elim (ℕ_discrete o.id i) [
  | yes here ↦ rw (==_of_eq _ _ here) a.1
  | no other ↦ rw (==_of_ne _ _ other) (a.0, Absent-keep k i os a.1)
]

DistinctIds-remove : (i : ℕ) (os : List Order) → DistinctIds os → DistinctIds (remove_order i os)
DistinctIds-remove i [] d = tt
DistinctIds-remove i (o ∷ os) d = elim (ℕ_discrete o.id i) [
  | yes here ↦ rw (==_of_eq _ _ here) d.1
  | no other ↦ rw (==_of_ne _ _ other) (Absent-keep o.id i os d.0, DistinctIds-remove i os d.1)
]

remove_order-Absent : (i : ℕ) (os : List Order) → Absent i os → remove_order i os ≡ os
remove_order-Absent i [] a = refl
remove_order-Absent i (o ∷ os) a = rw (==_of_ne _ _ a.0, remove_order-Absent i os a.1)

lookup_of_there :
    (m : Map OrderEntry) (ns : List Node) (os : List Order) (i : ℕ)
    → Aligned m ns os
    → ¬ Absent i os
    → (e : OrderEntry) × (lookup i m ≡ some e)
lookup_of_there m [] [] i a h = absurd (h tt)
lookup_of_there m [] (o ∷ os) i a h = absurd a
lookup_of_there m (n ∷ ns) [] i a h = absurd a
lookup_of_there m (n ∷ ns) (o ∷ os) i a h = elim (ℕ_discrete o.id i) [
  | yes here ↦ (record { order = o; it = n.handle }, ap (λ k. lookup k m) (sym here) ∙ a.1)
  | no other ↦ lookup_of_there m ns os i a.2 (λ b. h (other, b))
]

-- After an entry is erased the other keys are still those of orders.
pub only_erased :
    (s : OrderSide) (os rest : List Order) (i : ℕ)
    → Represents s os
    → ((k : ℕ) → Absent k rest → k ≢ i → Absent k os)
    → (k : ℕ) → Absent k rest
    → lookup k (erase i s.by_id) ≡ none
only_erased s os rest i r back k a = elim (ℕ_discrete i k) [
  | yes e ↦ lookup-erase i k s.by_id ∙ rw (==_of_eq _ _ e)
  | no ne ↦ lookup-erase i k s.by_id ∙ rw (==_of_ne _ _ ne) (r.only k (back k a (λ x. ne (sym x))))
]

-- The branch that looked the id up.
pub remove_by_id-Represents :
    (s : OrderSide) (os : List Order) (i : ℕ)
    → Represents s os
    → (t : OrderSide) × (remove_by_id s i (lookup i s.by_id) ≡ ok t)
      × Represents t (remove_order i os)
unfolding remove_by_id
remove_by_id-Represents s os i r = elim (Absent-dec i os) [
  | yes gone ↦ (s, rw (r.only i gone, remove_by_id) refl, rw (remove_order-Absent i os gone) r)
  | no there ↦
      let (e, found) = lookup_of_there s.by_id s.in_order os i r.aligned there in
      let (ms, p, q, w) =
        erase_node-Aligned s.by_id s.in_order os i 0 s.next_handle e r.aligned r.rising r.distinct
          there found in
      (
        record s { in_order = ms; by_id = erase i s.by_id },
        rw (found, remove_by_id) (rw p),
        record {
          aligned = q;
          rising = w;
          distinct = DistinctIds-remove i os r.distinct;
          only = only_erased s os (remove_order i os) i r (λ k a h. Absent-remove k i os a h);
        },
      )
]
