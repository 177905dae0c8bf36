-- ===== src/Clients/Orders/Pop.antt =====
-- Removing the last order.
use stakan.Base.{ℕ, suc, ◌≡◌, ◌≢◌, refl, sym, ◌∙◌, List, [], ◌∷◌, ok, arith, ==_of_ne}
use mathlib.Core.Path.{subst}
use stakan.Base.Map.{Map, erase, lookup-erase}
use stakan.Wire.{Order}
use stakan.Clients.Orders.{Node, OrderEntry, OrderSide, pop_back, remove_last}
use stakan.Clients.Orders.Represents.{Absent, DistinctIds, Aligned, Rising, Represents, drop_last}
use stakan.Clients.Orders.Erase.{only_erased}

pop_back-Aligned :
    (m : Map OrderEntry) (n : Node) (ns : List Node) (o : Order) (os : List Order) (lo hi : ℕ)
    → Aligned m (n ∷ ns) (o ∷ os)
    → Rising lo hi (n ∷ ns)
    → DistinctIds (o ∷ os)
    → (ms : List Node) × (i : ℕ) × (pop_back (n ∷ ns) ≡ ok (ms, i))
      × Aligned (erase i m) ms (drop_last (o ∷ os))
      × Rising lo hi ms
      × ((k : ℕ) → Absent k (o ∷ os) → i ≢ k)
      × ((k : ℕ) → Absent k (drop_last (o ∷ os)) → k ≢ i → Absent k (o ∷ os))
unfolding pop_back
pop_back-Aligned m n [] o [] lo hi a r d = (
  [],
  n.id,
  refl,
  tt,
  omega (arith, r.0, r.1),
  λ k b. rw (a.0) b.0,
  λ k b h. (λ e. h (sym (a.0 ∙ e)), tt),
)
pop_back-Aligned m n [] o (p ∷ os) lo hi a r d = absurd a.2
pop_back-Aligned m n (n' ∷ ns) o [] lo hi a r d = absurd a.2
pop_back-Aligned m n (n' ∷ ns) o (p ∷ os) lo hi a r d =
    let (ms, i, e, q, w, fresh, back) =
      pop_back-Aligned m n' ns p os (suc n.handle) hi a.2 r.1 d.1 in
    (
      n ∷ ms,
      i,
      rw e,
      (a.0, lookup-erase i o.id m ∙ rw (==_of_ne _ _ (fresh o.id d.0)) a.1, q),
      (r.0, w),
      λ k b. fresh k b.1,
      λ k b h. (b.0, back k b.1 h),
    )

Absent-drop_last : (k : ℕ) (os : List Order) → Absent k os → Absent k (drop_last os)
Absent-drop_last k [] a = tt
Absent-drop_last k (o ∷ []) a = tt
Absent-drop_last k (o ∷ p ∷ os) a = (a.0, Absent-drop_last k (p ∷ os) a.1)

DistinctIds-drop_last : (os : List Order) → DistinctIds os → DistinctIds (drop_last os)
DistinctIds-drop_last [] d = tt
DistinctIds-drop_last (o ∷ []) d = tt
DistinctIds-drop_last (o ∷ p ∷ os) d =
    (Absent-drop_last o.id (p ∷ os) d.0, DistinctIds-drop_last (p ∷ os) d.1)

pub remove_last-Represents :
    (s : OrderSide) (nodes : List Node) (o : Order) (os : List Order)
    → s.in_order ≡ nodes
    → Represents s (o ∷ os)
    → (t : OrderSide) × (remove_last s ≡ ok t) × Represents t (drop_last (o ∷ os))
unfolding remove_last
remove_last-Represents s [] o os e r =
    absurd (subst (λ ns. Aligned s.by_id ns (o ∷ os)) e r.aligned)
remove_last-Represents s (n ∷ ns) o os e r =
    let aligned = subst (λ xs. Aligned s.by_id xs (o ∷ os)) e r.aligned in
    let rising = subst (λ xs. Rising 0 s.next_handle xs) e r.rising in
    let (ms, i, p, q, w, fresh, back) =
      pop_back-Aligned s.by_id n ns o os 0 s.next_handle aligned rising r.distinct in
    (
      record s { in_order = ms; by_id = erase i s.by_id },
      rw (e, remove_last) (rw p),
      record {
        aligned = q;
        rising = w;
        distinct = DistinctIds-drop_last (o ∷ os) r.distinct;
        only = only_erased s (o ∷ os) (drop_last (o ∷ os)) i r back;
      },
    )
