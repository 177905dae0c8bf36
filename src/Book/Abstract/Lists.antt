-- ===== src/Book/Abstract/Lists.antt =====
-- Lists of orders in which an id stands once at most.
use mathlib.Core.Logic.{if_neg}
use mathlib.Core.List.{
  Mem, Perm, Nodup, not-mem-nil, mem-cons, mem-cons_self, mem-cons_of_mem, mem-map_of_mem,
  Nodup-cons, filter-eq_self, map-id, map_congr_left,
}
use mathlib.Core.List.Perm
use mathlib.Core.Logic.Or
use mathlib.Core.Bool.{Bool-set}
use stakan.Base.{
  ℕ, ◌≡◌, ◌≢◌, refl, sym, ap, ◌∙◌, true, false, ◌||◌, List, [], ◌∷◌, map, ◌==◌, arith, if_true,
  if_false, ==_of_eq, ==_of_ne,
}
use stakan.Wire.{Order}
use stakan.Book.Abstract.{other_than, has_id, without_id, rewrite_all}

abbrev pub Lacks : ℕ → List Order → Type 0
Lacks i os = (o : Order) → Mem o os → o.id ≢ i

pub has_id-perm : (i : ℕ) {as_ bs : List Order} → Perm as_ bs → has_id i as_ ≡ has_id i bs
has_id-perm i p =
    Perm.foldr-eq Bool-set (λ (o : Order) b. o.id == i || b) (λ a b x. ground arith) p false

pub has_id-Lacks : (i : ℕ) (os : List Order) → Lacks i os → has_id i os ≡ false
has_id-Lacks i [] h = refl
has_id-Lacks i (o ∷ os) h =
    rw (==_of_ne o.id i (h o mem-cons_self)) (has_id-Lacks i os (λ x m. h x (mem-cons_of_mem o m)))

pub has_id-Mem : (i : ℕ) (o : Order) (os : List Order) → Mem o os → o.id ≡ i → has_id i os ≡ true
has_id-Mem i o [] m e = absurd (not-mem-nil m)
has_id-Mem i o (x ∷ xs) m e =
    Or.elim (Bool-set _ _) (mem-cons.0 m)
      (λ here. ap (λ b. b || has_id i xs) (==_of_eq x.id i (ap (λ y. y.id) (sym here) ∙ e)))
      (λ later. ground (arith, has_id-Mem i o xs later e))

-- No order has this id, so none is dropped and none is rewritten.
pub without_id-free : (i : ℕ) (os : List Order) → Lacks i os → without_id i os ≡ os
without_id-free i os h = (filter-eq_self (other_than i) {l = os}).1 h

pub rewrite_all-free : (new : Order) (os : List Order) → Lacks new.id os → rewrite_all new os ≡ os
rewrite_all-free new os h =
    map_congr_left {g = λ o. o} (λ o m. if_false new o (==_of_ne o.id new.id (h o m))) ∙ map-id os

-- The first order has the id and no other one has it.
pub without_id-head :
    (i : ℕ) (o : Order) (os : List Order) → o.id ≡ i → Lacks i os → without_id i (o ∷ os) ≡ os
without_id-head i o os e h =
    if_neg (other_than i o) (λ n. n e) (o ∷ without_id i os) (without_id i os)
    ∙ without_id-free i os h

pub rewrite_all-head :
    (new o : Order) (os : List Order)
    → o.id ≡ new.id
    → Lacks new.id os
    → rewrite_all new (o ∷ os) ≡ new ∷ os
rewrite_all-head new o os e h =
    λ i. if_true new o (==_of_eq o.id new.id e) i ∷ rewrite_all-free new os h i

-- With ids that stand once, the rest of the list lacks the id of an order that is taken out.
pub rest-Lacks :
    {os : List Order} (o : Order) (rest : List Order)
    → Nodup (map (λ x. x.id) os)
    → Perm os (o ∷ rest)
    → Lacks o.id rest
rest-Lacks o rest u p x m e =
    (Nodup-cons.0 (Perm.nodup (Perm.map (λ (y : Order). y.id) p) u)).0
      (rw e at (mem-map_of_mem (λ (y : Order). y.id) m))
