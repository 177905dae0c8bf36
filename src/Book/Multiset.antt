-- ===== src/Book/Multiset.antt =====
-- Facts about the orders of a side that do not depend on their order in the container.
use mathlib.Core.List.{Mem, Perm, mem-cons, mem-cons_of_mem, foldr}
use mathlib.Core.List.Perm
use mathlib.Core.Logic.Or
use native.Mathlib.Nat.{ℕ_set}
use stakan.Base.{ℕ, ◌+◌, ◌≡◌, refl, ap, ◌≢◌, List, [], ◌∷◌, arith}
use stakan.Wire.{Order}

-- The quantity of all orders of a list, as a number that does not wrap.
abbrev pub quantity_sum : List Order → ℕ
quantity_sum [] = 0
quantity_sum (o ∷ os) = o.quantity + quantity_sum os

quantity_sum-foldr : (os : List Order) → quantity_sum os ≡ foldr (λ o n. o.quantity + n) 0 os
quantity_sum-foldr [] = refl
quantity_sum-foldr (o ∷ os) = ap (λ n. o.quantity + n) (quantity_sum-foldr os)

pub quantity_sum-perm : {as_ bs : List Order} → Perm as_ bs → quantity_sum as_ ≡ quantity_sum bs
quantity_sum-perm {as_} {bs} p =
    rw (quantity_sum-foldr as_, quantity_sum-foldr bs)
      (Perm.foldr-eq ℕ_set (λ (o : Order) n. o.quantity + n) (λ a b x. omega arith) p 0)

-- What `Validate` asks of an order.
pub record IsValid (o : Order) : Type 0 where
  pub has_price : o.price ≢ 0
  pub has_quantity : o.quantity ≢ 0

abbrev pub AllValid : List Order → Type 0
AllValid os = (o : Order) → Mem o os → IsValid o

IsValid-prop : (o : Order) → IsProp (IsValid o)
IsValid-prop o = hlevel

pub AllValid-cons : (o : Order) (os : List Order) → IsValid o → AllValid os → AllValid (o ∷ os)
AllValid-cons o os v h x m = Or.elim (IsValid-prop x) (mem-cons.0 m) (λ e. rw e v) (h x)

pub AllValid-tail : (o : Order) (os : List Order) → AllValid (o ∷ os) → AllValid os
AllValid-tail o os h x m = h x (mem-cons_of_mem o m)

pub AllValid-perm : {as_ bs : List Order} → Perm as_ bs → AllValid as_ → AllValid bs
AllValid-perm p h o m = h o ((Perm.mem_iff p).1 m)
