-- ===== src/Book/Abstract/Bags.antt =====
-- The calls on a bag of orders, and on the two bags that stand for a book.
use mathlib.Core.List.Perm
use mathlib.Core.Quot
use mathlib.Core.Quot.{Quot-set}
use mathlib.Core.Bool.{Bool-set}
use native.Mathlib.Nat.{ℕ_set}
use stakan.Base.{ℕ, Bool, ◌&&◌, ◌||◌, not, List, [], ◌∷◌, if◌then◌else◌, ◌==◌}
use stakan.Wire.{Order}
use stakan.Book.Multiset.{quantity_sum, quantity_sum-perm}
use stakan.Book.History.{Call}
use stakan.Book.Abstract.{Bag, bag, other_than, has_id, without_id, rewrite_one, rewrite_all}
use stakan.Book.Abstract.Lists.{has_id-perm}

abbrev pub quantity_of : Bag → ℕ
quantity_of = Quot.lift ℕ_set quantity_sum (λ xs ys p. quantity_sum-perm p)

abbrev pub holds_id : ℕ → Bag → Bool
holds_id i = Quot.lift Bool-set (has_id i) (λ xs ys p. has_id-perm i p)

abbrev pub join : Order → Bag → Bag
join o = Quot.lift Quot-set (λ xs. bag (o ∷ xs)) (λ xs ys p. Quot.sound (Perm.cons o p))

abbrev pub drop_id : ℕ → Bag → Bag
drop_id i =
    Quot.lift Quot-set (λ xs. bag (without_id i xs))
      (λ xs ys p. Quot.sound (Perm.filter (other_than i) p))

abbrev pub rewrite_id : Order → Bag → Bag
rewrite_id new =
    Quot.lift Quot-set (λ xs. bag (rewrite_all new xs))
      (λ xs ys p. Quot.sound (Perm.map (rewrite_one new) p))

abbrev pub is_complete : Order → Bool
is_complete o = not (o.price == 0 || o.quantity == 0)

abbrev pub spec_add : Order → Bag → Bag
spec_add o b = if is_complete o && not (holds_id o.id b) then join o b else b

abbrev pub spec_replace : Order → Order → Bag → Bag
spec_replace old new b = if is_complete new && old.id == new.id then rewrite_id new b else b

pub record BagBook : Type 0 where
  pub bid_bag : Bag
  pub ask_bag : Bag

abbrev pub spec_step : BagBook → Call → BagBook
spec_step b (Call.bids o) = record b { bid_bag = spec_add o b.bid_bag }
spec_step b (Call.asks o) = record b { ask_bag = spec_add o b.ask_bag }
spec_step b (Call.cancels_bid i) = record b { bid_bag = drop_id i b.bid_bag }
spec_step b (Call.cancels_ask i) = record b { ask_bag = drop_id i b.ask_bag }
spec_step b (Call.replaces_bid old new) = record b { bid_bag = spec_replace old new b.bid_bag }
spec_step b (Call.replaces_ask old new) = record b { ask_bag = spec_replace old new b.ask_bag }
spec_step b Call.takes_snapshot = b

abbrev pub spec_run : BagBook → List Call → BagBook
spec_run b [] = b
spec_run b (c ∷ cs) = spec_run (spec_step b c) cs

abbrev pub no_orders : BagBook
no_orders = record { bid_bag = bag []; ask_bag = bag [] }
