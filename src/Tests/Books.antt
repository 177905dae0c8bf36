-- ===== src/Tests/Books.antt =====
-- The order book of src/bid_ask_book, over containers that are sorted lists.
use mathlib.Core.List.{Mem, Perm, mem-cons_self, mem-cons_of_mem}
use stakan.Base.{◌≢◌, ◌⊎◌, ◌≤◌, ◌<◌, IsU64}
use stakan.Book.Ops.{Side}
use stakan.Book.Abstract.Bags.{spec_run, no_orders, quantity_of}
use stakan.Book.Abstract.Books.{bags_of, run_refines}
use stakan.Base.{◌%◌, ◌^◌}
use stakan.Book.Multiset.{IsValid}
use stakan.Book.Branches.{add_branches, replace_branches}
use stakan.Book.History.{IsSoundBook, run-IsSoundBook}
use stakan.Book.Update.{Describes, generate_md_update_lem}
use mathlib.Core.List.Perm
use stakan.Book.Torn.{cancel_tears_update}
use stakan.Book.{generate_between, cancel_bid}
use stakan.Book.Best.{best_bid_lem}
use stakan.Book.Prices.{at_price}
use stakan.Base.{ℕ, ◌≡◌, refl, List, [], ◌∷◌, arith, some, none}
use stakan.Wire.{Order, MdUpdate, order_eq}
use stakan.Book.Ops.{validate, add, cancel, replace, best, prices_info, collect, empty_side}
use stakan.Book.Compare.{bid_before, ask_before}
use stakan.Book.Sorted.{find_id, remove_id, place}
use stakan.Book.Sorted.Instance.{bid_container, ask_container}
use stakan.Book.History.{Call, bids, asks, cancels_ask, replaces_bid, step, run}
use stakan.Book.{
  OrderBook, new_book, generate_md_update, best_bid, best_ask, get_prices_bids_info,
  get_prices_asks_info, new_bid, new_ask, cancel_ask, replace_bid,
}
use stakan.Base.{add64, sub64, ℕ_discrete}

abbrev order : ℕ → ℕ → ℕ → Order
order id price quantity = record { id = id; price = price; quantity = quantity }

abbrev Book : Type 0
Book = OrderBook bid_container ask_container

-- The calls of the test "GenerateMDUpdate total quantities with mixed operations sequence" of
-- src/bid_ask_book/tests.cpp.
abbrev mixed : List Call
mixed =
    bids (order 1 100 10)
    ∷ bids (order 2 101 20)
    ∷ asks (order 3 105 5)
    ∷ asks (order 4 106 8)
    ∷ replaces_bid (order 2 101 20) (order 2 102 30)
    ∷ cancels_ask 3
    ∷ asks (order 5 104 12)
    ∷ []

abbrev fresh : Book
fresh = new_book

mixed_update :
    generate_md_update (run fresh mixed)
    ≡ some (record {
      best_bid_price = 102;
      best_bid_qty = 30;
      best_ask_price = 104;
      best_ask_qty = 12;
      total_bid_qty = 40;
      total_ask_qty = 20;
    })
unfolding generate_between generate_md_update run step new_book new_bid new_ask cancel_ask
    replace_bid best_bid best_ask get_prices_bids_info get_prices_asks_info add cancel replace best
    prices_info collect empty_side validate bid_before ask_before find_id remove_id place
    bid_container ask_container order_eq add64 sub64 ℕ_discrete
mixed_update = refl

abbrev mixed_book : Book
mixed_book = run fresh mixed

abbrev bid_side : Side bid_container
bid_side = mixed_book.bids

abbrev bid_orders : Side bid_container → List Order
bid_orders s = bid_container.elements s.orders

abbrev ask_orders : Side ask_container → List Order
ask_orders s = ask_container.elements s.orders

abbrev late : Order
late = order 9 50 7

abbrev held : Order
held = order 1 100 10

abbrev moved : Order
moved = order 1 103 4

run_refines_example :
    (bags_of mixed_book ≡ spec_run no_orders mixed)
    × (mixed_book.bids.total ≡ quantity_of (spec_run no_orders mixed).bid_bag % 2 ^ 64)
    × (mixed_book.asks.total ≡ quantity_of (spec_run no_orders mixed).ask_bag % 2 ^ 64)
run_refines_example = run_refines bid_container ask_container mixed

run-IsSoundBook_example : IsSoundBook mixed_book
run-IsSoundBook_example = run-IsSoundBook bid_container ask_container mixed

add_branches_example :
    (IsValid late
      × (bid_container.find bid_side.orders 9 ≡ none)
      × ((add bid_container bid_side late).total ≡ add64 bid_side.total 7)
      × Perm (bid_orders (add bid_container bid_side late)) (late ∷ bid_orders bid_side))
    ⊎ (((¬ IsValid late) ⊎ ((x : Order) × (bid_container.find bid_side.orders 9 ≡ some x)))
        × (add bid_container bid_side late ≡ bid_side))
add_branches_example = add_branches bid_container bid_side late

replace_branches_example :
    (((¬ IsValid moved) ⊎ (held.id ≢ moved.id) ⊎ (bid_container.find bid_side.orders 1 ≡ none))
      × (replace bid_container bid_side held moved ≡ bid_side))
    ⊎ (IsValid moved
        × (held.id ≡ moved.id)
        × ((o : Order) × (rest : List Order) × (bid_container.find bid_side.orders 1 ≡ some o)
            × ((replace bid_container bid_side held moved).total
                ≡ add64 (sub64 bid_side.total o.quantity) 4)
            × Perm (bid_orders bid_side) (o ∷ rest)
            × Perm (bid_orders (replace bid_container bid_side held moved)) (moved ∷ rest)))
replace_branches_example = replace_branches bid_container bid_side held moved

generate_md_update_lem_example :
    ((bid_orders mixed_book.bids ≡ [])
      × (ask_orders mixed_book.asks ≡ [])
      × (generate_md_update mixed_book ≡ none))
    ⊎ ((¬ ((bid_orders mixed_book.bids ≡ []) × (ask_orders mixed_book.asks ≡ [])))
        × ((u : MdUpdate) × (generate_md_update mixed_book ≡ some u) × Describes mixed_book u))
generate_md_update_lem_example =
    generate_md_update_lem mixed_book (run-IsSoundBook bid_container ask_container mixed)

low_bid-Mem : Mem (order 1 100 10) (bid_orders mixed_book.bids)
unfolding run step new_book new_bid new_ask cancel_ask replace_bid add cancel replace empty_side
    validate bid_before ask_before find_id remove_id place bid_container ask_container add64 sub64
    ℕ_discrete
low_bid-Mem = mem-cons_of_mem (order 2 102 30) mem-cons_self

high_ask-Mem : Mem (order 4 106 8) (ask_orders mixed_book.asks)
unfolding run step new_book new_bid new_ask cancel_ask replace_bid add cancel replace empty_side
    validate bid_before ask_before find_id remove_id place bid_container ask_container add64 sub64
    ℕ_discrete
high_ask-Mem = mem-cons_of_mem (order 5 104 12) mem-cons_self

best_bid_lem_example :
    Mem (best_bid mixed_book) (bid_orders mixed_book.bids)
    × ((100 < (best_bid mixed_book).price)
        ⊎ ((100 ≡ (best_bid mixed_book).price) × (10 ≤ (best_bid mixed_book).quantity)))
best_bid_lem_example = best_bid_lem mixed_book (order 1 100 10) low_bid-Mem

late-IsValid : IsValid late
late-IsValid = record {
  has_price = λ e. absurd (omega arith);
  has_quantity = λ e. absurd (omega arith);
}

late_is_new : bid_container.find bid_side.orders 9 ≡ none
unfolding run step new_book new_bid new_ask cancel_ask replace_bid add cancel replace empty_side
    validate bid_before ask_before find_id remove_id place bid_container ask_container add64 sub64
    ℕ_discrete
late_is_new = refl

bid_total-IsU64 : IsU64 bid_side.total
unfolding run step new_book new_bid new_ask cancel_ask replace_bid add cancel replace empty_side
    validate bid_before ask_before find_id remove_id place bid_container ask_container add64 sub64
    ℕ_discrete
bid_total-IsU64 = omega arith

best_is_2 : best_bid mixed_book ≡ order 2 102 30
unfolding run step new_book new_bid new_ask cancel_ask replace_bid add cancel replace empty_side
    validate bid_before ask_before find_id remove_id place bid_container ask_container add64 sub64
    ℕ_discrete best_bid best
best_is_2 = refl

best_first : Perm (bid_orders mixed_book.bids) (best_bid mixed_book ∷ order 1 100 10 ∷ [])
unfolding run step new_book new_bid new_ask cancel_ask replace_bid add cancel replace empty_side
    validate bid_before ask_before find_id remove_id place bid_container ask_container add64 sub64
    ℕ_discrete best_bid best
best_first = Perm.rfl

alone_at_price : at_price (best_bid mixed_book).price (order 1 100 10 ∷ []) ≡ []
unfolding run step new_book new_bid new_ask cancel_ask replace_bid add cancel replace empty_side
    validate bid_before ask_before find_id remove_id place bid_container ask_container add64 sub64
    ℕ_discrete best_bid best
alone_at_price = refl

cancel_tears_update_example :
    (let c = cancel_bid mixed_book (best_bid mixed_book).id in
      (u : MdUpdate) × (generate_between mixed_book mixed_book c c c.bids.total c.asks.total
        ≡ some u)
      × (u.best_bid_price ≡ (best_bid mixed_book).price)
      × (u.best_bid_price ≢ 0)
      × (u.best_bid_qty ≡ 0)
      × (u.total_bid_qty ≡ c.bids.total))
cancel_tears_update_example =
    cancel_tears_update mixed_book (order 1 100 10 ∷ [])
      (run-IsSoundBook bid_container ask_container mixed) best_first alone_at_price
