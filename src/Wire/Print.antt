-- ===== src/Wire/Print.antt =====
-- `to_string` of Snapshot and MDUpdate. `std::format` writes an unsigned number in decimal.
use stakan.Base.{ℕ, ◌≡◌, ◌↔◌, ◌&&◌, List, [], ◌∷◌, ◌++◌, arith, ◌==◌, if◌then◌else◌, codes, decimal}
use stakan.Wire.{Order, Snapshot, MdUpdate}

-- `arr[0].id` of an array, which is not empty.
unfoldable pub first_id : List Order → ℕ
first_id [] = 0
first_id (o ∷ os) = o.id

-- `std::format("Price: {}, Quantity: {}\n", o.price, o.quantity)`
unfoldable pub order_line : Order → List ℕ
order_line o =
    codes "Price: "
    ++ (decimal o.price ++ (codes ", Quantity: " ++ (decimal o.quantity ++ codes "\n")))

-- The loop over one side, which breaks at the first order with no id.
unfoldable pub side_lines : List Order → List ℕ
side_lines [] = []
side_lines (o ∷ os) = let rest = side_lines os in if o.id == 0 then [] else order_line o ++ rest

unfoldable pub snapshot_to_string : Snapshot → List ℕ
snapshot_to_string s =
    if first_id s.top_bids == 0 && first_id s.top_asks == 0
    then []
    else codes "Top Bids:\n"
      ++ (side_lines s.top_bids ++ (codes "Top Asks:\n" ++ side_lines s.top_asks))

unfoldable pub md_update_to_string : MdUpdate → List ℕ
md_update_to_string u =
    if u.best_ask_price == 0 && u.best_bid_price == 0
    then []
    else codes "Best bid price: "
      ++ (decimal u.best_bid_price
          ++ (codes "\nBid items by this price: "
              ++ (decimal u.best_bid_qty
                  ++ (codes "\nBest ask price: "
                      ++ (decimal u.best_ask_price
                          ++ (codes "\nAsk items by this price: "
                              ++ (decimal u.best_ask_qty
                                  ++ (codes "\nTotal bid quantity: "
                                      ++ (decimal u.total_bid_qty
                                          ++ (codes "\nTotal ask quantity: "
                                              ++ (decimal u.total_ask_qty ++ codes "\n")))))))))))

-- An order with no id ends its side: what stands behind it is not printed.
pub side_lines-stop :
    (os more : List Order) (o : Order)
    → o.id ≡ 0
    → side_lines (os ++ (o ∷ more)) ≡ side_lines (os ++ (o ∷ []))
unfolding side_lines
side_lines-stop [] more o e = ground arith
side_lines-stop (x ∷ os) more o e = ground (arith, side_lines-stop os more o e)

-- The printed text is empty exactly when neither side has a first order, and so is that of an update
-- with neither price.
pub to_string_empty :
    (s : Snapshot) (u : MdUpdate)
    → ((snapshot_to_string s ≡ []) ↔ ((first_id s.top_bids ≡ 0) × (first_id s.top_asks ≡ 0)))
      × ((md_update_to_string u ≡ []) ↔ ((u.best_ask_price ≡ 0) × (u.best_bid_price ≡ 0)))
unfolding snapshot_to_string md_update_to_string
to_string_empty s u =
    ((λ h. ground arith, λ h. ground arith), (λ h. ground arith, λ h. ground arith))
