-- ===== src/Book/Compare.antt =====
-- `BidComparator` and `AskComparator` of src/bid_ask_book/bid_ask_book.h.
use stakan.Base.{◌≡◌, Bool, true, false, ◌&&◌, ◌||◌, arith, ltb, ◌==◌}
use stakan.Wire.{Order}

-- The best bid first: a higher price, then a larger quantity, then a lower id.
unfoldable pub bid_before : Order → Order → Bool
bid_before a b =
    ltb b.price a.price
    || ((a.price == b.price && ltb b.quantity a.quantity)
        || (a.price == b.price && (a.quantity == b.quantity && ltb a.id b.id)))

-- The best ask first: a lower price, then a larger quantity, then a lower id.
unfoldable pub ask_before : Order → Order → Bool
ask_before a b =
    ltb a.price b.price
    || ((a.price == b.price && ltb b.quantity a.quantity)
        || (a.price == b.price && (a.quantity == b.quantity && ltb a.id b.id)))

-- What an ordered index asks of its comparator, and that no two orders tie that differ.
pub record IsStrictOrder (before : Order → Order → Bool) : Type 0 where
  pub irrefl : (a : Order) → before a a ≡ false
  pub trans : (a b c : Order) → before a b ≡ true → before b c ≡ true → before a c ≡ true
  pub total : (a b : Order) → before a b ≡ false → before b a ≡ false → a ≡ b

-- The bid comparator is a strict total order, so the order of the bids is determined.
pub bid_before-IsStrictOrder : IsStrictOrder bid_before
unfolding bid_before
bid_before-IsStrictOrder = record {
  irrefl = λ a. ground arith;
  trans = λ a b c p q. ground arith;
  total = λ a b p q. ground arith;
}

pub ask_before-IsStrictOrder : IsStrictOrder ask_before
unfolding ask_before
ask_before-IsStrictOrder = record {
  irrefl = λ a. ground arith;
  trans = λ a b c p q. ground arith;
  total = λ a b p q. ground arith;
}
