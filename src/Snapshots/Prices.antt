-- ===== src/Snapshots/Prices.antt =====
-- The prices of the static snapshots.
use stakan.Base.{ℕ, ◌+◌, ◌*◌, ◌^◌, ◌≤◌, ◌<◌, ◌≡◌, arith, add64, sub64, mul64}
use stakan.Snapshots.{static_bid, static_ask}

-- While `5 * i + j` is at most 100, the bids of snapshot `i` fall by one from `100 - 5 * i`, its
-- asks, as far as the 256th, rise by one from `101 + 5 * i`, and every such bid is below every such
-- ask.
pub static_prices :
    (i j k : ℕ)
    → 5 * i + j ≤ 100
    → k < 256
    → ((static_bid i j).price + 5 * i + j ≡ 100)
      × ((static_ask i k).price ≡ 101 + 5 * i + k)
      × ((static_bid i j).price < (static_ask i k).price)
unfolding static_bid static_ask add64 sub64 mul64
static_prices i j k h l = (omega arith, omega arith, omega arith)

-- For every `i` and `j` that the loops reach from a `uint8_t` count: a bid with `5 * i + j` above
-- 100 has a price above 2 ^ 63, since its subtraction wraps, so it is above every ask of the
-- snapshot.
pub static_bid_wraps :
    (i j k : ℕ)
    → i < 256
    → j < 20
    → k < 20
    → 100 < 5 * i + j
    → (2 ^ 63 < (static_bid i j).price) × ((static_ask i k).price < (static_bid i j).price)
unfolding static_bid static_ask add64 sub64 mul64
static_bid_wraps i j k hi hj hk h = (omega arith, omega arith)
