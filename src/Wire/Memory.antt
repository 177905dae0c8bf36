-- ===== src/Wire/Memory.antt =====
-- `std::memcpy` and the bytes of the structs in memory: each field is eight bytes, the lowest first
-- (the order of the machines that the service is built for), with no padding between fields.
use stakan.Base.{ℕ, zero, suc, ◌+◌, ◌*◌, ◌/◌, ◌%◌, List, [], ◌∷◌, ◌++◌, length, take, drop}
use stakan.Wire.{Order, MdUpdate}

-- The `k` low bytes of a number.
unfoldable pub le_bytes : ℕ → ℕ → List ℕ
le_bytes zero v = []
le_bytes (suc k) v = (v % 256) ∷ le_bytes k (v / 256)

-- The number that bytes stand for.
unfoldable pub of_le_bytes : List ℕ → ℕ
of_le_bytes [] = 0
of_le_bytes (b ∷ bs) = b + 256 * of_le_bytes bs

-- Copies `src` over the bytes of `dst` from `at` on.
unfoldable pub memcpy : List ℕ → ℕ → List ℕ → List ℕ
memcpy dst at src = take at dst ++ (src ++ drop (at + length src) dst)

-- The `n` bytes of `src` from `at` on.
abbrev pub bytes_at : List ℕ → ℕ → ℕ → List ℕ
bytes_at src at n = take n (drop at src)

-- sizeof(Order)
abbrev pub order_size : ℕ
order_size = 24

-- Fields of type `uint64_t`, one after the other.
unfoldable pub words_bytes : List ℕ → List ℕ
words_bytes [] = []
words_bytes (v ∷ vs) = le_bytes 8 v ++ words_bytes vs

unfoldable pub order_bytes : Order → List ℕ
order_bytes o = words_bytes (o.id ∷ o.price ∷ o.quantity ∷ [])

unfoldable pub order_of_bytes : List ℕ → Order
order_of_bytes bs = record {
  id = of_le_bytes (bytes_at bs 0 8);
  price = of_le_bytes (bytes_at bs 8 8);
  quantity = of_le_bytes (bytes_at bs 16 8);
}

-- An array of orders.
unfoldable pub orders_bytes : List Order → List ℕ
orders_bytes [] = []
orders_bytes (o ∷ os) = order_bytes o ++ orders_bytes os

unfoldable pub orders_of_bytes : ℕ → List ℕ → List Order
orders_of_bytes zero bs = []
orders_of_bytes (suc n) bs = order_of_bytes (take 24 bs) ∷ orders_of_bytes n (drop 24 bs)

unfoldable pub md_update_bytes : MdUpdate → List ℕ
md_update_bytes u = words_bytes (
    u.best_bid_price ∷ u.best_bid_qty ∷ u.best_ask_price ∷ u.best_ask_qty ∷ u.total_bid_qty
    ∷ u.total_ask_qty ∷ [])

unfoldable pub md_update_of_bytes : List ℕ → MdUpdate
md_update_of_bytes bs = record {
  best_bid_price = of_le_bytes (bytes_at bs 0 8);
  best_bid_qty = of_le_bytes (bytes_at bs 8 8);
  best_ask_price = of_le_bytes (bytes_at bs 16 8);
  best_ask_qty = of_le_bytes (bytes_at bs 24 8);
  total_bid_qty = of_le_bytes (bytes_at bs 32 8);
  total_ask_qty = of_le_bytes (bytes_at bs 40 8);
}
