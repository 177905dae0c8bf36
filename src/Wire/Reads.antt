-- ===== src/Wire/Reads.antt =====
-- What reading the bytes of a struct gives back.
use stakan.Base.{
  ℕ, zero, suc, ◌+◌, ◌*◌, ◌/◌, ◌^◌, ◌<◌, ◌≡◌, refl, ap, ◌∙◌, List, [], ◌∷◌, ◌++◌, arith, length,
  get_or, take, drop, IsU64, length-append,
}
use native.Mathlib.Nat.{pow-suc}
use stakan.Wire.Memory.{
  le_bytes, of_le_bytes, bytes_at, words_bytes, order_bytes, order_of_bytes, orders_bytes,
  orders_of_bytes, md_update_bytes, md_update_of_bytes,
}
use stakan.Wire.{Order, MdUpdate, OrderFits, OrdersFit, MdUpdateFits}

pub length-le_bytes : (k v : ℕ) → length (le_bytes k v) ≡ k
unfolding le_bytes
length-le_bytes zero v = refl
length-le_bytes (suc k) v = ap suc (length-le_bytes k (v / 256))

pub of_le_bytes-le_bytes : (k v : ℕ) → v < 256 ^ k → of_le_bytes (le_bytes k v) ≡ v
unfolding le_bytes of_le_bytes
of_le_bytes-le_bytes zero v h = omega arith
of_le_bytes-le_bytes (suc k) v h = omega (arith, of_le_bytes-le_bytes k (v / 256) (shrink h))
  where
    shrink : v < 256 ^ suc k → v / 256 < 256 ^ k
    shrink p = omega (arith, pow-suc 256 k)

module _ {ℓ} {A : Type ℓ} where
  pub take-append : (xs ys : List A) (n : ℕ) → length xs ≡ n → take n (xs ++ ys) ≡ xs
  take-append [] ys zero e = refl
  take-append [] ys (suc n) e = absurd (omega arith)
  take-append (x ∷ xs) ys zero e = absurd (omega arith)
  take-append (x ∷ xs) ys (suc n) e = ap (◌∷◌ x) (take-append xs ys n (omega arith))

  pub drop-append : (xs ys : List A) (n : ℕ) → length xs ≡ n → drop n (xs ++ ys) ≡ ys
  drop-append [] ys zero e = refl
  drop-append [] ys (suc n) e = absurd (omega arith)
  drop-append (x ∷ xs) ys zero e = absurd (omega arith)
  drop-append (x ∷ xs) ys (suc n) e = drop-append xs ys n (omega arith)

  -- Reading past a first part of `n` bytes.
  pub drop-append_more :
      (xs ys : List A) (n at k : ℕ) → length xs ≡ n → n + at ≡ k → drop k (xs ++ ys) ≡ drop at ys
  drop-append_more [] ys n at k e f = ap (λ j. drop j ys) (omega arith)
  drop-append_more (x ∷ xs) ys n at zero e f = absurd (omega arith)
  drop-append_more (x ∷ xs) ys n at (suc k) e f =
      drop-append_more xs ys (length xs) at k refl (omega arith)

abbrev pub AllU64 : List ℕ → Type 0
AllU64 [] = Unit {0}
AllU64 (v ∷ vs) = IsU64 v × AllU64 vs

pub length-words_bytes : (vs : List ℕ) → length (words_bytes vs) ≡ 8 * length vs
unfolding words_bytes
length-words_bytes [] = omega arith
length-words_bytes (v ∷ vs) = omega (
  arith,
  length-append {0} (le_bytes 8 v) (words_bytes vs),
  length-le_bytes 8 v,
  length-words_bytes vs,
)

-- Field number `i` stands at byte `8 * i`.
pub read_word :
    (vs : List ℕ) (i at : ℕ)
    → AllU64 vs
    → i < length vs
    → 8 * i ≡ at
    → of_le_bytes (bytes_at (words_bytes vs) at 8) ≡ get_or vs i 0
unfolding words_bytes
read_word [] i at h lt e = elim lt [ ]
read_word (v ∷ vs) zero zero h lt e =
    rw (take-append (le_bytes 8 v) (words_bytes vs) 8 (length-le_bytes 8 v))
      (of_le_bytes-le_bytes 8 v h.0)
read_word (v ∷ vs) zero (suc at) h lt e = absurd (omega arith)
read_word (v ∷ vs) (suc i) at h lt e =
    ap (λ bs. of_le_bytes (take 8 bs))
      (drop-append_more (le_bytes 8 v) (words_bytes vs) 8 (8 * i) at (length-le_bytes 8 v)
        (omega arith))
    ∙ read_word vs i (8 * i) h.1 (omega arith) refl

pub length-order_bytes : (o : Order) → length (order_bytes o) ≡ 24
unfolding order_bytes
length-order_bytes o = length-words_bytes (o.id ∷ o.price ∷ o.quantity ∷ [])

pub order_of_bytes-order_bytes : (o : Order) → OrderFits o → order_of_bytes (order_bytes o) ≡ o
unfolding order_bytes order_of_bytes
order_of_bytes-order_bytes o h = λ i. record {
  id = read 0 0 (omega arith) refl i;
  price = read 1 8 (omega arith) refl i;
  quantity = read 2 16 (omega arith) refl i;
}
  where
    read :
        (i at : ℕ)
        → i < 3
        → 8 * i ≡ at
        → of_le_bytes (bytes_at (order_bytes o) at 8)
          ≡ get_or (o.id ∷ o.price ∷ o.quantity ∷ []) i 0
    read i at = read_word (o.id ∷ o.price ∷ o.quantity ∷ []) i at (omega arith)

pub length-orders_bytes : (os : List Order) → length (orders_bytes os) ≡ 24 * length os
unfolding orders_bytes
length-orders_bytes [] = omega arith
length-orders_bytes (o ∷ os) = omega (
  arith,
  length-append {0} (order_bytes o) (orders_bytes os),
  length-order_bytes o,
  length-orders_bytes os,
)

pub orders_of_bytes-orders_bytes :
    (n : ℕ) (os : List Order)
    → length os ≡ n
    → OrdersFit os
    → orders_of_bytes n (orders_bytes os) ≡ os
unfolding orders_bytes orders_of_bytes
orders_of_bytes-orders_bytes zero [] e h = refl
orders_of_bytes-orders_bytes (suc n) [] e h = absurd (omega arith)
orders_of_bytes-orders_bytes zero (o ∷ os) e h = absurd (omega arith)
orders_of_bytes-orders_bytes (suc n) (o ∷ os) e h = rw (
  take-append (order_bytes o) (orders_bytes os) 24 (length-order_bytes o),
  drop-append (order_bytes o) (orders_bytes os) 24 (length-order_bytes o),
  order_of_bytes-order_bytes o h.0,
  orders_of_bytes-orders_bytes n os (omega arith) h.1,
)

abbrev md_update_words : MdUpdate → List ℕ
md_update_words u =
    u.best_bid_price ∷ u.best_bid_qty ∷ u.best_ask_price ∷ u.best_ask_qty ∷ u.total_bid_qty
    ∷ u.total_ask_qty ∷ []

pub length-md_update_bytes : (u : MdUpdate) → length (md_update_bytes u) ≡ 48
unfolding md_update_bytes
length-md_update_bytes u = length-words_bytes (md_update_words u)

pub md_update_of_bytes-md_update_bytes :
    (u : MdUpdate) → MdUpdateFits u → md_update_of_bytes (md_update_bytes u) ≡ u
unfolding md_update_bytes md_update_of_bytes
md_update_of_bytes-md_update_bytes u h = λ i. record {
  best_bid_price = read 0 0 (omega arith) refl i;
  best_bid_qty = read 1 8 (omega arith) refl i;
  best_ask_price = read 2 16 (omega arith) refl i;
  best_ask_qty = read 3 24 (omega arith) refl i;
  total_bid_qty = read 4 32 (omega arith) refl i;
  total_ask_qty = read 5 40 (omega arith) refl i;
}
  where
    read :
        (i at : ℕ)
        → i < 6
        → 8 * i ≡ at
        → of_le_bytes (bytes_at (md_update_bytes u) at 8) ≡ get_or (md_update_words u) i 0
    read i at = read_word (md_update_words u) i at (omega arith)
