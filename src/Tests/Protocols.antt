-- ===== src/Tests/Protocols.antt =====
-- The messages of the trading protocol and the results of the database.
use stakan.Base.{ℕ, ◌<◌, ◌≡◌, ◌↔◌, refl, List, [], ◌∷◌, some, arith, codes, length}
use stakan.Protocol.{
  SubscriptionMessage, OrderEventMessage, cancel_order, subscribe, unsubscribe,
  serialize_subscription,
}
use stakan.Protocol.Encoding.{
  parse_subscription, parse_all, serialize_all, parse_all-serialize_all,
  serialize_subscription_exact,
}
use stakan.Database.{DbResult, monostate, contents, holds}

abbrev euro : SubscriptionMessage
euro = record { type_ = subscribe; symbol = codes "EURUSD" }

abbrev gold : SubscriptionMessage
gold = record { type_ = unsubscribe; symbol = codes "XAU" }

euro_bytes : serialize_subscription euro ≡ 20 ∷ 0 ∷ 6 ∷ 69 ∷ 85 ∷ 82 ∷ 85 ∷ 83 ∷ 68 ∷ []
unfolding serialize_subscription
euro_bytes = refl

parse_all-serialize_all_example :
    parse_all 2 (serialize_all (euro ∷ gold ∷ []) (9 ∷ [])) ≡ (some euro ∷ some gold ∷ [], 9 ∷ [])
parse_all-serialize_all_example =
    parse_all-serialize_all (euro ∷ gold ∷ []) (9 ∷ []) (omega arith, (omega arith, tt))

serialize_subscription_exact_example :
    (parse_subscription (serialize_subscription gold) ≡ (some gold, []))
    ↔ (length (codes "XAU") < 65536)
serialize_subscription_exact_example = serialize_subscription_exact gold

abbrev cancelled : OrderEventMessage
cancelled = record { type_ = cancel_order; price = 101; qty = 5; order_id = 9 }

data Column : Type 0 where
  number text : Column

Column-discrete : Discrete Column
Column-discrete = hlevel

abbrev Cell : Column → Type 0
Cell number = ℕ
Cell text = List ℕ

abbrev row_count : DbResult Cell
row_count = contents (holds number 3)

-- The success of an operation that gives no data.
abbrev no_rows : DbResult Cell
no_rows = monostate
