-- ===== src/Protocol.antt =====
-- src/protocol.cpp: the messages of the trading protocol as bytes.
pub mod Encoding
use stakan.Base.{ℕ, ◌+◌, ◌*◌, ◌/◌, ◌%◌, List, [], ◌∷◌, ◌++◌, length, map, replicate}

-- `MessageType`
pub data MessageType : Type 0 where
  new_order cancel_order replace_order snapshot_request snapshot_response : MessageType
  market_data_update subscribe unsubscribe : MessageType

-- The numbers of the enumeration.
unfoldable pub type_number : MessageType → ℕ
type_number new_order = 1
type_number cancel_order = 2
type_number replace_order = 3
type_number snapshot_request = 10
type_number snapshot_response = 11
type_number market_data_update = 12
type_number subscribe = 20
type_number unsubscribe = 21

-- `SubscriptionMessage`; the symbol is a string of bytes.
pub record SubscriptionMessage : Type 0 where
  pub type_ : MessageType
  pub symbol : List ℕ

-- `OrderEventMessage`
pub record OrderEventMessage : Type 0 where
  pub type_ : MessageType
  pub price : ℕ
  pub qty : ℕ
  pub order_id : ℕ

-- `OrderEventMessage{}`
abbrev pub default_event : OrderEventMessage
default_event = record { type_ = new_order; price = 0; qty = 0; order_id = 0 }

-- `static_cast<std::uint16_t>`
abbrev pub u16 : ℕ → ℕ
u16 n = n % 65536

-- `static_cast<std::uint8_t>`; a shift by 8 is a division by 256, and the mask 0xFF a remainder.
abbrev pub u8 : ℕ → ℕ
u8 n = n % 256

-- `SerializeSubscription`. The reserved size is no state.
unfoldable pub serialize_subscription : SubscriptionMessage → List ℕ
unfolding type_number
serialize_subscription msg =
    let len = u16 (length msg.symbol) in
    let with_type = u8 (type_number msg.type_) ∷ [] in
    let with_length = with_type ++ (u8 (len / 256 % 256) ∷ u8 (len % 256) ∷ []) in
    with_length ++ msg.symbol

-- `SerializeOrderEvent`, which ignores its argument.
unfoldable pub serialize_order_event : OrderEventMessage → List ℕ
serialize_order_event msg = replicate 17 0

-- `DeserializeOrderEvent`, which ignores its argument.
unfoldable pub deserialize_order_event : List ℕ → OrderEventMessage
deserialize_order_event data_ = default_event
