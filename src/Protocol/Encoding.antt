-- ===== src/Protocol/Encoding.antt =====
-- What a receiver can read back from the bytes of a message.
use mathlib.Core.Path.{subst}
use mathlib.Core.List.{append-nil}
use stakan.Base.{
  ℕ, zero, suc, ◌+◌, ◌*◌, ◌/◌, ◌%◌, ◌<◌, ◌≡◌, refl, sym, ap, ◌∙◌, ◌↔◌, List, [], ◌∷◌, ◌++◌, Option,
  none, some, length, length-drop, length-append, map, take, drop, if◌then◌else◌, ◌==◌, arith,
}
use stakan.Protocol.{
  MessageType, new_order, cancel_order, replace_order, snapshot_request, snapshot_response,
  market_data_update, subscribe, unsubscribe, type_number, SubscriptionMessage,
  serialize_subscription,
}

-- The type with a number.
abbrev pub type_of_number : ℕ → Option MessageType
type_of_number n =
    if n == 1
    then some new_order
    else if n == 2
    then some cancel_order
    else if n == 3
    then some replace_order
    else if n == 10
    then some snapshot_request
    else if n == 11
    then some snapshot_response
    else if n == 12
    then some market_data_update
    else if n == 20
    then some subscribe
    else if n == 21
    then some unsubscribe
    else none

with_type : Option MessageType → List ℕ → Option SubscriptionMessage
with_type none symbol = none
with_type (some type_) symbol = some (record { type_ = type_; symbol = symbol })

-- The length of the symbol stands in the second and the third byte, the high one first. What follows
-- the symbol is the next message.
unfoldable pub parse_subscription : List ℕ → Option SubscriptionMessage × List ℕ
unfolding with_type
parse_subscription (t ∷ high ∷ low ∷ rest) =
    let len = high * 256 + low in (with_type (type_of_number t) (take len rest), drop len rest)
parse_subscription bytes = (none, bytes)

type_of_number-type_number : (t : MessageType) → type_of_number (type_number t % 256) ≡ some t
unfolding type_number
type_of_number-type_number new_order = refl
type_of_number-type_number cancel_order = refl
type_of_number-type_number replace_order = refl
type_of_number-type_number snapshot_request = refl
type_of_number-type_number snapshot_response = refl
type_of_number-type_number market_data_update = refl
type_of_number-type_number subscribe = refl
type_of_number-type_number unsubscribe = refl

two_bytes : (n : ℕ) → (n % 65536) / 256 % 256 % 256 * 256 + (n % 65536) % 256 % 256 ≡ n % 65536
two_bytes n = omega arith

take-append : (xs ys : List ℕ) → take (length xs) (xs ++ ys) ≡ xs
take-append [] ys = refl
take-append (x ∷ xs) ys = ap (λ zs. x ∷ zs) (take-append xs ys)

drop-append : (xs ys : List ℕ) → drop (length xs) (xs ++ ys) ≡ ys
drop-append [] ys = refl
drop-append (x ∷ xs) ys = drop-append xs ys

-- Whatever the length of the symbol, the receiver takes as many bytes as the 16 bits say.
parse-serialize_any :
    (msg : SubscriptionMessage) (more : List ℕ)
    → parse_subscription (serialize_subscription msg ++ more) ≡ (
        let len = length msg.symbol % 65536 in
        (
          some (record msg { symbol = take len (msg.symbol ++ more) }),
          drop len (msg.symbol ++ more),
        ))
unfolding parse_subscription serialize_subscription
parse-serialize_any msg more =
    rw (two_bytes (length msg.symbol), type_of_number-type_number msg.type_) refl

-- A symbol of less than 65,536 bytes comes back, and so does what follows the message.
pub parse-serialize_subscription :
    (msg : SubscriptionMessage) (more : List ℕ)
    → length msg.symbol < 65536
    → parse_subscription (serialize_subscription msg ++ more) ≡ (some msg, more)
parse-serialize_subscription msg more short =
    parse-serialize_any msg more
    ∙ ap
        (λ len. (
          some (record msg { symbol = take len (msg.symbol ++ more) }),
          drop len (msg.symbol ++ more),
        ))
        whole
    ∙ ap
        (λ symbol.
          (some (record msg { symbol = symbol }), drop (length msg.symbol) (msg.symbol ++ more)))
        (take-append msg.symbol more)
    ∙ ap (λ rest. (some msg, rest)) (drop-append msg.symbol more)
  where
    whole : length msg.symbol % 65536 ≡ length msg.symbol
    whole = omega arith

-- The messages that a buffer holds, for some number of messages, and the bytes that are left.
unfoldable pub parse_all : ℕ → List ℕ → List (Option SubscriptionMessage) × List ℕ
parse_all zero bytes = ([], bytes)
parse_all (suc n) bytes =
    let (first, rest) = parse_subscription bytes in
    let (others, left) = parse_all n rest in (first ∷ others, left)

-- The buffer with the bytes of some messages, one after the other, and then others.
unfoldable pub serialize_all : List SubscriptionMessage → List ℕ → List ℕ
serialize_all [] more = more
serialize_all (msg ∷ msgs) more = serialize_subscription msg ++ serialize_all msgs more

abbrev pub AllShort : List SubscriptionMessage → Type 0
AllShort [] = Unit {0}
AllShort (msg ∷ msgs) = (length msg.symbol < 65536) × AllShort msgs

-- Subscriptions that are written one after the other, with symbols of less than 65,536 bytes, are
-- read back in order, whatever follows them.
pub parse_all-serialize_all :
    (msgs : List SubscriptionMessage) (more : List ℕ)
    → AllShort msgs
    → parse_all (length msgs) (serialize_all msgs more) ≡ (map some msgs, more)
unfolding parse_all serialize_all
parse_all-serialize_all [] more h = refl
parse_all-serialize_all (msg ∷ msgs) more (short, h) =
    rw
      (
        parse-serialize_subscription msg (serialize_all msgs more) short,
        parse_all-serialize_all msgs more h,
      )
      refl

-- A single message is read back as it was sent, with nothing left over, exactly when its symbol has
-- less than 65,536 bytes: the length of a longer one is cut to 16 bits.
pub serialize_subscription_exact :
    (msg : SubscriptionMessage)
    → (parse_subscription (serialize_subscription msg) ≡ (some msg, []))
      ↔ (length msg.symbol < 65536)
serialize_subscription_exact msg = (
  needs,
  λ short.
      subst (λ bytes. parse_subscription bytes ≡ (some msg, [])) (append-nil _)
        (parse-serialize_subscription msg [] short),
)
  where
    needs :
        parse_subscription (serialize_subscription msg) ≡ (some msg, []) → length msg.symbol < 65536
    needs e =
        let len = length msg.symbol in
        let nothing_left : length (drop (len % 65536) (msg.symbol ++ [])) ≡ 0 =
          ap (λ (r : Option SubscriptionMessage × List ℕ). length r.1)
            (sym (parse-serialize_any msg []) ∙ ap parse_subscription (append-nil _) ∙ e) in
        omega (
          arith,
          nothing_left,
          length-drop (len % 65536) (msg.symbol ++ []),
          length-append msg.symbol [],
        )
