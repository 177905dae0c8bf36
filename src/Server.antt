-- ===== src/Server.antt =====
-- src/TCP_server/tcpserver.cpp: the messages of the sessions and the list of clients. The accept
-- loop only makes sessions.
pub mod History
pub mod Listener
pub mod Lifetimes
pub mod Pace
pub mod Hello
pub mod Admission
pub mod Newcomers
pub mod Reconnect
use stakan.Base.{
  ℕ, zero, suc, ◌+◌, ◌-◌, Bool, true, false, ◌&&◌, ◌||◌, not, List, [], ◌∷◌, ◌++◌, Option, none,
  some, Result, ok, err, ◌>>=◌, or_fail, undefined, if◌then◌else◌, ◌==◌, ltb, leb, length, get_or,
  add64, mul64, codes, decimal,
}
use stakan.Clients.{
  ClientList, SessionPtr, add_session, remove_session, subscribe, get_session,
  find_client_id_by_session,
}
use stakan.Clients.Inbox.{Delivery}

-- `frame[i]`. Every index of the code is below the length.
unfoldable pub byte_at : List ℕ → ℕ → ℕ
byte_at frame i = get_or frame i 0

abbrev pub is_trailing : ℕ → Bool
is_trailing c = c == 10 || c == 13 || c == 32

-- The first loop, with `end` for the last argument.
unfoldable pub trim_end : List ℕ → ℕ → ℕ
unfolding byte_at
trim_end frame zero = zero
trim_end frame (suc n) =
    let shorter = trim_end frame n in if is_trailing (byte_at frame n) then shorter else suc n

-- The second loop, with the number of bytes before `end` for the fuel: `beg` stops there.
unfoldable pub trim_begin : List ℕ → ℕ → ℕ → ℕ
unfolding byte_at
trim_begin frame zero beg = beg
trim_begin frame (suc n) beg =
    let later = trim_begin frame n (suc beg) in if byte_at frame beg == 32 then later else beg

abbrev pub hello : List ℕ
hello = codes "HELLO"

-- The third loop: the bytes from `beg` are these.
unfoldable pub matches : List ℕ → ℕ → List ℕ → Bool
unfolding byte_at
matches frame beg [] = true
matches frame beg (c ∷ cs) =
    let rest = matches frame (suc beg) cs in if byte_at frame beg == c then rest else false

-- The last loop, over `n` bytes from index `i`.
unfoldable pub parse_digits : List ℕ → ℕ → ℕ → ℕ → ℕ
unfolding byte_at mul64 add64
parse_digits frame zero i id = id
parse_digits frame (suc n) i id =
    let c = byte_at frame i in
    let next = parse_digits frame n (suc i) (add64 (mul64 id 10) (c - 48)) in
    if ltb c 48 || ltb 57 c then 0 else next

unfoldable pub parse_client_id : List ℕ → ℕ
unfolding trim_end trim_begin matches parse_digits byte_at
parse_client_id frame =
    let end_ = trim_end frame (length frame) in
    let beg = trim_begin frame end_ 0 in
    if leb end_ beg
    then 0
    else if ltb (end_ - beg) 7
    then 0
    else if not (matches frame beg hello)
    then 0
    else if not (byte_at frame (beg + 5) == 32)
    then 0
    else parse_digits frame (end_ - (beg + 6)) (beg + 6) 0

-- What a handler does to the sessions.
pub data Effect : Type 0 where
  sends_msg : ℕ → List ℕ → Effect
  stops : ℕ → Effect

unfoldable pub bad_hello_response : List ℕ
bad_hello_response = codes "ERR expected `HELLO <client_id>`" ++ (10 ∷ [])

unfoldable pub reconnected_response : List ℕ
reconnected_response = codes "INFO disconnected: reconnected from another socket" ++ (10 ∷ [])

unfoldable pub ok_response : ℕ → List ℕ
ok_response id = codes "OK HELLO " ++ decimal id ++ (10 ∷ [])

-- The notice to the session that another one replaces.
unfoldable pub farewell : SessionPtr → ℕ → List Effect
unfolding reconnected_response
farewell none session = []
farewell (some old) session =
    if old == session then [] else sends_msg old reconnected_response ∷ stops old ∷ []

unfoldable pub handle_message : ClientList → List ℕ → ℕ → Result (ClientList × List Effect)
unfolding parse_client_id farewell bad_hello_response ok_response
handle_message l frame session =
    let client_id = parse_client_id frame in
    if client_id == 0 then ok (l, sends_msg session bad_hello_response ∷ []) else do
      old_session ← get_session l client_id
      m ← subscribe (add_session l client_id (some session)) client_id
      ok (m, farewell old_session session ++ (sends_msg session (ok_response client_id) ∷ []))

unfoldable pub handle_disconnect : ClientList → ℕ → Result ClientList
handle_disconnect l session = elim (find_client_id_by_session l session) [
  | none ↦ ok l
  | some client_id ↦ get_session l client_id >>= λ current. elim current [
    | none ↦ ok l
    | some s ↦ if s == session then ok (remove_session l client_id) else ok l
  ]
]
