-- ===== src/Clients/Between.antt =====
-- The calls of src/client_list/client_list.cpp that first ask `has_client`, with other calls in between:
-- the test releases the mutex, and the rest of the call takes it again. `before` is the list that the
-- test finds, `now` the list that the rest finds. The calls that only read are left out.
use stakan.Base.{
  ℕ, true, false, Result, ok, err, ◌>>=◌, or_fail, runtime_error, out_of_range, undefined,
  if◌then◌else◌,
}
use stakan.Base.Map.{lookup}
use stakan.Clients.Orders.{add_order_to_side, remove_order_from_side}
use stakan.Clients.{ClientList, ClientContext, has_client, put_context, add_session, remove_session}
use stakan.Clients.History.{
  Call, adds_session, removes_session, adds_bid, adds_ask, removes_bid, removes_ask, subscribes,
  unsubscribes,
}

-- `has_client(id)`, and later `clients_.at(id)`, which throws on its own.
unfoldable pub client_between : ClientList → ClientList → ℕ → Result ClientContext
unfolding has_client
client_between before now id =
    if has_client before id then or_fail (lookup id now.clients) out_of_range else err runtime_error

unfoldable pub call_between : ClientList → ClientList → Call → Result ClientList
unfolding client_between
call_between before now (adds_session id session) = ok (add_session now id session)
call_between before now (removes_session id) = ok (remove_session now id)
call_between before now (adds_bid id bid) = do
  ctx ← client_between before now id
  order ← or_fail bid undefined
  ok (put_context now id (record ctx { bids = add_order_to_side ctx.bids order }))
call_between before now (adds_ask id ask) = do
  ctx ← client_between before now id
  order ← or_fail ask undefined
  ok (put_context now id (record ctx { asks = add_order_to_side ctx.asks order }))
call_between before now (removes_bid id order_id) = do
  ctx ← client_between before now id
  side ← remove_order_from_side ctx.bids order_id
  ok (put_context now id (record ctx { bids = side }))
call_between before now (removes_ask id order_id) = do
  ctx ← client_between before now id
  side ← remove_order_from_side ctx.asks order_id
  ok (put_context now id (record ctx { asks = side }))
call_between before now (subscribes id) = client_between before now id >>= λ ctx.
    ok (put_context now id (record ctx { subscribed = true }))
call_between before now (unsubscribes id) =
    client_between before now id >>= λ it. (let copy = record it { subscribed = false } in ok now)
