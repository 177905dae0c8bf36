-- ===== src/TcpClient/Callbacks.antt =====
-- What the callbacks of `TcpClient` say of the connection.
use mathlib.Core.Path.{subst}
use stakan.Base.{
  ℕ, ◌≡◌, refl, ap, ◌∙◌, sym, Bool, true, false, not, List, [], ◌∷◌, ◌++◌, Result, ok, err, ◌>>=◌,
  Bool-cases, inl, inr, if◌then◌else◌, if_true, if_false,
}
use stakan.TcpClient.{
  Callback, on_connected, on_disconnected, on_error, on_top_of_book, on_md_update,
}
use stakan.TcpClient.Connection.{
  TcpClient, Thread, no_thread, reading, ended, new_tcp_client, call, connect, disconnect,
  reader_throws, send_line, subscribe, unsubscribe, start_thread, thread_throws, join, Event,
  connects, disconnects, loses, subscribes, unsubscribes, handle, run,
}

-- `OnConnected` or `OnDisconnected`, whichever was called last.
unfoldable pub last_call : Bool → List Callback → Bool
last_call on [] = on
last_call on (on_connected ∷ fs) = last_call true fs
last_call on (on_disconnected ∷ fs) = last_call false fs
last_call on (on_error ∷ fs) = last_call on fs
last_call on (on_top_of_book s ∷ fs) = last_call on fs
last_call on (on_md_update u ∷ fs) = last_call on fs

pub last_call-append :
    (on : Bool) (fs gs : List Callback) → last_call on (fs ++ gs) ≡ last_call (last_call on fs) gs
unfolding last_call
last_call-append on [] gs = refl
last_call-append on (on_connected ∷ fs) gs = last_call-append true fs gs
last_call-append on (on_disconnected ∷ fs) gs = last_call-append false fs gs
last_call-append on (on_error ∷ fs) gs = last_call-append on fs gs
last_call-append on (on_top_of_book s ∷ fs) gs = last_call-append on fs gs
last_call-append on (on_md_update u ∷ fs) gs = last_call-append on fs gs

-- The client is connected as its callbacks say, from what was said at first.
abbrev pub IsHonest : Bool → TcpClient → Type 0
IsHonest on c = c.connected ≡ last_call on c.calls

abbrev pub AllHonest : Bool → Result (TcpClient × Bool) → Type 0
AllHonest on (ok (c, done)) = IsHonest on c
AllHonest on (err e) = Unit {0}

-- A callback that says what the field says.
call-IsHonest :
    (on : Bool) (c : TcpClient) (f : Callback)
    → c.connected ≡ last_call (last_call on c.calls) (f ∷ [])
    → IsHonest on (call c f)
call-IsHonest on c f e = e ∙ sym (last_call-append on c.calls (f ∷ []))

started-AllHonest :
    (on : Bool) (c : TcpClient) (thread : Thread)
    → IsHonest on c
    → AllHonest on (start_thread c thread)
started-AllHonest on c no_thread h = h
started-AllHonest on c reading h = tt
started-AllHonest on c ended h = tt

pub connect-AllHonest :
    (on : Bool) (c : TcpClient) (reachable : Bool)
    → IsHonest on c
    → AllHonest on (connect c reachable)
unfolding connect last_call
connect-AllHonest on c reachable h = elim (Bool-cases c.connected) [
  | inl up ↦ subst (AllHonest on) (sym (if_true _ _ up)) h
  | inr down ↦ subst (AllHonest on) (sym (if_false _ _ down)) (tried reachable)
]
  where
    tried :
        (reachable : Bool)
        → AllHonest on (
            if reachable
            then start_thread (call (record c { connected = true }) on_connected) c.io_thread
            else ok (call c on_error, false))
    tried true =
        started-AllHonest on (call (record c { connected = true }) on_connected) c.io_thread
          (call-IsHonest on (record c { connected = true }) on_connected refl)
    tried false = call-IsHonest on c on_error h

joined-IsHonest :
    (on : Bool) (c : TcpClient) (thread : Thread) (by_exception : Bool)
    → IsHonest on (call (join (record c { connected = false }) thread by_exception) on_disconnected)
unfolding last_call
joined-IsHonest on c no_thread b =
    call-IsHonest on (record c { connected = false }) on_disconnected refl
joined-IsHonest on c reading true =
    call-IsHonest on (call (record c { connected = false; io_thread = no_thread }) on_disconnected)
      on_disconnected refl
joined-IsHonest on c reading false =
    call-IsHonest on (record c { connected = false; io_thread = no_thread }) on_disconnected refl
joined-IsHonest on c ended b =
    call-IsHonest on (record c { connected = false; io_thread = no_thread }) on_disconnected refl

pub disconnect-IsHonest :
    (on : Bool) (c : TcpClient) (by_exception : Bool)
    → IsHonest on c
    → IsHonest on (disconnect c by_exception)
unfolding disconnect
disconnect-IsHonest on c b h = elim (Bool-cases c.connected) [
  | inl up ↦ subst (IsHonest on) (sym (if_true _ _ up)) (joined-IsHonest on c c.io_thread b)
  | inr down ↦ subst (IsHonest on) (sym (if_false _ _ down)) h
]

thread_throws-IsHonest :
    (on : Bool) (c : TcpClient) (thread : Thread)
    → IsHonest on c
    → IsHonest on (thread_throws c thread)
unfolding last_call
thread_throws-IsHonest on c no_thread h = h
thread_throws-IsHonest on c reading h =
    call-IsHonest on (record c { connected = false; io_thread = ended }) on_disconnected refl
thread_throws-IsHonest on c ended h = h

pub reader_throws-IsHonest :
    (on : Bool) (c : TcpClient) → IsHonest on c → IsHonest on (reader_throws c)
unfolding reader_throws
reader_throws-IsHonest on c h = thread_throws-IsHonest on c c.io_thread h

send_line-IsHonest :
    (on : Bool) (c : TcpClient) (line : List ℕ) (writes : Bool)
    → IsHonest on c
    → IsHonest on (send_line c line writes).0
unfolding send_line
send_line-IsHonest on c line writes h = elim (Bool-cases c.connected) [
  | inl up ↦
      subst (λ (r : TcpClient × Bool). IsHonest on r.0) (sym (if_false _ _ (ap not up)))
        (written writes)
  | inr down ↦ subst (λ (r : TcpClient × Bool). IsHonest on r.0) (sym (if_true _ _ (ap not down))) h
]
  where
    written :
        (writes : Bool)
        → (let r : TcpClient × Bool =
              (if writes
                then (record c { written = c.written ++ (line ∷ []) }, true)
                else (call c on_error, false)) in
            IsHonest on r.0)
    written true = h
    written false = call-IsHonest on c on_error (unfold last_call in h)

abbrev HonestAtEnd : Bool → Result TcpClient → Type 0
HonestAtEnd on (ok c) = IsHonest on c
HonestAtEnd on (err e) = Unit {0}

connected-HonestAtEnd :
    (on : Bool) (r : Result (TcpClient × Bool))
    → AllHonest on r
    → HonestAtEnd on (r >>= λ p. ok p.0)
connected-HonestAtEnd on (ok (c, done)) h = h
connected-HonestAtEnd on (err e) h = tt

handle-HonestAtEnd :
    (on : Bool) (c : TcpClient) (e : Event) → IsHonest on c → HonestAtEnd on (handle c e)
unfolding handle subscribe unsubscribe
handle-HonestAtEnd on c (connects reachable) h =
    connected-HonestAtEnd on (connect c reachable) (connect-AllHonest on c reachable h)
handle-HonestAtEnd on c (disconnects by_exception) h = disconnect-IsHonest on c by_exception h
handle-HonestAtEnd on c loses h = reader_throws-IsHonest on c h
handle-HonestAtEnd on c (subscribes symbol writes) h = send_line-IsHonest on c _ writes h
handle-HonestAtEnd on c (unsubscribes symbol writes) h = send_line-IsHonest on c _ writes h

run-HonestAtEnd :
    (on : Bool) (r : Result TcpClient) (es : List Event)
    → HonestAtEnd on r
    → HonestAtEnd on (r >>= λ c. run c es)
unfolding run
run-HonestAtEnd on (err e) es h = tt
run-HonestAtEnd on (ok c) [] h = h
run-HonestAtEnd on (ok c) (e ∷ es) h =
    run-HonestAtEnd on (handle c e) es (handle-HonestAtEnd on c e h)

-- After any calls on a new client that leave the program running, and any losses of the connection,
-- the client is connected exactly when the last of its callbacks on the connection was `OnConnected`.
pub callbacks_tell_connection :
    (es : List Event) (c : TcpClient)
    → run new_tcp_client es ≡ ok c
    → c.connected ≡ last_call false c.calls
callbacks_tell_connection es c e =
    subst (HonestAtEnd false) e (run-HonestAtEnd false (ok new_tcp_client) es fresh)
  where
    fresh : IsHonest false new_tcp_client
    fresh = unfold new_tcp_client last_call in refl
