-- ===== src/TcpClient/Lifetime.antt =====
-- A client whose reader thread has ended.
use stakan.Base.{
  ℕ, ◌≡◌, ◌⊎◌, refl, ap, ◌∙◌, Bool, true, false, not, List, [], ◌∷◌, Result, ok, err, ◌>>=◌,
  terminates, if_true, if_false, inl, inr,
}
use stakan.TcpClient.{on_connected}
use stakan.TcpClient.Connection.{
  call, TcpClient, ended, Event, connects, disconnects, loses, subscribes, unsubscribes, connect,
  disconnect, reader_throws, send_line, subscribe, unsubscribe, destroy, drop_thread, start_thread,
  thread_throws, handle, run,
}

-- The thread has ended, was not joined, and the client is not connected.
abbrev pub Lost : TcpClient → Type 0
Lost c = (c.connected ≡ false) × (c.io_thread ≡ ended)

connect-Lost :
    (c : TcpClient) (reachable : Bool)
    → Lost c
    → (connect c reachable >>= (λ r. ok r.0) ≡ err terminates)
      ⊎ ((d : TcpClient) × (connect c reachable >>= (λ r. ok r.0) ≡ ok d) × Lost d)
unfolding connect
connect-Lost c true (off, gone) = inl (
    ap (λ (r : Result (TcpClient × Bool)). r >>= λ p. ok p.0)
      (if_false _ _ off
        ∙ ap (start_thread (call (record c { connected = true }) on_connected)) gone))
connect-Lost c false (off, gone) =
    inr
      (_, ap (λ (r : Result (TcpClient × Bool)). r >>= λ p. ok p.0) (if_false _ _ off), (off, gone))

send_line-Lost :
    (c : TcpClient) (line : List ℕ) (writes : Bool) → Lost c → (send_line c line writes).0 ≡ c
unfolding send_line
send_line-Lost c line writes (off, gone) =
    ap (λ (r : TcpClient × Bool). r.0) (if_true _ _ (ap not off))

disconnect-Lost : (c : TcpClient) (by_exception : Bool) → Lost c → disconnect c by_exception ≡ c
unfolding disconnect
disconnect-Lost c by_exception (off, gone) = if_false _ _ off

reader_throws-Lost : (c : TcpClient) → Lost c → reader_throws c ≡ c
unfolding reader_throws
reader_throws-Lost c (off, gone) = ap (thread_throws c) gone

handle-Lost :
    (c : TcpClient) (e : Event)
    → Lost c
    → (handle c e ≡ err terminates) ⊎ ((d : TcpClient) × (handle c e ≡ ok d) × Lost d)
unfolding handle subscribe unsubscribe
handle-Lost c (connects reachable) h = connect-Lost c reachable h
handle-Lost c (disconnects by_exception) h = inr (c, ap ok (disconnect-Lost c by_exception h), h)
handle-Lost c loses h = inr (c, ap ok (reader_throws-Lost c h), h)
handle-Lost c (subscribes symbol writes) h = inr (c, ap ok (send_line-Lost c _ writes h), h)
handle-Lost c (unsubscribes symbol writes) h = inr (c, ap ok (send_line-Lost c _ writes h), h)

run-Lost :
    (c : TcpClient) (es : List Event)
    → Lost c
    → (run c es ≡ err terminates) ⊎ ((d : TcpClient) × (run c es ≡ ok d) × Lost d)
unfolding run
run-Lost c [] h = inr (c, refl, h)
run-Lost c (e ∷ es) h = elim (handle-Lost c e h) [
  | inl stops ↦ inl (ap (λ r. r >>= λ d. run d es) stops)
  | inr (d, next, kept) ↦ elim (run-Lost d es kept) [
    | inl stops ↦ inl (ap (λ r. r >>= λ d. run d es) next ∙ stops)
    | inr (m, after, lost) ↦ inr (m, ap (λ r. r >>= λ d. run d es) next ∙ after, lost)
  ]
]

destroy-Lost :
    (c : TcpClient) (by_exception : Bool) → Lost c → destroy c by_exception ≡ err terminates
unfolding destroy
destroy-Lost c by_exception h =
    ap (λ d. drop_thread d.io_thread) (disconnect-Lost c by_exception h) ∙ ap drop_thread h.1

-- A client that is not connected and whose reader thread has ended, and was not joined, is never
-- connected again: whatever is called, either the program ends, or the client is still not
-- connected, and then its destructor ends the program.
pub loss_is_final :
    (c : TcpClient) (es : List Event) (by_exception : Bool)
    → c.connected ≡ false
    → c.io_thread ≡ ended
    → (run c es ≡ err terminates)
      ⊎ ((d : TcpClient) × (run c es ≡ ok d)
          × (d.connected ≡ false)
          × (destroy d by_exception ≡ err terminates))
loss_is_final c es by_exception off gone = elim (run-Lost c es (off, gone)) [
  | inl stops ↦ inl stops
  | inr (d, r, lost) ↦ inr (d, r, lost.0, destroy-Lost d by_exception lost)
]
