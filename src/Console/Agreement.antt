-- ===== src/Console/Agreement.antt =====
-- The field `connected_` of the console's client against what the library's client says of itself.
use mathlib.Core.Path.{subst}
use stakan.Base.{
  Output, ℕ, ◌≡◌, refl, ap, ◌∙◌, sym, Bool, true, false, not, List, [], ◌∷◌, ◌++◌, some, Result, ok,
  err, ◌>>=◌, or_fail, undefined, Result-cases, Bool-cases, inl, inr, if_true, if_false,
}
use stakan.Console.SnapshotClient.{
  Config, Signal, on_connected, on_disconnected, on_snapshot, on_error, LibraryCalls,
  SnapshotConsoleClient, handle_signal, handle_signals, call, connect_to_server,
  disconnect_from_server, fetch_snapshot,
}

-- What the callbacks said last of the connection.
unfoldable pub last_told : {Snapshot : Type 0} → Bool → List (Signal Snapshot) → Bool
last_told on [] = on
last_told on (on_connected ∷ ss) = last_told true ss
last_told on (on_disconnected ∷ ss) = last_told false ss
last_told on (on_snapshot s ∷ ss) = last_told on ss
last_told on (on_error m ∷ ss) = last_told on ss

-- The calls of the application, and the library's own thread.
pub data Event : Type 0 where
  connects : List ℕ → ℕ → Event
  disconnects fetches : Event
  works : ℕ → Event

module _ {Client Snapshot : Type 0} (calls : LibraryCalls Client Snapshot) where
  -- A call tells of each change of the connection.
  abbrev pub Tells : (Client → Result (Client × List (Signal Snapshot))) → Type 0
  Tells f =
      (c d : Client) (signals : List (Signal Snapshot))
      → f c ≡ ok (d, signals)
      → calls.is_connected d ≡ last_told (calls.is_connected c) signals

  -- What is asked of the library. Of `Disconnect` only that it ends the connection: it may tell nothing.
  pub record TellsAll : Type 0 where
    pub connect_tells :
        (config : Config) → Tells (λ c. calls.connect config (calls.set_callbacks c))
    pub start_tells : Tells calls.start
    pub request_tells : Tells calls.request_snapshot
    pub works_tells : (n : ℕ) → Tells (calls.works n)
    pub disconnect_ends :
        (c d : Client) (signals : List (Signal Snapshot))
        → calls.disconnect c ≡ ok (d, signals)
        → calls.is_connected d ≡ false

  unfoldable pub handle :
      SnapshotConsoleClient Client Snapshot
      → Event
      → Result (SnapshotConsoleClient Client Snapshot × List Output)
  handle c (connects host port) = connect_to_server calls c host port
  handle c disconnects = disconnect_from_server calls c
  handle c fetches = fetch_snapshot calls c
  handle c (works n) = call (calls.works n) c

  unfoldable pub run :
      SnapshotConsoleClient Client Snapshot
      → List Event
      → Result (SnapshotConsoleClient Client Snapshot)
  unfolding handle
  run c [] = ok c
  run c (e ∷ es) = handle c e >>= λ later. run later.0 es

  -- The library's client is there and is connected as the console says.
  abbrev pub Agrees : SnapshotConsoleClient Client Snapshot → Type 0
  Agrees c =
      (client : Client) × (c.client ≡ some client) × (c.connected ≡ calls.is_connected client)

  abbrev Holds : Result (SnapshotConsoleClient Client Snapshot × List Output) → Type 0
  Holds (ok (c, told)) = Agrees c
  Holds (err e) = Unit {0}

  handle_signals_connected :
      (c : SnapshotConsoleClient Client Snapshot) (signals : List (Signal Snapshot))
      → ((handle_signals c signals).0.client ≡ c.client)
        × ((handle_signals c signals).0.connected ≡ last_told c.connected signals)
  unfolding handle_signals handle_signal last_told
  handle_signals_connected c [] = (refl, refl)
  handle_signals_connected c (on_connected ∷ ss) =
      handle_signals_connected (record c { connected = true }) ss
  handle_signals_connected c (on_disconnected ∷ ss) =
      handle_signals_connected (record c { connected = false }) ss
  handle_signals_connected c (on_snapshot s ∷ ss) = handle_signals_connected c ss
  handle_signals_connected c (on_error m ∷ ss) = handle_signals_connected c ss

  call_of_client :
      (f : Client → Result (Client × List (Signal Snapshot)))
      (c : SnapshotConsoleClient Client Snapshot) (client : Client)
      → c.client ≡ some client
      → call f c ≡ (f client >>= λ r. ok (handle_signals (record c { client = some r.0 }) r.1))
  unfolding call
  call_of_client f c client there =
      ap
        (λ o. or_fail o undefined >>= λ client.
          f client >>= λ r. ok (handle_signals (record c { client = some r.0 }) r.1))
        there

  -- A call that tells keeps the agreement.
  call-Holds :
      (f : Client → Result (Client × List (Signal Snapshot)))
      (c : SnapshotConsoleClient Client Snapshot)
      → Tells f
      → Agrees c
      → Holds (call f c)
  call-Holds f c tells (client, there, agrees) =
      subst Holds (sym (call_of_client f c client there)) (elim (Result-cases (f client)) [
        | inr (fault, e) ↦ rw e tt
        | inl ((d, signals), e) ↦
            let (keeps, follows) =
              handle_signals_connected (record c { client = some d }) signals in
            rw e (
              d,
              keeps,
              follows ∙ ap (λ on. last_told on signals) agrees ∙ sym (tells client d signals e),
            )
      ])

  then-Holds :
      (r : Result (SnapshotConsoleClient Client Snapshot × List Output))
      (next : SnapshotConsoleClient Client Snapshot × List Output
        → Result (SnapshotConsoleClient Client Snapshot × List Output))
      → Holds r
      → ((c : SnapshotConsoleClient Client Snapshot) (told : List Output)
          → Agrees c
          → Holds (next (c, told)))
      → Holds (r >>= next)
  then-Holds (err e) next h k = tt
  then-Holds (ok (c, told)) next h k = k c told h

  more-Holds :
      (first : List Output) (r : Result (SnapshotConsoleClient Client Snapshot × List Output))
      → Holds r
      → Holds (r >>= λ p. ok (p.0, first ++ p.1))
  more-Holds first (err e) h = tt
  more-Holds first (ok (c, told)) h = h

  -- After `Disconnect` both say that there is no connection.
  disconnect-Holds :
      (c : SnapshotConsoleClient Client Snapshot)
      → TellsAll
      → Agrees c
      → Holds (disconnect_from_server calls c)
  unfolding disconnect_from_server
  disconnect-Holds c laws (client, there, agrees) =
      subst (λ r. Holds (r >>= λ p. ok (record p.0 { connected = false }, p.1)))
        (sym (call_of_client calls.disconnect c client there))
        (elim (Result-cases (calls.disconnect client)) [
          | inr (fault, e) ↦ rw e tt
          | inl ((d, signals), e) ↦ rw e (
            d,
            (handle_signals_connected (record c { client = some d }) signals).0,
            sym (laws.disconnect_ends client d signals e),
          )
        ])

  handle-Holds :
      (c : SnapshotConsoleClient Client Snapshot) (e : Event)
      → TellsAll
      → Agrees c
      → Holds (handle c e)
  unfolding handle connect_to_server fetch_snapshot
  handle-Holds c (connects host port) laws h =
      let config : Config = record { host = host; port = port; auto_reconnect = false } in
      then-Holds (call (λ client. calls.connect config (calls.set_callbacks client)) c) _
        (call-Holds _ c (laws.connect_tells config) h)
        (λ d first held.
          more-Holds first (call calls.start d) (call-Holds calls.start d laws.start_tells held))
  handle-Holds c disconnects laws h = disconnect-Holds c laws h
  handle-Holds c fetches laws h = elim (Bool-cases c.connected) [
    | inl on ↦
        subst Holds (sym (if_false _ _ (ap not on)))
          (call-Holds calls.request_snapshot c laws.request_tells h)
    | inr off ↦ subst Holds (sym (if_true _ _ (ap not off))) h
  ]
  handle-Holds c (works n) laws h = call-Holds (calls.works n) c (laws.works_tells n) h

  abbrev AgreesAtEnd : Result (SnapshotConsoleClient Client Snapshot) → Type 0
  AgreesAtEnd (ok c) = Agrees c
  AgreesAtEnd (err e) = Unit {0}

  run-AgreesAtEnd :
      (r : Result (SnapshotConsoleClient Client Snapshot × List Output)) (es : List Event)
      → TellsAll
      → Holds r
      → AgreesAtEnd (r >>= λ later. run later.0 es)
  unfolding run
  run-AgreesAtEnd (err e) es laws h = tt
  run-AgreesAtEnd (ok (c, told)) [] laws h = h
  run-AgreesAtEnd (ok (c, told)) (e ∷ es) laws h =
      run-AgreesAtEnd (handle c e) es laws (handle-Holds c e laws h)

  -- If the library tells of each change of its connection that `Disconnect` does not make, and is not connected
  -- after `Disconnect`, whether it tells of that or not, then after any calls that the program survives
  -- the console says of the connection what the library says.
  pub run-Agrees :
      (c d : SnapshotConsoleClient Client Snapshot) (es : List Event)
      → TellsAll
      → Agrees c
      → run c es ≡ ok d
      → Agrees d
  run-Agrees c d es laws h e = subst AgreesAtEnd e (run-AgreesAtEnd (ok (c, [])) es laws h)
