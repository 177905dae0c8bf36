-- ===== src/Session/Accepted.antt =====
-- What a session has accepted, and what it must have done with it.
use stakan.Base.{
  ◌≤◌, ◌≡◌, ◌⊎◌, Bool, true, false, not, ◌&&◌, List, [], ◌∷◌, ◌++◌, drop, if◌then◌else◌,
}
use stakan.Session.{Session, Message}
use stakan.Session.History.{Event, sends, writes_done, reads_done, starts, stops, closes, handle}

-- What a message adds to the accepted ones: it counts when the session is connected and its
-- socket open.
unfoldable pub taken : Session → Message → List Message
taken s m = if s.is_open && not s.disconnected then m ∷ [] else []

-- What an event adds to them.
abbrev pub adds : Session → Event → List Message
adds s (sends m) = taken s m
adds s (writes_done e) = []
adds s (reads_done e m) = []
adds s starts = []
adds s stops = []
adds s closes = []

-- The messages that came while the session was connected and its socket open, the oldest first.
unfoldable pub accepted : Session → List Event → List Message
accepted s [] = []
accepted s (e ∷ es) = adds s e ++ accepted (handle s e) es

unfoldable pub any_left : List Message → Bool
any_left [] = false
any_left (m ∷ ms) = true

-- A connected session: all that was accepted is written or waits behind the chunk that is being
-- written, and a write is in progress exactly when the queue is not empty.
abbrev pub Live : Session → List Message → Type 0
Live s sent =
    (s.disconnected ≡ false)
    × (s.writes ++ drop 1 s.messages_queue ≡ sent)
    × (s.write_in_progress ≡ any_left s.messages_queue)
    × (s.disconnects ≡ 0)

-- A disconnected session: what was written is a first part of what was accepted.
abbrev pub Gone : Session → List Message → Type 0
Gone s sent =
    (s.disconnected ≡ true)
    × ((s.is_open ≡ false) ⊎ (s.messages_queue ≡ []))
    × ((lost : List Message) × (s.writes ++ lost ≡ sent))
    × (s.disconnects ≤ 1)

abbrev pub IsFifo : Session → List Message → Type 0
IsFifo s sent = Live s sent ⊎ Gone s sent
