-- ===== src/Session/History.antt =====
-- The handlers of a session in any order.
use stakan.Base.{Bool, false, List, [], ◌∷◌}
use stakan.Session.{Session, Message, send_msg, process_write, process_read, read, stop}

-- A handler runs on the strand. `closes` is the socket that the peer or the system closed.
pub data Event : Type 0 where
  sends : Message → Event
  writes_done : Bool → Event
  reads_done : Bool → Message → Event
  starts stops closes : Event

unfoldable pub handle : Session → Event → Session
handle s (sends m) = send_msg s m
handle s (writes_done e) = process_write s e
handle s (reads_done e m) = process_read s e m
handle s starts = read s
handle s stops = stop s
handle s closes = record s { is_open = false }

unfoldable pub run : Session → List Event → Session
run s [] = s
run s (e ∷ es) = run (handle s e) es
