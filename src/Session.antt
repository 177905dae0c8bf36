-- ===== src/Session.antt =====
-- src/TCP_server/session.cpp: one connection, its queue of messages and its two callbacks. All
-- handlers run on the strand, one after the other, so each is a step on the state. The callbacks are set
-- and return.
pub mod History
pub mod Accepted
pub mod Writes
pub mod Sends
pub mod Fifo
use stakan.Base.{ℕ, suc, Bool, true, false, List, [], ◌∷◌, ◌++◌, if◌then◌else◌, not, ◌||◌}

-- A message, by its bytes.
abbrev pub Message : Type 0
Message = List ℕ

pub record Session : Type 0 where
  -- `socket_ && socket_->is_open()`
  pub is_open : Bool
  pub disconnected : Bool
  pub write_in_progress : Bool
  pub messages_queue : List Message
  -- What the session did: the chunks handed to `async_write`, the oldest first; the frames handed
  -- to `on_data_`; how often `on_disconnect_` was called.
  pub writes : List Message
  pub frames : List Message
  pub disconnects : ℕ

unfoldable pub new_session : Session
new_session = record {
  is_open = true;
  disconnected = false;
  write_in_progress = false;
  messages_queue = [];
  writes = [];
  frames = [];
  disconnects = 0;
}

unfoldable pub notify_disconnect_once : Session → Session
notify_disconnect_once s = if s.disconnected then s else record s {
  disconnected = true;
  write_in_progress = false;
  messages_queue = [];
  disconnects = suc s.disconnects;
}

-- `async_write` of the front of the queue.
unfoldable pub write_front : Session → List Message → Session
write_front s [] = record s { write_in_progress = false }
write_front s (chunk ∷ rest) = record s { writes = s.writes ++ (chunk ∷ []) }

unfoldable pub write : Session → Session
unfolding notify_disconnect_once write_front
write s =
    if s.is_open
    then write_front s s.messages_queue
    else notify_disconnect_once (record s { write_in_progress = false })

unfoldable pub send_msg : Session → Message → Session
unfolding write
send_msg s payload =
    if s.disconnected || not s.is_open
    then s
    else (let t = record s { messages_queue = s.messages_queue ++ (payload ∷ []) } in
        if t.write_in_progress then t else write (record t { write_in_progress = true }))

-- `pop_front` of a queue that is not empty, and the rest of `ProcessWrite`.
unfoldable pub after_write : Session → List Message → Session
unfolding write
after_write s [] = record s { write_in_progress = false }
after_write s (chunk ∷ []) = record s { messages_queue = []; write_in_progress = false }
after_write s (chunk ∷ next ∷ rest) = write (record s { messages_queue = next ∷ rest })

unfoldable pub process_write : Session → Bool → Session
unfolding notify_disconnect_once after_write
process_write s error =
    if error
    then notify_disconnect_once (record s { write_in_progress = false })
    else after_write s s.messages_queue

-- `Read`, which reads on when the socket is open.
unfoldable pub read : Session → Session
unfolding notify_disconnect_once
read s = if s.is_open then s else notify_disconnect_once s

unfoldable pub process_read : Session → Bool → Message → Session
unfolding notify_disconnect_once read
process_read s error frame =
    if error
    then notify_disconnect_once s
    else read (record s { frames = s.frames ++ (frame ∷ []) })

unfoldable pub stop : Session → Session
stop s = if s.disconnected then s else record s { disconnected = true; is_open = false }
