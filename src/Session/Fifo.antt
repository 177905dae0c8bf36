-- ===== src/Session/Fifo.antt =====
-- The order of the messages that a session writes, and the calls of its disconnect callback.
use mathlib.Core.Path.{subst}
use mathlib.Core.List.{append_assoc, append-nil}
use stakan.Base.{sym, false, List, [], ◌∷◌, ◌++◌}
use stakan.Session.{Session, Message, new_session, process_write, process_read, read, stop}
use stakan.Session.History.{
  Event, sends, writes_done, reads_done, starts, stops, closes, handle, run,
}
use stakan.Session.Accepted.{adds, accepted, IsFifo}
use stakan.Session.Writes.{
  new_session-IsFifo, read-IsFifo, process_write-IsFifo, process_read-IsFifo, stop-IsFifo,
  closed-IsFifo,
}
use stakan.Session.Sends.{send_msg-IsFifo}

handle-IsFifo :
    (s : Session) (e : Event) (sent : List Message)
    → IsFifo s sent
    → IsFifo (handle s e) (sent ++ adds s e)
unfolding handle
handle-IsFifo s (sends m) sent h = send_msg-IsFifo s m sent h
handle-IsFifo s (writes_done e) sent h =
    subst (IsFifo (process_write s e)) (sym (append-nil sent)) (process_write-IsFifo s e sent h)
handle-IsFifo s (reads_done e m) sent h =
    subst (IsFifo (process_read s e m)) (sym (append-nil sent)) (process_read-IsFifo s e m sent h)
handle-IsFifo s starts sent h =
    subst (IsFifo (read s)) (sym (append-nil sent)) (read-IsFifo s sent h)
handle-IsFifo s stops sent h =
    subst (IsFifo (stop s)) (sym (append-nil sent)) (stop-IsFifo s sent h)
handle-IsFifo s closes sent h =
    subst (IsFifo (record s { is_open = false })) (sym (append-nil sent)) (closed-IsFifo s sent h)

run_from-IsFifo :
    (s : Session) (es : List Event) (sent : List Message)
    → IsFifo s sent
    → IsFifo (run s es) (sent ++ accepted s es)
unfolding run accepted
run_from-IsFifo s [] sent h = subst (IsFifo s) (sym (append-nil sent)) h
run_from-IsFifo s (e ∷ es) sent h =
    subst (IsFifo (run (handle s e) es)) (append_assoc sent (adds s e) (accepted (handle s e) es))
      (run_from-IsFifo (handle s e) es (sent ++ adds s e) (handle-IsFifo s e sent h))

-- Whatever the order of the handlers: while the session is connected, the chunks written and the
-- messages behind the one being written are, in order, exactly those that it accepted, a write
-- is in progress exactly when the queue is not empty, and the disconnect callback was not
-- called. Once it is disconnected, the chunks written are a first part of the accepted messages,
-- and the disconnect callback was called once at most.
pub run-IsFifo : (es : List Event) → IsFifo (run new_session es) (accepted new_session es)
run-IsFifo es = run_from-IsFifo new_session es [] new_session-IsFifo
