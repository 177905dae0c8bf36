-- ===== src/Session/Writes.antt =====
-- The handlers other than `send_msg` keep the order of the messages.
use mathlib.Core.Path.{subst}
use mathlib.Core.List.{append_assoc}
use stakan.Base.{
  Bool-cases, if_true, if_false, ℕ, suc, ◌≤◌, ◌≡◌, refl, sym, ap, ◌∙◌, Bool, true, false, List, [],
  ◌∷◌, ◌++◌, inl, inr, arith, drop,
}
use stakan.Session.{
  Session, Message, new_session, process_write, process_read, read, stop, write, after_write,
  write_front, notify_disconnect_once,
}
use stakan.Session.Accepted.{any_left, Gone, IsFifo}

pub new_session-IsFifo : IsFifo new_session []
unfolding new_session any_left
new_session-IsFifo = inl (refl, refl, refl, refl)

at_most_one : (n : ℕ) → n ≡ 0 → suc n ≤ 1
at_most_one n e = omega arith

less_than_one : (n : ℕ) → n ≡ 0 → n ≤ 1
less_than_one n e = omega arith

-- A disconnect callback that is due makes the session a disconnected one.
notify-Gone :
    (s : Session) (sent lost : List Message)
    → s.disconnected ≡ false
    → s.writes ++ lost ≡ sent
    → s.disconnects ≡ 0
    → Gone (notify_disconnect_once s) sent
unfolding notify_disconnect_once
notify-Gone s sent lost here same none_yet =
    subst (λ t. Gone t sent) (sym (if_false _ _ here))
      (refl, inr refl, (lost, same), at_most_one s.disconnects none_yet)

-- A disconnected session stays as it is.
notify-same : (s : Session) → s.disconnected ≡ true → notify_disconnect_once s ≡ s
unfolding notify_disconnect_once
notify-same s h = if_true _ _ h

pub notify-IsFifo :
    (s : Session) (sent : List Message) → IsFifo s sent → IsFifo (notify_disconnect_once s) sent
notify-IsFifo s sent (inl (here, same, w, n)) = inr (notify-Gone s sent _ here same n)
notify-IsFifo s sent (inr g) = rw (notify-same s g.0) (inr g)

pub read-IsFifo : (s : Session) (sent : List Message) → IsFifo s sent → IsFifo (read s) sent
unfolding read
read-IsFifo s sent h = elim (Bool-cases s.is_open) [
  | inl e ↦ subst (λ t. IsFifo t sent) (sym (if_true _ _ e)) h
  | inr e ↦ subst (λ t. IsFifo t sent) (sym (if_false _ _ e)) (notify-IsFifo s sent h)
]

failed-IsFifo :
    (s : Session) (sent : List Message)
    → IsFifo s sent
    → IsFifo (notify_disconnect_once (record s { write_in_progress = false })) sent
failed-IsFifo s sent (inl (here, same, w, n)) =
    inr (notify-Gone (record s { write_in_progress = false }) sent _ here same n)
failed-IsFifo s sent (inr g) = rw (notify-same (record s { write_in_progress = false }) g.0) (inr g)

-- The write of the front of a queue that holds `next`.
pub write-IsFifo :
    (s : Session) (sent : List Message) (next : Message) (rest : List Message)
    → s.messages_queue ≡ next ∷ rest
    → s.write_in_progress ≡ true
    → s.disconnected ≡ false
    → s.writes ++ (next ∷ rest) ≡ sent
    → s.disconnects ≡ 0
    → s.is_open ≡ true
    → IsFifo (write s) sent
unfolding write write_front any_left
write-IsFifo s sent next rest e w here same n o =
    subst (λ t. IsFifo t sent) (sym (if_true _ _ o ∙ ap (write_front s) e))
      (inl (
        here,
        ap (λ q. (s.writes ++ (next ∷ [])) ++ drop 1 q) e
            ∙ append_assoc s.writes (next ∷ []) rest
            ∙ same,
        w ∙ sym (ap any_left e),
        n,
      ))

-- The queue behind the chunk that is done.
after_write-IsFifo :
    (s : Session) (sent : List Message) (q : List Message)
    → s.messages_queue ≡ q
    → IsFifo s sent
    → IsFifo (after_write s q) sent
unfolding after_write write any_left
after_write-IsFifo s sent [] e (inl (here, same, w, n)) = inl (here, same, sym (ap any_left e), n)
after_write-IsFifo s sent [] e (inr g) = inr g
after_write-IsFifo s sent (chunk ∷ []) e (inl (here, same, w, n)) =
    inl (here, sym (ap (λ q. s.writes ++ drop 1 q) e) ∙ same, refl, n)
after_write-IsFifo s sent (chunk ∷ []) e (inr (there, shut, lost, n)) =
    inr (there, inr refl, lost, n)
after_write-IsFifo s sent (chunk ∷ next ∷ rest) e (inl (here, same, w, n)) =
    let kept = sym (ap (λ q. s.writes ++ drop 1 q) e) ∙ same in
    let t = record s { messages_queue = next ∷ rest } in
    elim (Bool-cases s.is_open) [
      | inl o ↦ write-IsFifo t sent next rest refl (w ∙ ap any_left e) here kept n o
      | inr o ↦
          subst (λ t. IsFifo t sent) (sym (if_false _ _ o))
            (inr (notify-Gone (record t { write_in_progress = false }) sent _ here kept n))
    ]
after_write-IsFifo s sent (chunk ∷ next ∷ rest) e (inr (there, shut, lost, n)) = elim shut [
  | inl o ↦
      let t = record s { messages_queue = next ∷ rest; write_in_progress = false } in
      subst (λ t. IsFifo t sent) (sym (if_false _ _ o ∙ notify-same t there))
        (inr (there, inl o, lost, n))
  | inr empty ↦ cc (e, empty)
]

pub process_write-IsFifo :
    (s : Session) (error : Bool) (sent : List Message)
    → IsFifo s sent
    → IsFifo (process_write s error) sent
unfolding process_write
process_write-IsFifo s true sent h = failed-IsFifo s sent h
process_write-IsFifo s false sent h = after_write-IsFifo s sent s.messages_queue refl h

pub process_read-IsFifo :
    (s : Session) (error : Bool) (frame : Message) (sent : List Message)
    → IsFifo s sent
    → IsFifo (process_read s error frame) sent
unfolding process_read
process_read-IsFifo s true frame sent h = notify-IsFifo s sent h
process_read-IsFifo s false frame sent h =
    read-IsFifo (record s { frames = s.frames ++ (frame ∷ []) }) sent h

pub stop-IsFifo : (s : Session) (sent : List Message) → IsFifo s sent → IsFifo (stop s) sent
unfolding stop
stop-IsFifo s sent (inl (here, same, w, n)) =
    subst (λ t. IsFifo t sent) (sym (if_false _ _ here))
      (inr (refl, inl refl, (drop 1 s.messages_queue, same), less_than_one s.disconnects n))
stop-IsFifo s sent (inr g) = subst (λ t. IsFifo t sent) (sym (if_true _ _ g.0)) (inr g)

pub closed-IsFifo :
    (s : Session) (sent : List Message) → IsFifo s sent → IsFifo (record s { is_open = false }) sent
closed-IsFifo s sent (inl h) = inl h
closed-IsFifo s sent (inr (there, shut, lost, n)) = inr (there, inl refl, lost, n)
