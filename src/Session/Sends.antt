-- ===== src/Session/Sends.antt =====
-- A message that comes keeps the order of the messages.
use mathlib.Core.Path.{subst}
use mathlib.Core.List.{append_assoc, append-nil}
use stakan.Base.{
  Bool-cases, if_true, if_false, ◌≡◌, refl, sym, ap, ◌∙◌, Bool, true, false, not, ◌&&◌, ◌||◌, List,
  [], ◌∷◌, ◌++◌, inl, inr, drop,
}
use stakan.Session.{Session, Message, send_msg}
use stakan.Session.Accepted.{taken, any_left, Live, IsFifo}
use stakan.Session.Writes.{write-IsFifo}

open_guard : (a b : Bool) → a ≡ false → b ≡ true → (a || not b) ≡ false
open_guard a b e f = rw (e, f) refl

-- A message that comes is written at once when no write is in progress, and else waits.
send_msg-open :
    (s : Session) (m : Message) (sent : List Message) (q : List Message)
    → s.messages_queue ≡ q
    → Live s sent
    → s.is_open ≡ true
    → IsFifo (send_msg s m) (sent ++ (m ∷ []))
unfolding send_msg any_left
send_msg-open s m sent [] e (here, same, w, n) o =
    let t = record s { messages_queue = s.messages_queue ++ (m ∷ []); write_in_progress = true } in
    let queue = ap (λ q. q ++ (m ∷ [])) e in
    let kept =
      ap (λ ws. ws ++ (m ∷ []))
        (sym (append-nil s.writes) ∙ sym (ap (λ q. s.writes ++ drop 1 q) e) ∙ same) in
    subst (λ t. IsFifo t (sent ++ (m ∷ [])))
      (sym (if_false _ _ (open_guard _ _ here o) ∙ if_false _ _ (w ∙ ap any_left e)))
      (write-IsFifo t (sent ++ (m ∷ [])) m [] queue refl here kept n o)
send_msg-open s m sent (chunk ∷ rest) e (here, same, w, n) o =
    let queue = ap (λ q. q ++ (m ∷ [])) e in
    let kept =
      ap (λ q. s.writes ++ drop 1 q) queue
      ∙ sym (append_assoc s.writes rest (m ∷ []))
      ∙ ap (λ ws. ws ++ (m ∷ [])) (sym (ap (λ q. s.writes ++ drop 1 q) e) ∙ same) in
    let busy = w ∙ ap any_left e in
    subst (λ t. IsFifo t (sent ++ (m ∷ [])))
      (sym (if_false _ _ (open_guard _ _ here o) ∙ if_true _ _ busy))
      (inl (here, kept, busy ∙ sym (ap any_left queue), n))

taken_guard : (a b : Bool) → a ≡ true → b ≡ false → (a && not b) ≡ true
taken_guard a b e f = rw (e, f) refl

shut_guard : (a b : Bool) → b ≡ false → (a || not b) ≡ true
shut_guard true b e = refl
shut_guard false b e = rw e refl

gone_guard : (a b : Bool) → a ≡ true → (a || not b) ≡ true
gone_guard a b e = rw e refl

not_taken : (a b : Bool) → (b || not a) ≡ true → (a && not b) ≡ false
not_taken true true e = refl
not_taken true false e = cc e
not_taken false b e = refl

dropped :
    (s : Session) (m : Message) (sent : List Message)
    → (s.disconnected || not s.is_open) ≡ true
    → IsFifo s sent
    → IsFifo (send_msg s m) (sent ++ taken s m)
unfolding send_msg taken
dropped s m sent shut h =
    subst (λ t. IsFifo t (sent ++ taken s m)) (sym (if_true _ _ shut))
      (subst (λ ms. IsFifo s (sent ++ ms)) (sym (if_false _ _ (not_taken _ _ shut)))
        (subst (IsFifo s) (sym (append-nil sent)) h))

pub send_msg-IsFifo :
    (s : Session) (m : Message) (sent : List Message)
    → IsFifo s sent
    → IsFifo (send_msg s m) (sent ++ taken s m)
unfolding send_msg taken
send_msg-IsFifo s m sent h = elim (Bool-cases s.is_open) [
  | inl o ↦ elim h [
    | inl live ↦
        subst (λ ms. IsFifo (send_msg s m) (sent ++ ms))
          (sym (if_true _ _ (taken_guard _ _ o live.0)))
          (send_msg-open s m sent s.messages_queue refl live o)
    | inr gone ↦ dropped s m sent (gone_guard _ _ gone.0) (inr gone)
  ]
  | inr o ↦ dropped s m sent (shut_guard _ _ o) h
]
