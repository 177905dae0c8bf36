-- ===== src/Server/Reconnect.antt =====
-- The loss of a session, and a client that comes back on another one.
use stakan.Base.{
  ℕ, ◌≡◌, ◌≢◌, ◌⊎◌, refl, sym, ap, ◌∙◌, false, List, [], ◌∷◌, ◌++◌, Option, none, some, ok, err,
  runtime_error, Option-cases, Result-cases, Bool-cases, inl, inr, ◌==◌, ==_iff, ==_of_eq, ==_of_ne,
  if_true, if_false,
}
use stakan.Base.Map.{Map, lookup, lookup-insert, lookup-erase}
use stakan.Clients.{
  ClientList, ClientContext, SessionPtr, add_session, remove_session, put_context, get_session,
  find_client_id_by_session, forget_session, remember_session,
}
use stakan.Server.{
  Effect, parse_client_id, handle_message, handle_disconnect, farewell, sends_msg, stops,
  reconnected_response, ok_response,
}
use stakan.Server.Admission.{
  greet, greeted, handle_message_cases, lookup-greet, get_session_of, get_session_fails,
}

different : (s session : ℕ) → (s == session) ≡ false → some s ≢ some session
different s session other p = let q : s ≡ session = cc p in cc (other, ==_of_eq s session q)

-- The session that the client has is compared with the one that was lost.
compared :
    (l : ClientList) (session id : ℕ) (current : SessionPtr)
    → find_client_id_by_session l session ≡ some id
    → get_session l id ≡ ok current
    → ((get_session l id ≡ ok (some session))
        × (handle_disconnect l session ≡ ok (remove_session l id)))
      ⊎ ((current ≢ some session) × (handle_disconnect l session ≡ ok l))
unfolding handle_disconnect
compared l session id none f e = inr (λ p. cc p, rw (f, handle_disconnect) (rw e refl))
compared l session id (some s) f e = elim (Bool-cases (s == session)) [
  | inl same ↦ inl (
    e ∙ ap (λ s. ok (some s)) ((==_iff s session).0 same),
    rw (f, handle_disconnect) (rw e (if_true _ _ same)),
  )
  | inr other ↦ inr (
    λ p. absurd (different s session other p),
    rw (f, handle_disconnect) (rw e (if_false _ _ other)),
  )
]

-- A lost session that no client is known to have changes nothing. Otherwise the client is taken
-- out of the list when it still has that session, stays when it has none or another one, and
-- `std::runtime_error` is thrown when the client is not in the list.
pub handle_disconnect_branches :
    (l : ClientList) (session : ℕ)
    → ((find_client_id_by_session l session ≡ none) × (handle_disconnect l session ≡ ok l))
      ⊎ ((id : ℕ) × (find_client_id_by_session l session ≡ some id)
          × (((get_session l id ≡ ok (some session))
                × (handle_disconnect l session ≡ ok (remove_session l id)))
              ⊎ ((current : SessionPtr) × (get_session l id ≡ ok current)
                  × (current ≢ some session)
                  × (handle_disconnect l session ≡ ok l))
              ⊎ ((get_session l id ≡ err runtime_error)
                  × (handle_disconnect l session ≡ err runtime_error))))
unfolding handle_disconnect
handle_disconnect_branches l session = elim (Option-cases (find_client_id_by_session l session)) [
  | inl e ↦ inl (e, rw (e, handle_disconnect) refl)
  | inr (id, f) ↦ inr (
    id,
    f,
    elim (Result-cases (get_session l id)) [
      | inl (current, e) ↦ elim (compared l session id current f e) [
        | inl same ↦ inl same
        | inr (other, r) ↦ inr (inl (current, e, other, r))
      ]
      | inr (fault, e) ↦
          let e = e ∙ ap err (get_session_fails l id fault e) in
          inr (inr (e, rw (f, handle_disconnect) (rw e refl)))
    ],
  )
]

forgotten :
    (o : Option ClientContext) (c : ClientContext) (old : ℕ) (m : Map ℕ)
    → o ≡ some c
    → c.session ≡ some old
    → lookup old (forget_session o m) ≡ none
unfolding forget_session
forgotten o c old m e f =
    rw (e, f, forget_session) (lookup-erase old old m ∙ if_true _ _ (==_of_eq old old refl))

greet_forgets :
    (l : ClientList) (id session old : ℕ) (c : ClientContext)
    → lookup id l.clients ≡ some c
    → c.session ≡ some old
    → old ≢ session
    → find_client_id_by_session (greet l id session c) old ≡ none
unfolding greet put_context add_session find_client_id_by_session remember_session
greet_forgets l id session old c e f ne =
    lookup-insert session old id _
    ∙ if_false _ _ (==_of_ne session old (λ p. ne (sym p)))
    ∙ forgotten (lookup id l.clients) c old l.session_to_client e f

farewell_other :
    (o : SessionPtr) (old session : ℕ)
    → o ≡ some old
    → old ≢ session
    → farewell o session ≡ sends_msg old reconnected_response ∷ stops old ∷ []
unfolding farewell
farewell_other o old session e ne = rw (e, farewell) (if_false _ _ (==_of_ne old session ne))

ok_inj : {A : Type 0} (x y : A) → ok x ≡ ok y → x ≡ y
ok_inj x y e = cc e

disconnect_unknown :
    (l : ClientList) (session : ℕ)
    → find_client_id_by_session l session ≡ none
    → handle_disconnect l session ≡ ok l
unfolding handle_disconnect
disconnect_unknown l session e = rw (e, handle_disconnect) refl

-- A client that has a session and greets, with a number other than 0, on another one: if the
-- handler returns, the old session is told and stopped, and its disconnect, which comes later,
-- leaves the list as it is, so the client keeps its new session.
pub reconnect_survives :
    (l m : ClientList) (frame : List ℕ) (old session : ℕ) (effects : List Effect)
    → parse_client_id frame ≢ 0
    → get_session l (parse_client_id frame) ≡ ok (some old)
    → old ≢ session
    → handle_message l frame session ≡ ok (m, effects)
    → (effects
        ≡ sends_msg old reconnected_response
          ∷ stops old
          ∷ sends_msg session (ok_response (parse_client_id frame))
          ∷ [])
      × (get_session m (parse_client_id frame) ≡ ok (some session))
      × (handle_disconnect m old ≡ ok m)
unfolding greeted
reconnect_survives l m frame old session effects nz e ne h =
    elim (handle_message_cases l frame session) [
      | inl (z, r) ↦ absurd (nz z)
      | inr (inl (gone, r)) ↦ cc (r, h)
      | inr (inr (c, there, r)) ↦
          let id = parse_client_id frame in
          let had = ok_inj c.session (some old) (sym (get_session_of l id c there) ∙ e) in
          let same = ok_inj _ _ (sym r ∙ h) in
          (
            sym (ap (λ p. p.1) same)
                ∙ ap (λ es. es ++ (sends_msg session (ok_response id) ∷ []))
                    (farewell_other c.session old session had ne),
            ap (λ p. get_session p.0 id) (sym same)
                ∙ get_session_of (greet l id session c) id _ (lookup-greet l id session c),
            disconnect_unknown m old (
                ap (λ p. find_client_id_by_session p.0 old) (sym same)
                ∙ greet_forgets l id session old c there had ne),
          )
    ]
