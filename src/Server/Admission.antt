-- ===== src/Server/Admission.antt =====
-- Which clients a message or a disconnect lets into the list.
use stakan.Base.{
  ℕ, ◌≡◌, ◌⊎◌, ◌≢◌, refl, ap, ◌∙◌, true, false, List, [], ◌∷◌, ◌++◌, none, some, Fault, ok, err,
  ◌>>=◌, or_fail, runtime_error, Option-cases, Bool-cases, inl, inr, ◌==◌, ==_iff, ==_of_eq,
  ==_of_ne, ℕ_discrete, if_true, if_false,
}
use stakan.Base.Map.{Map, lookup, insert, lookup-insert}
use stakan.Clients.{
  ClientList, ClientContext, SessionPtr, has_client, client_at, add_session, get_session, subscribe,
  is_subscribed, find_client_id_by_session, put_context, context_or_new, remember_session,
}
use stakan.Server.{
  parse_client_id, farewell, bad_hello_response, ok_response, handle_message, Effect, sends_msg,
  stops, reconnected_response,
}

lookup-insert_self :
    (id : ℕ) (c : ClientContext) (m : Map ClientContext) → lookup id (insert id c m) ≡ some c
lookup-insert_self id c m = lookup-insert id id c m ∙ if_true _ _ (==_of_eq id id refl)

-- The context that a client with context `c` has after the call.
unfoldable pub greeted : ClientContext → ℕ → ClientContext
greeted c session = record c { session = some session; subscribed = true }

-- The list after `add_session` and `subscribe` of a client that is there.
unfoldable pub greet : ClientList → ℕ → ℕ → ClientContext → ClientList
greet l id session c = put_context (add_session l id (some session)) id (greeted c session)

subscribe-add_session :
    (l : ClientList) (id session : ℕ) (c : ClientContext)
    → lookup id l.clients ≡ some c
    → subscribe (add_session l id (some session)) id ≡ ok (greet l id session c)
unfolding subscribe add_session client_at greet greeted put_context
subscribe-add_session l id session c e =
    ap
      (λ o. or_fail o runtime_error >>= λ ctx.
        ok (put_context (add_session l id (some session)) id (record ctx { subscribed = true })))
      (lookup-insert_self id _ l.clients
        ∙ ap (λ o. some (record (context_or_new o) { session = some session })) e)

pub get_session_of :
    (l : ClientList) (id : ℕ) (c : ClientContext)
    → lookup id l.clients ≡ some c
    → get_session l id ≡ ok c.session
unfolding get_session client_at
get_session_of l id c e = ap (λ o. or_fail o runtime_error >>= λ c. ok c.session) e

pub get_session_fails :
    (l : ClientList) (id : ℕ) (e : Fault) → get_session l id ≡ err e → e ≡ runtime_error
unfolding get_session client_at
get_session_fails l id e h = elim (Option-cases (lookup id l.clients)) [
  | inl p ↦ cc (rw p at h)
  | inr (c, p) ↦ cc (rw p at h)
]

is_subscribed_of :
    (l : ClientList) (id : ℕ) (c : ClientContext)
    → lookup id l.clients ≡ some c
    → is_subscribed l id ≡ ok c.subscribed
unfolding is_subscribed client_at
is_subscribed_of l id c e = ap (λ o. or_fail o runtime_error >>= λ c. ok c.subscribed) e

pub lookup-greet :
    (l : ClientList) (id session : ℕ) (c : ClientContext)
    → lookup id (greet l id session c).clients ≡ some (greeted c session)
unfolding greet put_context
lookup-greet l id session c = lookup-insert_self id (greeted c session) _

find-greet :
    (l : ClientList) (id session : ℕ) (c : ClientContext)
    → find_client_id_by_session (greet l id session c) session ≡ some id
unfolding greet put_context find_client_id_by_session add_session remember_session
find-greet l id session c =
    lookup-insert session session id _ ∙ if_true _ _ (==_of_eq session session refl)

no_session :
    (l : ClientList) (id : ℕ) → lookup id l.clients ≡ none → get_session l id ≡ err runtime_error
unfolding get_session client_at
no_session l id e = ap (λ o. or_fail o runtime_error >>= λ c. ok c.session) e

lacks_client : (l : ClientList) (id : ℕ) → lookup id l.clients ≡ none → has_client l id ≡ false
unfolding has_client
lacks_client l id e = rw (e, has_client) refl

-- The three outcomes, with the context that a known client has before.
pub handle_message_cases :
    (l : ClientList) (frame : List ℕ) (session : ℕ)
    → ((parse_client_id frame ≡ 0)
        × (handle_message l frame session ≡ ok (l, sends_msg session bad_hello_response ∷ [])))
      ⊎ ((lookup (parse_client_id frame) l.clients ≡ none)
          × (handle_message l frame session ≡ err runtime_error))
      ⊎ ((c : ClientContext) × (lookup (parse_client_id frame) l.clients ≡ some c)
          × (handle_message l frame session
              ≡ ok (
                greet l (parse_client_id frame) session c,
                farewell c.session session
                    ++ (sends_msg session (ok_response (parse_client_id frame)) ∷ []),
              )))
unfolding handle_message
handle_message_cases l frame session =
    let id = parse_client_id frame in
    let reply = λ (old : SessionPtr) (m : ClientList).
      ok (m, farewell old session ++ (sends_msg session (ok_response id) ∷ [])) in
    let greets =
      λ (old : SessionPtr). subscribe (add_session l id (some session)) id >>= reply old in
    elim (Bool-cases (id == 0)) [
      | inl z ↦ inl ((==_iff id 0).0 z, if_true _ _ z)
      | inr nz ↦ elim (Option-cases (lookup id l.clients)) [
        | inl e ↦ inr (inl (e, if_false _ _ nz ∙ ap (λ r. r >>= greets) (no_session l id e)))
        | inr (c, e) ↦ inr (
            inr (
              c,
              e,
              if_false _ _ nz
                  ∙ ap (λ r. r >>= greets) (get_session_of l id c e)
                  ∙ ap (λ r. r >>= reply c.session) (subscribe-add_session l id session c e),
            ))
      ]
    ]

-- What is sent: the notice, and its session is stopped, exactly when the client had another session; and
-- the answer in any case.
abbrev pub Sends : SessionPtr → ℕ → ℕ → List Effect → Type 0
Sends old session id effects =
    ((old ≡ none) × (effects ≡ sends_msg session (ok_response id) ∷ []))
    ⊎ ((old ≡ some session) × (effects ≡ sends_msg session (ok_response id) ∷ []))
    ⊎ ((p : ℕ) × (old ≡ some p)
        × (p ≢ session)
        × (effects
            ≡ sends_msg p reconnected_response ∷ stops p ∷ sends_msg session (ok_response id) ∷ []))

farewell-Sends :
    (old : SessionPtr) (session id : ℕ)
    → Sends old session id (farewell old session ++ (sends_msg session (ok_response id) ∷ []))
unfolding farewell
farewell-Sends none session id = inl (refl, refl)
farewell-Sends (some p) session id = elim (ℕ_discrete p session) [
  | yes same ↦ inr (
      inl (
        ap some same,
        ap (λ es. es ++ (sends_msg session (ok_response id) ∷ []))
            (if_true _ _ (==_of_eq p session same)),
      ))
  | no other ↦ inr (
      inr (
        p,
        refl,
        other,
        ap (λ es. es ++ (sends_msg session (ok_response id) ∷ []))
            (if_false _ _ (==_of_ne p session other)),
      ))
]

-- A message that is no greeting is answered by an error and changes nothing. A greeting of a
-- client that is not in the list throws: `get_session` is called before `add_session`. A greeting
-- of a client that is there makes the session its session and subscribes it; when the client had another
-- session, that one is sent the notice and stopped, and nobody else is; then the session is answered.
pub handle_message_branches :
    (l : ClientList) (frame : List ℕ) (session : ℕ)
    → ((parse_client_id frame ≡ 0)
        × (handle_message l frame session ≡ ok (l, sends_msg session bad_hello_response ∷ [])))
      ⊎ ((has_client l (parse_client_id frame) ≡ false)
          × (handle_message l frame session ≡ err runtime_error))
      ⊎ ((m : ClientList) × (old : SessionPtr) × (get_session l (parse_client_id frame) ≡ ok old)
          × ((effects : List Effect) × (handle_message l frame session ≡ ok (m, effects))
              × Sends old session (parse_client_id frame) effects)
          × (get_session m (parse_client_id frame) ≡ ok (some session))
          × (is_subscribed m (parse_client_id frame) ≡ ok true)
          × (find_client_id_by_session m session ≡ some (parse_client_id frame)))
unfolding greeted
handle_message_branches l frame session =
    let id = parse_client_id frame in
    elim (handle_message_cases l frame session) [
      | inl z ↦ inl z
      | inr (inl (e, r)) ↦ inr (inl (lacks_client l id e, r))
      | inr (inr (c, e, r)) ↦
          let m = greet l id session c in
          let there = lookup-greet l id session c in
          inr (
            inr (
              m,
              c.session,
              get_session_of l id c e,
              (_, r, farewell-Sends c.session session id),
              get_session_of m id _ there,
              is_subscribed_of m id _ there,
              find-greet l id session c,
            ))
    ]
