-- ===== src/Clients/Ownership.antt =====
-- The two maps: what a session is looked up as, its client has.
use stakan.Base.{
  ℕ, ◌≡◌, ◌≢◌, refl, sym, ◌∙◌, ap, List, [], ◌∷◌, Option, none, some, Result, ◌>>=◌, ◌==◌,
  if◌then◌else◌, arith, Option-cases, Result-cases, inl, inr, ℕ_discrete, ==_of_eq, ==_of_ne,
}
use stakan.Base.Map.{Map, lookup, insert, erase, lookup-insert, lookup-erase}
use stakan.Clients.Orders.{remove_order_from_side}
use stakan.Clients.{
  ClientList, ClientContext, SessionPtr, make_client_list, add_session, remove_session,
  forget_session, remember_session, add_bid, add_ask, remove_bid, remove_ask, subscribe,
  unsubscribe, put_context, client_at, find_client_id_by_session,
}
use stakan.Clients.History.{
  Call, adds_session, removes_session, adds_bid, adds_ask, removes_bid, removes_ask, subscribes,
  unsubscribes, after, step, run,
}

-- The session of a client, if the client is there.
unfoldable pub session_at : ClientList → ℕ → Option SessionPtr
session_at l id = elim (lookup id l.clients) [ none ↦ none | some c ↦ some c.session ]

-- Whatever client a session is looked up as has that session.
abbrev pub Owned : ClientList → Type 0
Owned l = (s c : ℕ) → lookup s l.session_to_client ≡ some c → session_at l c ≡ some (some s)

put_context-session :
    (l : ClientList) (id : ℕ) (c d : ClientContext) (j : ℕ)
    → lookup id l.clients ≡ some c
    → d.session ≡ c.session
    → session_at (put_context l id d) j ≡ session_at l j
unfolding session_at put_context
put_context-session l id c d j there same = ground (arith, lookup-insert id j d l.clients)

put_context-Owned :
    (l : ClientList) (id : ℕ) (c d : ClientContext)
    → lookup id l.clients ≡ some c
    → d.session ≡ c.session
    → Owned l
    → Owned (put_context l id d)
unfolding put_context
put_context-Owned l id c d there same h s k e = put_context-session l id c d k there same ∙ h s k e

-- Once the session of a client is forgotten, no session is looked up as that client.
forget_lem :
    (l : ClientList) (id : ℕ) (it : Option ClientContext) (s k : ℕ)
    → lookup id l.clients ≡ it
    → Owned l
    → lookup s (forget_session it l.session_to_client) ≡ some k
    → (k ≢ id) × (lookup s l.session_to_client ≡ some k)
unfolding forget_session
forget_lem l id none s k found h e =
    (λ same. unfold session_at in ground (arith, h s k e, ap (λ j. lookup j l.clients) same), e)
forget_lem l id (some c) s k found h e = forget_one c.session refl
  where
    forget_one :
        (p : SessionPtr) → c.session ≡ p → (k ≢ id) × (lookup s l.session_to_client ≡ some k)
    forget_one none q =
        let kept : lookup s l.session_to_client ≡ some k = rw (q, forget_session) at e in
        (
          λ same.
              unfold session_at in ground (arith, h s k kept, ap (λ j. lookup j l.clients) same),
          kept,
        )
    forget_one (some p) q =
        let e' : lookup s (erase p l.session_to_client) ≡ some k = rw (q, forget_session) at e in
        let kept : lookup s l.session_to_client ≡ some k =
          ground (arith, lookup-erase p s l.session_to_client, e') in
        let other : p ≢ s = ground (arith, lookup-erase p s l.session_to_client, e') in
        (
          λ same.
              unfold session_at in
              ground (arith, h s k kept, ap (λ j. lookup j l.clients) same, other),
          kept,
        )

pub session_at-insert :
    (l : ClientList) (id j : ℕ) (c : ClientContext) (m : Map ℕ)
    → session_at (record { clients = insert id c l.clients; session_to_client = m }) j
      ≡ (if id == j then some c.session else session_at l j)
unfolding session_at
session_at-insert l id j c m = ground (arith, lookup-insert id j c l.clients)

pub session_at-erase :
    (l : ClientList) (id j : ℕ) (m : Map ℕ)
    → session_at (record { clients = erase id l.clients; session_to_client = m }) j
      ≡ (if id == j then none else session_at l j)
unfolding session_at
session_at-erase l id j m = ground (arith, lookup-erase id j l.clients)

add_session-Owned :
    (l : ClientList) (id : ℕ) (session : SessionPtr) → Owned l → Owned (add_session l id session)
unfolding add_session remember_session
add_session-Owned l id none h s k e =
    let (other, kept) = forget_lem l id (lookup id l.clients) s k refl h e in
    session_at-insert l id k _ _ ∙ rw (==_of_ne id k (λ x. other (sym x))) (h s k kept)
add_session-Owned l id (some p) h s k e = elim (ℕ_discrete p s) [
  | yes same ↦
      let at : id ≡ k = ground (
        arith,
        lookup-insert p s id (forget_session (lookup id l.clients) l.session_to_client),
        e,
      ) in
      session_at-insert l id k _ _ ∙ rw (==_of_eq id k at) (ap (λ q. some (some q)) same)
  | no apart ↦
      let e' : lookup s (forget_session (lookup id l.clients) l.session_to_client) ≡ some k =
        ground (
          arith,
          lookup-insert p s id (forget_session (lookup id l.clients) l.session_to_client),
          e,
        ) in
      let (other, kept) = forget_lem l id (lookup id l.clients) s k refl h e' in
      session_at-insert l id k _ _ ∙ rw (==_of_ne id k (λ x. other (sym x))) (h s k kept)
]

remove_session-Owned : (l : ClientList) (id : ℕ) → Owned l → Owned (remove_session l id)
unfolding remove_session
remove_session-Owned l id h s k e =
    let (other, kept) = forget_lem l id (lookup id l.clients) s k refl h e in
    session_at-erase l id k _ ∙ rw (==_of_ne id k (λ x. other (sym x))) (h s k kept)

-- A call that looks the client up, and then either fails or puts back a context with the same session.
module _ (l : ClientList) (id : ℕ) (h : Owned l) where
  update_Owned :
      (f : ClientContext → Result ClientList)
      → ((c : ClientContext) → lookup id l.clients ≡ some c → Owned (after l (f c)))
      → Owned (after l (client_at l id >>= f))
  unfolding client_at
  update_Owned f keeps = elim (Option-cases (lookup id l.clients)) [
    | inl e ↦ rw e h
    | inr (c, e) ↦ rw e (keeps c e)
  ]

  put_Owned :
      (c d : ClientContext)
      → lookup id l.clients ≡ some c
      → d.session ≡ c.session
      → Owned (put_context l id d)
  put_Owned c d e same = put_context-Owned l id c d e same h

-- Every call keeps it.
pub step-Owned : (l : ClientList) (c : Call) → Owned l → Owned (step l c)
unfolding step add_bid add_ask remove_bid remove_ask subscribe unsubscribe
step-Owned l (adds_session id s) h = add_session-Owned l id s h
step-Owned l (removes_session id) h = remove_session-Owned l id h
step-Owned l (adds_bid id none) h = update_Owned l id h _ (λ c e. h)
step-Owned l (adds_bid id (some o)) h = update_Owned l id h _ (λ c e. put_Owned l id h c _ e refl)
step-Owned l (adds_ask id none) h = update_Owned l id h _ (λ c e. h)
step-Owned l (adds_ask id (some o)) h = update_Owned l id h _ (λ c e. put_Owned l id h c _ e refl)
step-Owned l (removes_bid id i) h = update_Owned l id h _ (λ c e.
    elim (Result-cases (remove_order_from_side c.bids i)) [
      | inl (side, p) ↦ rw p (put_Owned l id h c _ e refl)
      | inr (x, p) ↦ rw p h
    ])
step-Owned l (removes_ask id i) h = update_Owned l id h _ (λ c e.
    elim (Result-cases (remove_order_from_side c.asks i)) [
      | inl (side, p) ↦ rw p (put_Owned l id h c _ e refl)
      | inr (x, p) ↦ rw p h
    ])
step-Owned l (subscribes id) h = update_Owned l id h _ (λ c e. put_Owned l id h c _ e refl)
step-Owned l (unsubscribes id) h = update_Owned l id h _ (λ c e. h)

run-Owned : (l : ClientList) (cs : List Call) → Owned l → Owned (run l cs)
unfolding run
run-Owned l [] h = h
run-Owned l (c ∷ cs) h = run-Owned (step l c) cs (step-Owned l c h)

-- After any sequence of calls on a new client list, a client that a session is looked up as has that session.
pub find_client_id_by_session_sound :
    (cs : List Call) (s c : ℕ)
    → find_client_id_by_session (run make_client_list cs) s ≡ some c
    → session_at (run make_client_list cs) c ≡ some (some s)
unfolding find_client_id_by_session
find_client_id_by_session_sound cs = run-Owned make_client_list cs empty
  where
    empty : Owned make_client_list
    empty s c e = unfold make_client_list lookup in cc
