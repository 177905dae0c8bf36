-- ===== src/Server/Lifetimes.antt =====
-- Which sessions of the server live, and at what pace it broadcasts.
use mathlib.Core.Path.{subst}
use stakan.Base.{
  ℕ, ◌≡◌, refl, ap, ◌∙◌, sym, Bool, true, false, List, [], ◌∷◌, some, ok, Bool-cases, inl, inr,
  if_true, if_false, ==_of_eq,
}
use stakan.Clients.{make_client_list, get_all_sessions}
use stakan.Server.Listener.{
  TcpServer, new_server, without, release, do_accept, accept_again, on_accept, accepted,
  start_server, stop_server, Event, accepts, reads, loses, stops_server, is_live, step, run,
  is_one_of,
}

-- No session lives, no client is known, and while the server is open it waits for a connection.
pub record IsDeaf (s : TcpServer) : Type 0 where
  pub no_session : s.live ≡ []
  pub no_client : s.clients ≡ make_client_list
  pub still_waits : s.is_open ≡ true → s.waits ≡ true

started-IsDeaf : IsDeaf (start_server new_server)
unfolding start_server new_server
started-IsDeaf = record { no_session = refl; no_client = refl; still_waits = λ e. refl }

-- The session that was made is the only one, and no client has it.
release-only :
    (s : TcpServer) (session : ℕ)
    → s.live ≡ session ∷ []
    → s.clients ≡ make_client_list
    → release s (some session) ≡ record s { live = [] }
unfolding release is_one_of get_all_sessions make_client_list without
release-only s session only unknown =
    if_false _ _ (ap (λ cs. is_one_of session (get_all_sessions cs)) unknown)
    ∙ ap (λ live. record s { live = live })
        (ap (without session) only ∙ if_true _ _ (==_of_eq session session refl))

accept_again-IsDeaf :
    (s : TcpServer) → s.live ≡ [] → s.clients ≡ make_client_list → IsDeaf (accept_again s)
unfolding do_accept
accept_again-IsDeaf s none_live unknown = elim (Bool-cases s.is_open) [
  | inl open_ ↦
      subst IsDeaf (sym (if_true _ _ open_))
        (record { no_session = none_live; no_client = unknown; still_waits = λ e. refl })
  | inr closed ↦ subst IsDeaf (sym (if_false _ _ closed)) (record {
    no_session = none_live;
    no_client = unknown;
    still_waits = λ e. absurd (cc (e, closed));
  })
]

accepted-IsDeaf :
    (s : TcpServer) (session : ℕ) (error : Bool) → IsDeaf s → IsDeaf (accepted s session error)
unfolding accepted on_accept release
accepted-IsDeaf s session true h =
    accept_again-IsDeaf (record s { waits = false }) h.no_session h.no_client
accepted-IsDeaf s session false h =
    let made : TcpServer = record s {
      waits = false;
      live = session ∷ s.live;
      started = session ∷ s.started;
    } in
    subst (λ t. IsDeaf (accept_again t))
      (sym (release-only made session (ap (λ live. session ∷ live) h.no_session) h.no_client))
      (accept_again-IsDeaf (record made { live = [] }) refl h.no_client)

-- The step of a deaf server leads to a deaf server.
step-IsDeaf :
    (s : TcpServer) (e : Event) → IsDeaf s → (t : TcpServer) × (step s e ≡ ok t) × IsDeaf t
unfolding step stop_server is_live
step-IsDeaf s (accepts session error) h = elim (Bool-cases s.waits) [
  | inl waits ↦
      (accepted s session error, ap ok (if_true _ _ waits), accepted-IsDeaf s session error h)
  | inr idle ↦ (s, ap ok (if_false _ _ idle), h)
]
step-IsDeaf s (reads session frame) h = (s, if_false _ _ (ap (is_live session) h.no_session), h)
step-IsDeaf s (loses session) h = (s, if_false _ _ (ap (is_live session) h.no_session), h)
step-IsDeaf s stops_server h = (
  _,
  refl,
  record { no_session = h.no_session; no_client = h.no_client; still_waits = λ e. absurd cc },
)

run-IsDeaf :
    (s : TcpServer) (es : List Event) → IsDeaf s → (t : TcpServer) × (run s es ≡ ok t) × IsDeaf t
unfolding run
run-IsDeaf s [] h = (s, refl, h)
run-IsDeaf s (e ∷ es) h =
    let (t, first, deaf) = step-IsDeaf s e h in
    let (u, later, end) = run-IsDeaf t es deaf in (u, rw first later, end)

-- The handler of an accepted connection drops the only pointer to the session that it made. So, after
-- any events from the start of the server on, which it survives, no session lives and there is no
-- client: no frame is ever handled. As long as the server is open it waits for the next connection.
pub no_session_lives :
    (es : List Event)
    → (s : TcpServer) × (run (start_server new_server) es ≡ ok s)
      × (s.live ≡ [])
      × (s.clients ≡ make_client_list)
      × (s.is_open ≡ true → s.waits ≡ true)
no_session_lives es =
    let (s, runs, deaf) = run-IsDeaf (start_server new_server) es started-IsDeaf in
    (s, runs, deaf.no_session, deaf.no_client, deaf.still_waits)
