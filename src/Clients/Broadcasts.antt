-- ===== src/Clients/Broadcasts.antt =====
-- Who gets a broadcast: `broadcast_to_subscribed` of src/client_list/client_list.cpp.
use stakan.Base.{
  ℕ, ◌≡◌, ◌⊎◌, refl, sym, ap, ◌∙◌, true, List, [], ◌∷◌, map, some, none, Result, ok, err, ◌>>=◌,
  or_fail, runtime_error, undefined, inl, inr, Bool-cases, Option-cases, if_true, if_false,
  ==_of_eq, ==_of_ne,
}
use stakan.Base.Map.{Map, lookup, Lacks, UniqueKeys}
use stakan.Clients.{
  ClientList, ClientContext, SessionPtr, subscribed_ids, subscribed_sessions,
  get_subscribed_clients, get_subscribed_sessions, get_session, client_at, make_client_list,
}
use stakan.Clients.History.{Call, run}
use stakan.Clients.Lives.{life, flag_of, seen-life}
use stakan.Clients.Subscriptions.{run-UniqueKeys}
use stakan.Clients.Inbox.{Delivery, send_to, send_all, broadcast_to_subscribed}

-- The message that every delivery carries.
abbrev pub AllCarry : List ℕ → List Delivery → Type 0
AllCarry message [] = Unit {0}
AllCarry message (d ∷ ds) = (d.message ≡ message) × AllCarry message ds

abbrev pub receivers : List Delivery → List (Result SessionPtr)
receivers ds = map (λ d. ok (some d.session)) ds

-- Each entry of the first map is found in the second one.
abbrev Embeds : Map ClientContext → Map ClientContext → Type 0
Embeds [] big = Unit {0}
Embeds ((j, c) ∷ m) big = (lookup j big ≡ some c) × Embeds m big

Embeds-cons :
    (m big : Map ClientContext) (j : ℕ) (c : ClientContext)
    → Lacks j m
    → Embeds m big
    → Embeds m ((j, c) ∷ big)
unfolding lookup
Embeds-cons [] big j c h e = tt
Embeds-cons ((k, d) ∷ m) big j c (other, h) (first, e) =
    (if_false _ _ (==_of_ne j k (λ p. other (sym p))) ∙ first, Embeds-cons m big j c h e)

Embeds-self : (m : Map ClientContext) → UniqueKeys m → Embeds m m
unfolding lookup
Embeds-self [] u = tt
Embeds-self ((j, c) ∷ m) (absent, u) =
    (if_true _ _ (==_of_eq j j refl), Embeds-cons m m j c absent (Embeds-self m u))

session_in : Map ClientContext → ℕ → Result SessionPtr
session_in big id = or_fail (lookup id big) runtime_error >>= λ c. ok c.session

-- Some subscribed client has no session.
pub record HasLost (big : Map ClientContext) : Type 0 where
  pub id : ℕ
  pub context : ClientContext
  pub found : lookup id big ≡ some context
  pub subscribed : context.subscribed ≡ true
  pub no_session : context.session ≡ none

sends :
    (m big : Map ClientContext) (message : List ℕ)
    → Embeds m big
    → ((ds : List Delivery) × (send_all (subscribed_sessions m) message ≡ ok ds)
        × (map (session_in big) (subscribed_ids m) ≡ receivers ds)
        × AllCarry message ds)
      ⊎ ((send_all (subscribed_sessions m) message ≡ err undefined) × HasLost big)
unfolding subscribed_sessions subscribed_ids send_all send_to session_in
sends [] big message h = inl ([], refl, refl, tt)
sends ((j, c) ∷ m) big message (here, h) = elim (Bool-cases c.subscribed) [
  | inr off ↦ rw off (sends m big message h)
  | inl on ↦ elim (Option-cases c.session) [
    | inl gone ↦ inr (
      rw (on, gone) refl,
      record { id = j; context = c; found = here; subscribed = on; no_session = gone },
    )
    | inr (p, there) ↦ elim (sends m big message h) [
      | inl (ds, e, same, all) ↦ inl (
        record { session = p; message = message } ∷ ds,
        rw (on, there, e) refl,
        rw on (λ i.
            (ap (λ o. or_fail o runtime_error >>= λ c. ok c.session) here ∙ ap ok there) i
            ∷ same i),
        (refl, all),
      )
      | inr (e, lost) ↦ inr (rw (on, there, e) refl, lost)
    ]
  ]
]

-- A broadcast on a list that calls have made sends the message once to the session of each subscribed
-- client, in the order of the map; or it has no defined result, and a client that the calls made
-- subscribed has no session.
pub broadcast_to_subscribed_branches :
    (cs : List Call) (message : List ℕ)
    → let l : ClientList = run make_client_list cs in
      ((ds : List Delivery) × (broadcast_to_subscribed l message ≡ ok ds)
        × (map (get_session l) (get_subscribed_clients l) ≡ receivers ds)
        × AllCarry message ds)
      ⊎ ((broadcast_to_subscribed l message ≡ err undefined)
          × ((id : ℕ) × (life id none cs ≡ some true) × (get_session l id ≡ ok none)))
unfolding broadcast_to_subscribed get_session client_at get_subscribed_clients
    get_subscribed_sessions session_in
broadcast_to_subscribed_branches cs message =
    let m = (run make_client_list cs).clients in
    elim (sends m m message (Embeds-self m (run-UniqueKeys cs))) [
      | inl reached ↦ inl reached
      | inr (e, lost) ↦ inr (
        e,
        (
          lost.id,
          sym (seen-life lost.id cs) ∙ ap flag_of lost.found ∙ ap some lost.subscribed,
          ap (λ o. or_fail o runtime_error >>= λ c. ok c.session) lost.found
              ∙ ap ok lost.no_session,
        ),
      )
    ]
