-- ===== src/Clients/Lives.antt =====
-- The life of one client by the calls alone, with no list: whether it is there, and whether it is subscribed.
use stakan.Base.{
  ℕ, ◌≡◌, refl, sym, ap, ◌∙◌, Bool, true, false, List, [], ◌∷◌, Option, none, some, Result, ok, err,
  ◌>>=◌, or_fail, runtime_error, undefined, if◌then◌else◌, ◌==◌, ==_iff, if_true, if_false, inl,
  inr, Option-cases, Bool-cases,
}
use stakan.Base.Map.{lookup, lookup-insert, lookup-erase}
use stakan.Clients.Orders.{remove_order_from_side}
use stakan.Clients.{
  ClientList, ClientContext, SessionPtr, client_at, put_context, context_or_new, add_session,
  remove_session, add_bid, add_ask, remove_bid, remove_ask, subscribe, unsubscribe,
  make_client_list,
}
use stakan.Clients.History.{
  Call, adds_session, removes_session, adds_bid, adds_ask, removes_bid, removes_ask, subscribes,
  unsubscribes, after, step, run,
}

-- A client that is new is not subscribed; one that is there stays as it is.
abbrev pub let_in : Option Bool → Option Bool
let_in none = some false
let_in (some b) = some b

abbrev pub let_subscribe : Option Bool → Option Bool
let_subscribe none = none
let_subscribe (some b) = some true

-- `none`: not there. `unsubscribe` does nothing, as in the source.
abbrev pub lives : ℕ → Option Bool → Call → Option Bool
lives id old (adds_session j session) = if j == id then let_in old else old
lives id old (removes_session j) = if j == id then none else old
lives id old (subscribes j) = if j == id then let_subscribe old else old
lives id old (unsubscribes j) = old
lives id old (adds_bid j order) = old
lives id old (adds_ask j order) = old
lives id old (removes_bid j order_id) = old
lives id old (removes_ask j order_id) = old

abbrev pub life : ℕ → Option Bool → List Call → Option Bool
life id old [] = old
life id old (c ∷ cs) = life id (lives id old c) cs

abbrev pub flag_of : Option ClientContext → Option Bool
flag_of none = none
flag_of (some c) = some c.subscribed

abbrev pub seen : ClientList → ℕ → Option Bool
seen l id = flag_of (lookup id l.clients)

client_at_ok :
    (l : ClientList) (j : ℕ) (c : ClientContext)
    → client_at l j ≡ ok c
    → lookup j l.clients ≡ some c
unfolding client_at
client_at_ok l j c e = elim (Option-cases (lookup j l.clients)) [
  | inl gone ↦ cc (rw gone at e)
  | inr (d, there) ↦ cc (there, rw there at e)
]

-- A lookup by an equal id.
at_same : (l : ClientList) (j id : ℕ) → j == id ≡ true → lookup id l.clients ≡ lookup j l.clients
at_same l j id e = ap (λ k. lookup k l.clients) (sym ((==_iff j id).0 e))

seen-put :
    (l : ClientList) (j id : ℕ) (c : ClientContext)
    → seen (put_context l j c) id ≡ (if j == id then some c.subscribed else seen l id)
unfolding put_context
seen-put l j id c = elim (Bool-cases (j == id)) [
  | inl e ↦ ap flag_of (lookup-insert j id c l.clients ∙ if_true _ _ e) ∙ sym (if_true _ _ e)
  | inr e ↦ ap flag_of (lookup-insert j id c l.clients ∙ if_false _ _ e) ∙ sym (if_false _ _ e)
]

module _ (l : ClientList) (id : ℕ) where
  put_same :
      (j : ℕ) (c d : ClientContext)
      → lookup j l.clients ≡ some c
      → d.subscribed ≡ c.subscribed
      → seen (put_context l j d) id ≡ seen l id
  put_same j c d there same = elim (Bool-cases (j == id)) [
    | inl e ↦
        seen-put l j id d
        ∙ if_true _ _ e
        ∙ ap some same
        ∙ sym (ap flag_of (at_same l j id e ∙ there))
    | inr e ↦ seen-put l j id d ∙ if_false _ _ e
  ]

  bind_same :
      {A : Type 0} (r : Result A) (f : A → Result ClientList)
      → ((a : A) → r ≡ ok a → seen (after l (f a)) id ≡ seen l id)
      → seen (after l (r >>= f)) id ≡ seen l id
  bind_same (ok a) f h = h a refl
  bind_same (err e) f h = refl

  add_session-seen :
      (j : ℕ) (s : SessionPtr)
      → seen (add_session l j s) id ≡ lives id (seen l id) (adds_session j s)
  unfolding add_session
  add_session-seen j s = elim (Bool-cases (j == id)) [
    | inl e ↦
        ap flag_of (lookup-insert j id _ l.clients ∙ if_true _ _ e)
        ∙ entered (lookup j l.clients)
        ∙ ap (λ o. let_in (flag_of o)) (sym (at_same l j id e))
        ∙ sym (if_true _ _ e)
    | inr e ↦ ap flag_of (lookup-insert j id _ l.clients ∙ if_false _ _ e) ∙ sym (if_false _ _ e)
  ]
    where
      entered : (o : Option ClientContext) → some (context_or_new o).subscribed ≡ let_in (flag_of o)
      entered none = refl
      entered (some c) = refl

  remove_session-seen :
      (j : ℕ) → seen (remove_session l j) id ≡ lives id (seen l id) (removes_session j)
  unfolding remove_session
  remove_session-seen j = elim (Bool-cases (j == id)) [
    | inl e ↦ ap flag_of (lookup-erase j id l.clients ∙ if_true _ _ e) ∙ sym (if_true _ _ e)
    | inr e ↦ ap flag_of (lookup-erase j id l.clients ∙ if_false _ _ e) ∙ sym (if_false _ _ e)
  ]

  subscribe-seen : (j : ℕ) → seen (after l (subscribe l j)) id ≡ lives id (seen l id) (subscribes j)
  unfolding subscribe client_at
  subscribe-seen j = elim (Option-cases (lookup j l.clients)) [
    | inl gone ↦ ap (λ o. seen (after l (answer o)) id) gone ∙ stays gone
    | inr (c, there) ↦
        ap (λ o. seen (after l (answer o)) id) there
        ∙ seen-put l j id (record c { subscribed = true })
        ∙ sets c there
  ]
    where
      answer : Option ClientContext → Result ClientList
      answer o =
          or_fail o runtime_error >>= λ ctx. ok (put_context l j (record ctx { subscribed = true }))

      stays : lookup j l.clients ≡ none → seen l id ≡ lives id (seen l id) (subscribes j)
      stays gone = elim (Bool-cases (j == id)) [
        | inl e ↦
            let absent : seen l id ≡ none = ap flag_of (at_same l j id e ∙ gone) in
            absent ∙ sym (if_true _ _ e ∙ ap let_subscribe absent)
        | inr e ↦ sym (if_false _ _ e)
      ]

      sets :
          (c : ClientContext)
          → lookup j l.clients ≡ some c
          → (if j == id then some true else seen l id) ≡ lives id (seen l id) (subscribes j)
      sets c there = elim (Bool-cases (j == id)) [
        | inl e ↦
            if_true _ _ e
            ∙ sym (if_true _ _ e ∙ ap (λ o. let_subscribe (flag_of o)) (at_same l j id e ∙ there))
        | inr e ↦ if_false _ _ e ∙ sym (if_false _ _ e)
      ]

  step-seen : (c : Call) → seen (step l c) id ≡ lives id (seen l id) c
  unfolding step add_bid add_ask remove_bid remove_ask unsubscribe
  step-seen (adds_session j s) = add_session-seen j s
  step-seen (removes_session j) = remove_session-seen j
  step-seen (subscribes j) = subscribe-seen j
  step-seen (unsubscribes j) = bind_same (client_at l j) _ (λ c e. refl)
  step-seen (adds_bid j o) =
      bind_same (client_at l j) _ (λ c e.
        bind_same (or_fail o undefined) _ (λ x p. put_same j c _ (client_at_ok l j c e) refl))
  step-seen (adds_ask j o) =
      bind_same (client_at l j) _ (λ c e.
        bind_same (or_fail o undefined) _ (λ x p. put_same j c _ (client_at_ok l j c e) refl))
  step-seen (removes_bid j i) = bind_same (client_at l j) _ (λ c e.
      bind_same (remove_order_from_side c.bids i) _
        (λ x p. put_same j c _ (client_at_ok l j c e) refl))
  step-seen (removes_ask j i) = bind_same (client_at l j) _ (λ c e.
      bind_same (remove_order_from_side c.asks i) _
        (λ x p. put_same j c _ (client_at_ok l j c e) refl))

run-seen : (l : ClientList) (id : ℕ) (cs : List Call) → seen (run l cs) id ≡ life id (seen l id) cs
unfolding run
run-seen l id [] = refl
run-seen l id (c ∷ cs) = run-seen (step l c) id cs ∙ ap (λ o. life id o cs) (step-seen l id c)

-- What a list that calls have made holds of a client is what the calls say of its life.
pub seen-life : (id : ℕ) (cs : List Call) → seen (run make_client_list cs) id ≡ life id none cs
unfolding make_client_list
seen-life id cs = run-seen make_client_list id cs ∙ unfold lookup in refl
