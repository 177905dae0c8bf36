-- ===== src/Clients/Races.antt =====
-- Other calls of the list between the test of a call and its access.
use stakan.Base.{
  ℕ, ◌≡◌, ◌⊎◌, inl, inr, refl, sym, ap, ◌∙◌, Bool, true, false, List, [], ◌∷◌, ◌||◌, ◌==◌, Option,
  none, some, Result, ok, err, ◌>>=◌, or_fail, runtime_error, out_of_range, if_true, if_false,
  Option-cases, Bool-cases,
}
use stakan.Base.Map.{lookup, insert, lookup-insert, lookup-erase}
use stakan.Clients.{
  ClientList, ClientContext, has_client, client_at, put_context, add_session, remove_session,
  add_bid, add_ask, remove_bid, remove_ask, subscribe, unsubscribe,
}
use stakan.Clients.History.{
  Call, adds_session, removes_session, adds_bid, adds_ask, removes_bid, removes_ask, subscribes,
  unsubscribes, step, run, step_keeps,
}
use stakan.Clients.Between.{client_between, call_between}

-- The call with no other call in between.
abbrev pub call : ClientList → Call → Result ClientList
call l (adds_session id session) = ok (add_session l id session)
call l (removes_session id) = ok (remove_session l id)
call l (adds_bid id bid) = add_bid l id bid
call l (adds_ask id ask) = add_ask l id ask
call l (removes_bid id order_id) = remove_bid l id order_id
call l (removes_ask id order_id) = remove_ask l id order_id
call l (subscribes id) = subscribe l id
call l (unsubscribes id) = unsubscribe l id

-- The client that a call is about.
abbrev pub client_of : Call → ℕ
client_of (adds_session id session) = id
client_of (removes_session id) = id
client_of (adds_bid id bid) = id
client_of (adds_ask id ask) = id
client_of (removes_bid id order_id) = id
client_of (removes_ask id order_id) = id
client_of (subscribes id) = id
client_of (unsubscribes id) = id

-- Whether a call is `remove_session` of a client, and whether one of some calls is.
abbrev pub removes : ℕ → Call → Bool
removes id (removes_session gone) = gone == id
removes id (adds_session other session) = false
removes id (adds_bid other bid) = false
removes id (adds_ask other ask) = false
removes id (removes_bid other order_id) = false
removes id (removes_ask other order_id) = false
removes id (subscribes other) = false
removes id (unsubscribes other) = false

abbrev pub some_removes : ℕ → List Call → Bool
some_removes id [] = false
some_removes id (c ∷ cs) = removes id c || some_removes id cs

-- A client that is there stays there behind a call that does not remove it.
abbrev IsThere : ℕ → ClientList → Type 0
IsThere id l = has_client l id ≡ true

abbrev is_some : Option ClientContext → Bool
is_some o = elim o [ none ↦ false | some c ↦ true ]

insert_keeps :
    (id j : ℕ) (c : ClientContext) (l m : ClientList)
    → m.clients ≡ insert j c l.clients
    → IsThere id l
    → IsThere id m
unfolding has_client
insert_keeps id j c l m e h = elim (Bool-cases (j == id)) [
  | inl same ↦ ap is_some (ap (lookup id) e ∙ lookup-insert j id c l.clients ∙ if_true _ _ same)
  | inr other ↦
      ap is_some (ap (lookup id) e ∙ lookup-insert j id c l.clients ∙ if_false _ _ other) ∙ h
]

erase_keeps :
    (id j : ℕ) (l : ClientList) → j == id ≡ false → IsThere id l → IsThere id (remove_session l j)
unfolding has_client remove_session
erase_keeps id j l ne h = ap is_some (lookup-erase j id l.clients ∙ if_false _ _ ne) ∙ h

step-IsThere :
    (id : ℕ) (l : ClientList) (c : Call)
    → removes id c ≡ false
    → IsThere id l
    → IsThere id (step l c)
unfolding put_context add_session
step-IsThere id l c no_removal h =
    step_keeps (IsThere id) l h (λ j ctx. insert_keeps id j ctx l (put_context l j ctx) refl h) c
      (λ j s. insert_keeps id j _ l (add_session l j s) refl h)
      (λ j e. erase_keeps id j l (sym (ap (removes id) e) ∙ no_removal) h)

removed_between :
    (id : ℕ) (l : ClientList) (cs : List Call)
    → IsThere id l
    → has_client (run l cs) id ≡ false
    → some_removes id cs ≡ true
unfolding run
removed_between id l [] h gone = cc (h, gone)
removed_between id l (c ∷ cs) h gone = elim (Bool-cases (removes id c)) [
  | inl here ↦ rw here refl
  | inr not_here ↦
      rw not_here (removed_between id (step l c) cs (step-IsThere id l c not_here h) gone)
]

client_at_fails :
    (l : ClientList) (id : ℕ) → lookup id l.clients ≡ none → client_at l id ≡ err runtime_error
unfolding client_at
client_at_fails l id absent = ap (λ o. or_fail o runtime_error) absent

tested :
    (l now : ClientList) (id : ℕ) (c : ClientContext)
    → lookup id l.clients ≡ some c
    → client_between l now id ≡ or_fail (lookup id now.clients) out_of_range
unfolding client_between has_client
tested l now id c there = if_true _ _ (ap is_some there)

untested :
    (l now : ClientList) (id : ℕ)
    → lookup id l.clients ≡ none
    → client_between l now id ≡ err runtime_error
unfolding client_between has_client
untested l now id absent = if_false _ _ (ap is_some absent)

-- How the test and the access end, and the rest of the call with them.
module _ {A : Type 0} (l now : ClientList) (id : ℕ) (rest : ClientContext → Result A) where
  access_branches :
      ((client_between l now id >>= rest) ≡ (client_at now id >>= rest))
      ⊎ (((client_between l now id >>= rest) ≡ err runtime_error)
          × (client_at l id ≡ err runtime_error))
      ⊎ (((client_between l now id >>= rest) ≡ err out_of_range)
          × ((client_at now id >>= rest) ≡ err runtime_error)
          × (has_client l id ≡ true)
          × (has_client now id ≡ false))
  unfolding has_client client_at
  access_branches = elim (Option-cases (lookup id l.clients)) [
    | inl absent ↦
        inr (inl (ap (λ r. r >>= rest) (untested l now id absent), client_at_fails l id absent))
    | inr (c, there) ↦ elim (Option-cases (lookup id now.clients)) [
      | inl gone ↦ inr (
          inr (
            ap (λ r. r >>= rest) (tested l now id c there ∙ ap (λ o. or_fail o out_of_range) gone),
            ap (λ r. r >>= rest) (client_at_fails now id gone),
            ap is_some there,
            ap is_some gone,
          ))
      | inr (d, still) ↦ inl (
          ap (λ r. r >>= rest)
            (tested l now id c there
              ∙ ap (λ o. or_fail o out_of_range) still
              ∙ sym (ap (λ o. or_fail o runtime_error) still)))
    ]
  ]

-- The outcomes of a call with other calls in between.
abbrev pub Outcome : ClientList → List Call → Call → Type 0
Outcome l cs c =
    (call_between l (run l cs) c ≡ call (run l cs) c)
    ⊎ ((call_between l (run l cs) c ≡ err runtime_error) × (call l c ≡ err runtime_error))
    ⊎ ((call_between l (run l cs) c ≡ err out_of_range)
        × (call (run l cs) c ≡ err runtime_error)
        × (some_removes (client_of c) cs ≡ true))

guarded :
    (l : ClientList) (cs : List Call) (c : Call)
    (rest : ClientList → ClientContext → Result ClientList)
    → call_between l (run l cs) c ≡ (client_between l (run l cs) (client_of c) >>= rest (run l cs))
    → ((m : ClientList) → call m c ≡ (client_at m (client_of c) >>= rest m))
    → Outcome l cs c
guarded l cs c rest between plain =
    elim (access_branches l (run l cs) (client_of c) (rest (run l cs))) [
      | inl same ↦ inl (between ∙ same ∙ sym (plain (run l cs)))
      | inr (inl (fails, before)) ↦
          inr (inl (between ∙ fails, plain l ∙ ap (λ r. r >>= rest l) before))
      | inr (inr (throws, plainly, there, gone)) ↦ inr (
          inr (
            between ∙ throws,
            plain (run l cs) ∙ plainly,
            removed_between (client_of c) l cs there gone,
          ))
    ]

-- Other calls come between the test of a call and its access, or none. Either the call does what it does
-- on the list behind them; or it throws `std::runtime_error`, as it does on the list before them; or
-- it throws `std::out_of_range`, one of them removed the client, and on the list behind them the call
-- throws `std::runtime_error`. So each call acts as if it were made at one moment, up to which of the
-- two exceptions an absent client gives.
pub call_between_branches :
    (l : ClientList) (cs : List Call) (c : Call)
    → (call_between l (run l cs) c ≡ call (run l cs) c)
      ⊎ ((call_between l (run l cs) c ≡ err runtime_error) × (call l c ≡ err runtime_error))
      ⊎ ((call_between l (run l cs) c ≡ err out_of_range)
          × (call (run l cs) c ≡ err runtime_error)
          × (some_removes (client_of c) cs ≡ true))
unfolding call_between add_bid add_ask remove_bid remove_ask subscribe unsubscribe
call_between_branches l cs (adds_session id session) = inl refl
call_between_branches l cs (removes_session id) = inl refl
call_between_branches l cs (adds_bid id bid) = guarded l cs (adds_bid id bid) _ refl (λ m. refl)
call_between_branches l cs (adds_ask id ask) = guarded l cs (adds_ask id ask) _ refl (λ m. refl)
call_between_branches l cs (removes_bid id order_id) =
    guarded l cs (removes_bid id order_id) _ refl (λ m. refl)
call_between_branches l cs (removes_ask id order_id) =
    guarded l cs (removes_ask id order_id) _ refl (λ m. refl)
call_between_branches l cs (subscribes id) = guarded l cs (subscribes id) _ refl (λ m. refl)
call_between_branches l cs (unsubscribes id) = guarded l cs (unsubscribes id) _ refl (λ m. refl)
