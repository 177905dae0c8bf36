-- ===== src/Clients/Subscriptions.antt =====
-- Who is subscribed, and who gets a broadcast.
use mathlib.Core.Path.{subst}
use mathlib.Core.Bool.{Bool-set}
use stakan.Clients.Lives.{life, seen, seen-life}
use mathlib.Core.List.{
  Nodup, Nodup-nil, Nodup-cons, Mem, mem-cons, mem-cons_self, mem-cons_of_mem, not-mem-nil,
}
use mathlib.Core.Logic.Or
use stakan.Base.{
  ℕ, ◌≡◌, ◌↔◌, ◌⊎◌, refl, sym, ◌∙◌, ap, Bool, true, false, List, [], ◌∷◌, none, some, ok, err,
  runtime_error, ◌==◌, if◌then◌else◌, arith, Option-cases, Bool-cases, inl, inr, ℕ_discrete,
  ==_of_eq, ==_of_ne,
}
use stakan.Base.Map.{
  Map, lookup, lookup-insert, Lacks, UniqueKeys, lookup-Lacks, UniqueKeys-insert, UniqueKeys-erase,
}
use stakan.Clients.{
  ClientList, ClientContext, add_session, remove_session, make_client_list, has_client, client_at,
  put_context, subscribe, unsubscribe, is_subscribed, subscribed_ids, get_subscribed_clients,
}
use stakan.Clients.History.{Call, step, run, step_keeps}

-- A client that is there becomes subscribed, and nobody else's flag changes. For an unknown id
-- `std::runtime_error` is thrown.
pub subscribe_branches :
    (l : ClientList) (id j : ℕ)
    → ((has_client l id ≡ false) × (subscribe l id ≡ err runtime_error))
      ⊎ ((has_client l id ≡ true)
          × ((m : ClientList) × (subscribe l id ≡ ok m)
              × (is_subscribed m j ≡ (if id == j then ok true else is_subscribed l j))))
unfolding has_client subscribe is_subscribed client_at put_context
subscribe_branches l id j = elim (Option-cases (lookup id l.clients)) [
  | inl e ↦ inl (rw (e, has_client), rw e)
  | inr (c, e) ↦ inr (
    rw (e, has_client),
    (
      put_context l id (record c { subscribed = true }),
      rw e,
      ground (arith, lookup-insert id j (record c { subscribed = true }) l.clients),
    ),
  )
]

unsubscribed_same : (l m : ClientList) (id : ℕ) → unsubscribe l id ≡ ok m → m ≡ l
unfolding unsubscribe client_at
unsubscribed_same l m id e = elim (Option-cases (lookup id l.clients)) [
  | inl p ↦ cc (rw (p) at e)
  | inr (c, p) ↦ cc (rw (p) at e)
]

-- When unsubscribing a subscribed client returns, it has changed nothing: the client stays
-- subscribed.
pub unsubscribe_keeps :
    (l m : ClientList) (id : ℕ)
    → unsubscribe l id ≡ ok m
    → is_subscribed l id ≡ ok true
    → (m ≡ l) × (is_subscribed m id ≡ ok true)
unsubscribe_keeps l m id e h =
    let same = unsubscribed_same l m id e in (same, ap (λ k. is_subscribed k id) same ∙ h)

-- Whether the client is there and subscribed.
flag : Map ClientContext → ℕ → Bool
flag m id = elim (lookup id m) [ none ↦ false | some c ↦ c.subscribed ]

flag_here :
    (m : Map ClientContext) (j id : ℕ) (d : ClientContext)
    → j ≡ id
    → flag ((j, d) ∷ m) id ≡ d.subscribed
unfolding flag lookup
flag_here m j id d e = rw (==_of_eq j id e, flag, lookup)

flag_other :
    (m : Map ClientContext) (j id : ℕ) (d : ClientContext)
    → ¬ (j ≡ id)
    → flag ((j, d) ∷ m) id ≡ flag m id
unfolding flag lookup
flag_other m j id d e = rw (==_of_ne j id e, flag, lookup)

flag-Lacks : (m : Map ClientContext) (id : ℕ) → Lacks id m → flag m id ≡ false
unfolding flag
flag-Lacks m id h = rw (lookup-Lacks id m h, flag)

subscribed_ids_iff :
    (m : Map ClientContext) (id : ℕ) → UniqueKeys m → Mem id (subscribed_ids m) ↔ (flag m id ≡ true)
unfolding subscribed_ids
subscribed_ids_iff [] id u = (λ m. absurd (not-mem-nil m), λ h. unfold flag lookup in cc h)
subscribed_ids_iff ((j, d) ∷ m) id u =
    let (there, back) = subscribed_ids_iff m id u.1 in
    elim (ℕ_discrete j id) [
      | yes here ↦
          let absent : flag m id ≡ false = flag-Lacks m id (subst (λ k. Lacks k m) here u.0) in
          rw (flag_here m j id d here) (elim (Bool-cases d.subscribed) [
            | inl on ↦ rw on (λ x. refl, λ x. rw here mem-cons_self)
            | inr off ↦ rw off (λ x. cc (there x), λ x. cc)
          ])
      | no other ↦ rw (flag_other m j id d other) (elim (Bool-cases d.subscribed) [
        | inl on ↦ rw on (
          λ x. Or.elim (Bool-set _ _) (mem-cons.0 x) (λ e. absurd (other (sym e))) there,
          λ x. mem-cons_of_mem j (back x),
        )
        | inr off ↦ rw off (there, back)
      ])
    ]

subscribed_ids-Nodup : (m : Map ClientContext) → UniqueKeys m → Nodup (subscribed_ids m)
unfolding subscribed_ids
subscribed_ids-Nodup [] u = Nodup-nil
subscribed_ids-Nodup ((j, d) ∷ m) (absent, u) = elim (Bool-cases d.subscribed) [
  | inl on ↦ rw on (
      Nodup-cons.1
        (λ x. cc ((subscribed_ids_iff m j u).0 x, flag-Lacks m j absent), subscribed_ids-Nodup m u))
  | inr off ↦ rw off (subscribed_ids-Nodup m u)
]

flag-seen : (l : ClientList) (id : ℕ) → (flag l.clients id ≡ true) ↔ (seen l id ≡ some true)
unfolding flag
flag-seen l id = elim (Option-cases (lookup id l.clients)) [
  | inl e ↦ rw (e, flag) (λ x. cc, λ x. cc)
  | inr (c, e) ↦ rw (e, flag) (λ x. ap some x, λ x. cc)
]

-- No client id stands twice in the map.
abbrev HasUniqueIds : ClientList → Type 0
HasUniqueIds l = UniqueKeys l.clients

step-HasUniqueIds : (l : ClientList) (c : Call) → HasUniqueIds l → HasUniqueIds (step l c)
unfolding add_session remove_session put_context
step-HasUniqueIds l c u =
    step_keeps HasUniqueIds l u (λ id ctx. UniqueKeys-insert id ctx l.clients u) c
      (λ id s. UniqueKeys-insert id _ l.clients u) (λ id e. UniqueKeys-erase id l.clients u)

run-HasUniqueIds : (l : ClientList) (cs : List Call) → HasUniqueIds l → HasUniqueIds (run l cs)
unfolding run
run-HasUniqueIds l [] u = u
run-HasUniqueIds l (c ∷ cs) u = run-HasUniqueIds (step l c) cs (step-HasUniqueIds l c u)

pub run-UniqueKeys : (cs : List Call) → UniqueKeys (run make_client_list cs).clients
run-UniqueKeys cs = run-HasUniqueIds make_client_list cs (unfold make_client_list in tt)

-- After any sequence of calls on a new list, `get_subscribed_clients` holds an id exactly when the calls
-- made it subscribed: it was let in, `subscribe` was called for it while it was there, and it was not
-- removed since; `unsubscribe` and another session change nothing. No id stands twice.
pub get_subscribed_clients_iff :
    (cs : List Call)
    → ((id : ℕ)
        → Mem id (get_subscribed_clients (run make_client_list cs)) ↔ (life id none cs ≡ some true))
      × Nodup (get_subscribed_clients (run make_client_list cs))
unfolding get_subscribed_clients
get_subscribed_clients_iff cs =
    let l = run make_client_list cs in
    (
      λ id.
          let (there, back) = subscribed_ids_iff l.clients id (run-UniqueKeys cs) in
          let (seen_of, of_seen) = flag-seen l id in
          (
            λ x. sym (seen-life id cs) ∙ seen_of (there x),
            λ e. back (of_seen (seen-life id cs ∙ e)),
          ),
      subscribed_ids-Nodup l.clients (run-UniqueKeys cs),
    )
