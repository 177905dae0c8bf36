-- ===== src/Book/Sorted.antt =====
-- A container that meets the interface of Book/Container: a list kept in the comparator's order.
pub mod Instance
use mathlib.Core.Bool.{Bool-set}
use mathlib.Core.List.{
  Mem, Nodup, Pairwise, Perm, filter, head?, Pairwise-cons, Nodup-cons, mem-cons, mem-cons_self,
  mem-cons_of_mem, not-mem-nil, mem-map_of_mem, exists_of_mem-map,
}
use mathlib.Core.List.Perm
use mathlib.Core.List.Pairwise
use mathlib.Core.List.Nodup
use mathlib.Core.HLevel.{⊥_prop}
use mathlib.Core.Logic.{∥∥₁_elim}
use mathlib.Core.Path.{subst}
use mathlib.Core.Logic.Or
use stakan.Base.{
  ℕ, ◌≡◌, ◌≢◌, ◌↔◌, ◌⊎◌, inl, inr, refl, sym, ap, ◌∙◌, Bool, true, false, List, [], ◌∷◌, map,
  Option, none, some, arith, ℕ_discrete, ◌==◌, ==_iff, if◌then◌else◌, Bool-cases, Option-cases,
}
use stakan.Wire.{Order}
use stakan.Book.Container.{OrderContainer}

unfoldable pub find_id : ℕ → List Order → Option Order
find_id i [] = none
find_id i (x ∷ xs) = if x.id == i then some x else find_id i xs

unfoldable pub remove_id : ℕ → List Order → List Order
remove_id i [] = []
remove_id i (x ∷ xs) = if x.id == i then xs else x ∷ remove_id i xs

unfoldable pub place : (Order → Order → Bool) → Order → List Order → List Order
place before o [] = o ∷ []
place before o (x ∷ xs) = if before o x then o ∷ x ∷ xs else x ∷ place before o xs

found_here : (x o : Order) → some x ≡ some o → x ≡ o
found_here x o e = cc

pub find_id-none :
    (i : ℕ) (xs : List Order) → find_id i xs ≡ none → (o : Order) → Mem o xs → o.id ≢ i
unfolding find_id
find_id-none i [] e o m same = absurd (not-mem-nil m)
find_id-none i (x ∷ xs) e o m same = elim (Bool-cases (x.id == i)) [
  | inl hit ↦ absurd (ground (arith, hit))
  | inr miss ↦
      Or.elim ⊥_prop (mem-cons.0 m) (λ p. ground (arith, miss))
        (λ later. find_id-none i xs (rw miss at e) o later same)
]

pub find_id-some :
    (i : ℕ) (xs : List Order) (o : Order) → find_id i xs ≡ some o → (o.id ≡ i) × Mem o xs
unfolding find_id
find_id-some i [] o e = cc
find_id-some i (x ∷ xs) o e = elim (Bool-cases (x.id == i)) [
  | inl hit ↦
      let same : x ≡ o = found_here x o (rw hit at e) in
      (subst (λ y. (y.id ≡ i) × Mem y (x ∷ xs)) same ((==_iff x.id i).0 hit, mem-cons_self))
  | inr miss ↦ let (p, m) = find_id-some i xs o (rw miss at e) in (p, mem-cons_of_mem x m)
]

pub remove_id-perm :
    (i : ℕ) (xs : List Order) (o : Order) → find_id i xs ≡ some o → Perm xs (o ∷ remove_id i xs)
unfolding find_id remove_id
remove_id-perm i [] o e = cc
remove_id-perm i (x ∷ xs) o e = elim (Bool-cases (x.id == i)) [
  | inl hit ↦ let same : x ≡ o = found_here x o (rw hit at e) in rw hit (Perm.cons' same Perm.rfl)
  | inr miss ↦
      rw miss (Perm.trans (Perm.cons x (remove_id-perm i xs o (rw miss at e))) (Perm.swap o x _))
]

pub remove_id-none : (i : ℕ) (xs : List Order) → find_id i xs ≡ none → remove_id i xs ≡ xs
unfolding find_id remove_id
remove_id-none i [] e = refl
remove_id-none i (x ∷ xs) e = ground (arith, remove_id-none i xs)

pub place-perm :
    (before : Order → Order → Bool) (o : Order) (xs : List Order)
    → Perm (place before o xs) (o ∷ xs)
unfolding place
place-perm before o [] = Perm.rfl
place-perm before o (x ∷ xs) = elim (Bool-cases (before o x)) [
  | inl first ↦ rw first Perm.rfl
  | inr later ↦ rw later (Perm.trans (Perm.cons x (place-perm before o xs)) (Perm.swap o x xs))
]

mem-remove_id : (i : ℕ) (xs : List Order) (a : Order) → Mem a (remove_id i xs) → Mem a xs
mem-remove_id i xs a m = elim (Option-cases (find_id i xs)) [
  | inl e ↦ rw (remove_id-none i xs e) at m
  | inr (o, e) ↦ (Perm.mem_iff (remove_id-perm i xs o e)).1 (mem-cons_of_mem o m)
]

-- Only these two laws of the comparator are needed here.
module _ (before : Order → Order → Bool) (irrefl : (a : Order) → before a a ≡ false)
    (trans : (a b c : Order) → before a b ≡ true → before b c ≡ true → before a c ≡ true) where
  abbrev pub InOrder : List Order → Type 0
  InOrder = Pairwise (λ a b. before b a ≡ false)

  behind : (o x a : Order) → before o x ≡ true → before a x ≡ false → before a o ≡ false
  behind o x a first later = elim (Bool-cases (before a o)) [
    | inl e ↦ cc (trans a o x e first)
    | inr e ↦ e
  ]

  pub place-InOrder : (o : Order) (xs : List Order) → InOrder xs → InOrder (place before o xs)
  unfolding place
  place-InOrder o [] h = Pairwise-cons.1 (λ a m. absurd (not-mem-nil m), h)
  place-InOrder o (x ∷ xs) h = elim (Bool-cases (before o x)) [
    | inl first ↦ rw first (
        Pairwise-cons.1 (
          λ a m.
              Or.elim (Bool-set _ _) (mem-cons.0 m) (λ e. behind o x a first (rw e (irrefl x)))
                (λ later. behind o x a first ((Pairwise-cons.0 h).0 a later)),
          h,
        ))
    | inr later ↦ rw later (
        Pairwise-cons.1 (
          λ a m.
              Or.elim (Bool-set _ _) (mem-cons.0 ((Perm.mem_iff (place-perm before o xs)).0 m))
                (λ e. rw e later) ((Pairwise-cons.0 h).0 a),
          place-InOrder o xs (Pairwise-cons.0 h).1,
        ))
  ]

  pub remove_id-InOrder : (i : ℕ) (xs : List Order) → InOrder xs → InOrder (remove_id i xs)
  unfolding remove_id
  remove_id-InOrder i [] h = h
  remove_id-InOrder i (x ∷ xs) h = elim (Bool-cases (x.id == i)) [
    | inl hit ↦ rw hit (Pairwise-cons.0 h).1
    | inr miss ↦ rw miss (
        Pairwise-cons.1 (
          λ a m. (Pairwise-cons.0 h).0 a (mem-remove_id i xs a m),
          remove_id-InOrder i xs (Pairwise-cons.0 h).1,
        ))
  ]

abbrev pub ids : List Order → List ℕ
ids = map (λ o. o.id)

pub place-ids :
    (before : Order → Order → Bool) (o : Order) (xs : List Order)
    → find_id o.id xs ≡ none
    → Nodup (ids xs)
    → Nodup (ids (place before o xs))
place-ids before o xs free u =
    Perm.nodup (Perm.symm (Perm.map (λ x. x.id) (place-perm before o xs))) (
      Nodup-cons.1 (
        (λ m.
            ∥∥₁_elim (exists_of_mem-map m) ⊥_prop
              (λ found. find_id-none o.id xs free found.0 found.1 found.2)),
        u,
      ))

pub remove_id-ids : (i : ℕ) (xs : List Order) → Nodup (ids xs) → Nodup (ids (remove_id i xs))
remove_id-ids i xs u = elim (Option-cases (find_id i xs)) [
  | inl e ↦ rw (remove_id-none i xs e) u
  | inr (o, e) ↦ (Nodup-cons.0 (Perm.nodup (Perm.map (λ x. x.id) (remove_id-perm i xs o e)) u)).1
]
