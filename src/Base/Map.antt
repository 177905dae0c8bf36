-- ===== src/Base/Map.antt =====
-- A map from numbers, for `std::unordered_map`: an association list, the newest key first.
-- The order of iteration, which C++ leaves open, is that of the list.
use Prim.Native.Nat.{ℕ}
use mathlib.Core.Path.{◌≡◌, refl, sym}
use mathlib.Core.Logic.{◌≢◌, inl, inr}
use mathlib.Core.Option.{Option, none, some}
use mathlib.Core.List.{List, [], ◌∷◌}
use native.Mathlib.Omega.{arith}
use mathlib.Core.Path.{subst}
use stakan.Base.Tests.{◌==◌, if◌then◌else◌, Bool-cases, ==_iff, ==_of_eq}

abbrev pub Map {ℓ} : Type ℓ → Type ℓ
Map V = List (ℕ × V)

module _ {ℓ} {V : Type ℓ} where
  -- `find`
  unfoldable pub lookup : ℕ → Map V → Option V
  lookup k [] = none
  lookup k ((j, v) ∷ m) = if j == k then some v else lookup k m

  -- `operator[]` with an assignment: the value of a key that is there is replaced in its place.
  unfoldable pub insert : ℕ → V → Map V → Map V
  insert k v [] = (k, v) ∷ []
  insert k v ((j, w) ∷ m) = if j == k then (k, v) ∷ m else (j, w) ∷ insert k v m

  -- `erase` by key. A key stands once at most, so all its entries are that one.
  unfoldable pub erase : ℕ → Map V → Map V
  erase k [] = []
  erase k ((j, w) ∷ m) = if j == k then erase k m else (j, w) ∷ erase k m

  pub lookup-erase :
      (gone key : ℕ) (m : Map V)
      → lookup key (erase gone m) ≡ (if gone == key then none else lookup key m)
  unfolding lookup erase
  lookup-erase gone key [] = ground arith
  lookup-erase gone key (entry ∷ rest) = ground (arith, lookup-erase gone key rest)

  pub lookup-insert :
      (new key : ℕ) (value : V) (m : Map V)
      → lookup key (insert new value m) ≡ (if new == key then some value else lookup key m)
  unfolding lookup insert
  lookup-insert new key value [] = refl
  lookup-insert new key value (entry ∷ rest) = ground (arith, lookup-insert new key value rest)

  -- No entry has this key.
  abbrev pub Lacks : ℕ → Map V → Type 0
  Lacks k [] = Unit {0}
  Lacks k ((j, v) ∷ m) = (j ≢ k) × Lacks k m

  abbrev pub UniqueKeys : Map V → Type 0
  UniqueKeys [] = Unit {0}
  UniqueKeys ((j, v) ∷ m) = Lacks j m × UniqueKeys m

  pub lookup-Lacks : (k : ℕ) (m : Map V) → Lacks k m → lookup k m ≡ none
  unfolding lookup
  lookup-Lacks k [] h = refl
  lookup-Lacks k ((j, v) ∷ m) h = ground (arith, lookup-Lacks k m, h.0)

  Lacks-insert : (k j : ℕ) (v : V) (m : Map V) → Lacks j m → k ≢ j → Lacks j (insert k v m)
  unfolding insert
  Lacks-insert k j v [] h ne = (ne, tt)
  Lacks-insert k j v ((i, w) ∷ m) h ne = elim (Bool-cases (i == k)) [
    | inl e ↦ rw e (ne, h.1)
    | inr e ↦ rw e (h.0, Lacks-insert k j v m h.1 ne)
  ]

  pub UniqueKeys-insert : (k : ℕ) (v : V) (m : Map V) → UniqueKeys m → UniqueKeys (insert k v m)
  unfolding insert
  UniqueKeys-insert k v [] u = (tt, tt)
  UniqueKeys-insert k v ((i, w) ∷ m) u = elim (Bool-cases (i == k)) [
    | inl e ↦ rw e (subst (λ j. Lacks j m) ((==_iff i k).0 e) u.0, u.1)
    | inr e ↦
        rw e (
          Lacks-insert k i v m u.0 (λ p. cc (e, ==_of_eq i k (sym p))),
          UniqueKeys-insert k v m u.1,
        )
  ]

  Lacks-erase : (k j : ℕ) (m : Map V) → Lacks j m → Lacks j (erase k m)
  unfolding erase
  Lacks-erase k j [] h = tt
  Lacks-erase k j ((i, w) ∷ m) h = elim (Bool-cases (i == k)) [
    | inl e ↦ rw e (Lacks-erase k j m h.1)
    | inr e ↦ rw e (h.0, Lacks-erase k j m h.1)
  ]

  pub UniqueKeys-erase : (k : ℕ) (m : Map V) → UniqueKeys m → UniqueKeys (erase k m)
  unfolding erase
  UniqueKeys-erase k [] u = tt
  UniqueKeys-erase k ((i, w) ∷ m) u = elim (Bool-cases (i == k)) [
    | inl e ↦ rw e (UniqueKeys-erase k m u.1)
    | inr e ↦ rw e (Lacks-erase k i m u.0, UniqueKeys-erase k m u.1)
  ]
