-- ===== src/Tests/Sources.antt =====
-- The sources of snapshots: random numbers and the book.
use mathlib.Core.List.{Perm, Pairwise}
use mathlib.Core.List.Perm
use native.Mathlib.Omega.{mod_fact}
use stakan.Base.{ℕ, suc, ◌+◌, ◌-◌, ◌≤◌, ◌%◌, ◌≡◌, Bool, false, List, [], ◌∷◌, length, arith}
use stakan.Wire.{Order}
use stakan.Snapshots.Random.{IsWeakOrder, Sort, Uniform, generate_random_snapshots}
use stakan.Snapshots.Random.Shape.{AllDrawnSnapshots, generate_random_snapshots_lem}
use stakan.Book.Sorted.{place, place-perm, place-InOrder}

unfoldable insertion_sort : (Order → Order → Bool) → List Order → List Order
unfolding place
insertion_sort before [] = []
insertion_sort before (o ∷ os) = place before o (insertion_sort before os)

insertion_sort-perm :
    (before : Order → Order → Bool) (os : List Order) → Perm (insertion_sort before os) os
unfolding insertion_sort
insertion_sort-perm before [] = Perm.rfl
insertion_sort-perm before (o ∷ os) =
    Perm.trans (place-perm before o (insertion_sort before os))
      (Perm.cons o (insertion_sort-perm before os))

insertion_sort_ordered :
    (before : Order → Order → Bool) (os : List Order)
    → IsWeakOrder before
    → Pairwise (λ a b. before b a ≡ false) (insertion_sort before os)
unfolding insertion_sort
insertion_sort_ordered before [] weak = Pairwise.nil
insertion_sort_ordered before (o ∷ os) weak =
    place-InOrder before weak.irrefl weak.trans o _ (insertion_sort_ordered before os weak)

abbrev sorts : Sort
sorts = record {
  sort = insertion_sort;
  sort-perm = insertion_sort-perm;
  sort-ordered = insertion_sort_ordered;
}

mod_bound : (n k : ℕ) → n % suc k ≤ k
mod_bound n k = omega (arith, mod_fact n k)

-- A generator that counts.
abbrev counting : Uniform ℕ
counting = record {
  draw = λ a b n. (a + n % suc (b - a), suc n);
  low = λ a b n h. omega arith;
  high = λ a b n h. omega (arith, mod_bound n (b - a));
}

generate_random_snapshots_lem_example :
    (length (generate_random_snapshots counting sorts 3 7) ≡ 3)
    × AllDrawnSnapshots (generate_random_snapshots counting sorts 3 7)
generate_random_snapshots_lem_example = generate_random_snapshots_lem counting sorts 3 7
