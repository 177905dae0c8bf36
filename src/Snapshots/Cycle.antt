-- ===== src/Snapshots/Cycle.antt =====
-- `get_snapshot` walks round the list.
use stakan.Base.{
  ℕ, zero, suc, ◌+◌, ◌%◌, ◌^◌, ◌<◌, ◌≡◌, refl, arith, List, [], ◌∷◌, some, length, get_elem?, add64,
}
use stakan.Wire.{Snapshot}
use stakan.Snapshots.{TmpSnapshotCreator, get_snapshot}

-- The creator after `k` calls.
unfoldable pub after_calls : ℕ → TmpSnapshotCreator → TmpSnapshotCreator
after_calls zero c = c
after_calls (suc k) c = after_calls k (get_snapshot c).0

get_elem?-some :
    {A : Type 0} (xs : List A) (i : ℕ) → i < length xs → (a : A) × (get_elem? xs i ≡ some a)
get_elem?-some [] i h = elim h [ ]
get_elem?-some (x ∷ xs) zero h = (x, refl)
get_elem?-some (x ∷ xs) (suc i) h = get_elem?-some xs i (omega arith)

calls_advance :
    (k : ℕ) (c : TmpSnapshotCreator)
    → 0 < length c.snapshots
    → c.current_index + k < 2 ^ 64
    → ((after_calls k c).snapshots ≡ c.snapshots)
      × ((after_calls k c).current_index ≡ c.current_index + k)
unfolding after_calls get_snapshot add64
calls_advance zero c h b = (refl, omega arith)
calls_advance (suc k) c h b =
    ground (arith, calls_advance k (record c { current_index = (c.current_index + 1) % 2 ^ 64 }))

-- With snapshots there, and fewer than 2 ^ 64 calls in all, the call after `k` others returns the element
-- at the starting index plus `k`, counted round the list, and that element is there.
pub get_snapshot_cycles :
    (k : ℕ) (c : TmpSnapshotCreator)
    → 0 < length c.snapshots
    → c.current_index + k < 2 ^ 64
    → (s : Snapshot) × ((get_snapshot (after_calls k c)).1 ≡ some s)
      × (get_elem? c.snapshots ((c.current_index + k) % length c.snapshots) ≡ some s)
get_snapshot_cycles k c h b =
    let (s, found) =
      get_elem?-some c.snapshots ((c.current_index + k) % length c.snapshots) (grind arith) in
    (s, unfold get_snapshot in ground (arith, calls_advance k c h b, found), found)
