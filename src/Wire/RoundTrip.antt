-- ===== src/Wire/RoundTrip.antt =====
-- What a decoder makes of the bytes that an encoder wrote, and of bytes of another length.
use stakan.Base.{
  true, false, ◌↔◌, ==_of_eq, ==_of_ne, if_true, if_false, ℕ, zero, suc, ◌+◌, ◌*◌, ◌≡◌, refl, sym,
  ap, ◌∙◌, ◌≢◌, List, [], ◌∷◌, ◌++◌, arith, length, take, drop, replicate, ◌==◌, not, ok, err,
  runtime_error, length-append,
}
use mathlib.Core.List.{append-nil}
use stakan.Wire.{Snapshot, MdUpdate, SnapshotFits, MdUpdateFits, type_byte, top_n}
use stakan.Wire.Memory.{memcpy, orders_bytes, orders_of_bytes, md_update_bytes}
use stakan.Wire.Reads.{
  take-append, drop-append, drop-append_more, length-orders_bytes, orders_of_bytes-orders_bytes,
  length-md_update_bytes, md_update_of_bytes-md_update_bytes,
}
use stakan.Wire.Codec.{
  serialize_snapshot, deserialize_snapshot, serialize_md_update, deserialize_md_update,
}

drop_zeros : (m n k : ℕ) → m + k ≡ n → drop {A = ℕ} m (replicate n 0) ≡ replicate k 0
drop_zeros zero n k e = ap (λ j. replicate {A = ℕ} j 0) (omega arith)
drop_zeros (suc m) zero k e = absurd (omega arith)
drop_zeros (suc m) (suc n) k e = drop_zeros m n k (omega arith)

-- The first copy into a fresh buffer, behind the byte of the message's type.
memcpy_first :
    (b n m k : ℕ) (src : List ℕ)
    → length src ≡ n
    → n + m ≡ k
    → memcpy (b ∷ replicate k 0) 1 src ≡ b ∷ (src ++ replicate m 0)
unfolding memcpy
memcpy_first b n m k src e f =
    let past : 1 + length src ≡ suc n = omega arith in rw past (rw (drop_zeros n k m f))

-- The second copy, behind the first.
memcpy_second :
    (b n m at : ℕ) (src more : List ℕ)
    → length src ≡ n
    → length more ≡ m
    → suc n ≡ at
    → memcpy (b ∷ (src ++ replicate m 0)) at more ≡ b ∷ (src ++ more)
unfolding memcpy
memcpy_second b n m at src more e f g =
    let past : at + length more ≡ suc (n + m) = omega arith in
    rw past (
      rw (← g) (
        rw (
          take-append src (replicate m 0) n e,
          drop-append_more src (replicate m 0) n m (n + m) e refl,
          drop_zeros m m 0 (omega arith),
          append-nil,
        )))

pub serialize_md_update-bytes : (u : MdUpdate) → serialize_md_update u ≡ 3 ∷ md_update_bytes u
unfolding serialize_md_update type_byte
serialize_md_update-bytes u =
    memcpy_first 3 48 0 48 (md_update_bytes u) (length-md_update_bytes u) refl ∙ rw append-nil

take_whole : (xs : List ℕ) (n : ℕ) → length xs ≡ n → take n xs ≡ xs
take_whole xs n e = rw append-nil at (take-append xs [] n e)

side_length : (n : ℕ) → n ≡ top_n → 24 * n ≡ 480
side_length n e = omega arith

pub serialize_snapshot-bytes :
    (s : Snapshot)
    → SnapshotFits s
    → serialize_snapshot s ≡ 0 ∷ (orders_bytes s.top_bids ++ orders_bytes s.top_asks)
unfolding serialize_snapshot type_byte
serialize_snapshot-bytes s h =
    ap (λ buffer. memcpy buffer 481 (orders_bytes s.top_asks))
      (memcpy_first 0 480 480 960 (orders_bytes s.top_bids) bids refl)
    ∙ memcpy_second 0 480 480 481 (orders_bytes s.top_bids) (orders_bytes s.top_asks) bids asks refl
  where
    bids : length (orders_bytes s.top_bids) ≡ 480
    bids = length-orders_bytes s.top_bids ∙ side_length _ h.bids_count

    asks : length (orders_bytes s.top_asks) ≡ 480
    asks = length-orders_bytes s.top_asks ∙ side_length _ h.asks_count

-- An update whose fields fit in 64 bits is what decoding gives of its bytes.
pub deserialize_md_update-serialize :
    (u : MdUpdate) → MdUpdateFits u → deserialize_md_update (serialize_md_update u) ≡ ok u
unfolding deserialize_md_update
deserialize_md_update-serialize u h = rw (serialize_md_update-bytes u) (
    rw (length-md_update_bytes u) (
      rw (take_whole (md_update_bytes u) 48 (length-md_update_bytes u))
        (ap ok (md_update_of_bytes-md_update_bytes u h))))

-- A snapshot of two sides with `topN` orders each, whose fields fit in 64 bits, is what decoding
-- gives of its bytes.
pub deserialize_snapshot-serialize :
    (s : Snapshot) → SnapshotFits s → deserialize_snapshot (serialize_snapshot s) ≡ ok s
unfolding deserialize_snapshot
deserialize_snapshot-serialize s h =
    rw (serialize_snapshot-bytes s h) (rw whole (rw (first, second) (ap ok same)))
  where
    bids : length (orders_bytes s.top_bids) ≡ 480
    bids = length-orders_bytes s.top_bids ∙ side_length _ h.bids_count

    asks : length (orders_bytes s.top_asks) ≡ 480
    asks = length-orders_bytes s.top_asks ∙ side_length _ h.asks_count

    whole : length (orders_bytes s.top_bids ++ orders_bytes s.top_asks) ≡ 960
    whole =
        omega
          (arith, length-append {0} (orders_bytes s.top_bids) (orders_bytes s.top_asks), bids, asks)

    first : take 480 (orders_bytes s.top_bids ++ orders_bytes s.top_asks) ≡ orders_bytes s.top_bids
    first = take-append (orders_bytes s.top_bids) (orders_bytes s.top_asks) 480 bids

    second :
        take 480 (drop 480 (orders_bytes s.top_bids ++ orders_bytes s.top_asks))
        ≡ orders_bytes s.top_asks
    second =
        rw (drop-append (orders_bytes s.top_bids) (orders_bytes s.top_asks) 480 bids)
          (take_whole (orders_bytes s.top_asks) 480 asks)

    same :
        record {
          top_bids = orders_of_bytes top_n (orders_bytes s.top_bids);
          top_asks = orders_of_bytes top_n (orders_bytes s.top_asks);
        }
        ≡ s
    same = λ i. record {
      top_bids = orders_of_bytes-orders_bytes top_n s.top_bids h.bids_count h.bids_fit i;
      top_asks = orders_of_bytes-orders_bytes top_n s.top_asks h.asks_count h.asks_fit i;
    }

length_test : (n m : ℕ) → n ≢ m → not (n == m) ≡ true
length_test n m h = ap not (==_of_ne n m h)

same_length : (n m : ℕ) → n ≡ m → not (n == m) ≡ false
same_length n m e = ap not (==_of_eq n m e)

-- `Snapshot::deserialize` throws `std::runtime_error` exactly on bytes of another length than 961,
-- and `MDUpdate::deserialize` exactly on bytes of another length than 49.
pub deserialize_wrong_size :
    (bytes : List ℕ)
    → ((deserialize_snapshot bytes ≡ err runtime_error) ↔ (length bytes ≢ 961))
      × ((deserialize_md_update bytes ≡ err runtime_error) ↔ (length bytes ≢ 49))
unfolding deserialize_snapshot deserialize_md_update
deserialize_wrong_size bytes = (
  (
    λ e same. cc (sym (if_false _ _ (same_length _ _ same)) ∙ e),
    λ ne. if_true _ _ (length_test _ _ ne),
  ),
  (
    λ e same. cc (sym (if_false _ _ (same_length _ _ same)) ∙ e),
    λ ne. if_true _ _ (length_test _ _ ne),
  ),
)
