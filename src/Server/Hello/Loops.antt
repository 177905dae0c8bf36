-- ===== src/Server/Hello/Loops.antt =====
-- The loops of `parse_client_id`, each on a frame that is cut at the index it has reached.
use mathlib.Core.List.{append_assoc}
use stakan.Base.{
  ℕ, zero, suc, ◌+◌, ◌-◌, ◌*◌, ◌%◌, ◌^◌, ◌≤◌, ◌<◌, ◌≡◌, ◌≢◌, refl, sym, ap, ◌∙◌, true, false, ◌||◌,
  List, [], ◌∷◌, ◌++◌, length, length-append, replicate, get_or, ltb, if_true, if_false, ==_of_eq,
  ==_of_ne, arith, add64, mul64,
}
use stakan.Server.{byte_at, is_trailing, trim_end, trim_begin, matches, parse_digits}

IsDigit : ℕ → Type 0
IsDigit c = (48 ≤ c) × (c ≤ 57)

abbrev pub AllDigits : List ℕ → Type 0
AllDigits [] = Unit {0}
AllDigits (c ∷ cs) = (48 ≤ c) × (c ≤ 57) × AllDigits cs

-- Line ends and spaces.
abbrev pub AllTrailing : List ℕ → Type 0
AllTrailing [] = Unit {0}
AllTrailing (c ∷ cs) = (is_trailing c ≡ true) × AllTrailing cs

-- The number that the digits write behind those of `v`.
unfoldable pub value_of : ℕ → List ℕ → ℕ
value_of v [] = v
value_of v (d ∷ ds) = value_of (v * 10 + (d - 48)) ds

get_or-append :
    (pre : List ℕ) (c : ℕ) (rest : List ℕ) → get_or (pre ++ (c ∷ rest)) (length pre) 0 ≡ c
get_or-append [] c rest = refl
get_or-append (x ∷ pre) c rest = get_or-append pre c rest

pub byte_at-cut :
    (frame pre : List ℕ) (c : ℕ) (rest : List ℕ) (i : ℕ)
    → frame ≡ pre ++ (c ∷ rest)
    → i ≡ length pre
    → byte_at frame i ≡ c
unfolding byte_at
byte_at-cut frame pre c rest i e at_ =
    ap (λ f. get_or f i 0) e
    ∙ ap (λ k. get_or (pre ++ (c ∷ rest)) k 0) at_
    ∙ get_or-append pre c rest

moved : (pre : List ℕ) (c i : ℕ) → i ≡ length pre → suc i ≡ length (pre ++ (c ∷ []))
moved pre c i e = omega (arith, length-append pre (c ∷ []))

recut :
    (frame pre : List ℕ) (c : ℕ) (rest : List ℕ)
    → frame ≡ pre ++ (c ∷ rest)
    → frame ≡ (pre ++ (c ∷ [])) ++ rest
recut frame pre c rest e = e ∙ sym (append_assoc pre (c ∷ []) rest)

pub matches-cut :
    (frame pre cs post : List ℕ) (i : ℕ)
    → frame ≡ pre ++ (cs ++ post)
    → i ≡ length pre
    → matches frame i cs ≡ true
unfolding matches
matches-cut frame pre [] post i e at_ = refl
matches-cut frame pre (c ∷ cs) post i e at_ =
    if_true _ _ (==_of_eq _ _ (byte_at-cut frame pre c (cs ++ post) i e at_))
    ∙ matches-cut frame (pre ++ (c ∷ [])) cs post (suc i) (recut frame pre c (cs ++ post) e)
        (moved pre c i at_)

pub trim_begin-cut :
    (frame pre : List ℕ) (k c : ℕ) (rest : List ℕ) (n i : ℕ)
    → frame ≡ pre ++ (replicate k 32 ++ (c ∷ rest))
    → i ≡ length pre
    → c ≢ 32
    → k < n
    → trim_begin frame n i ≡ i + k
unfolding trim_begin
trim_begin-cut frame pre k c rest zero i e at_ ne lt = absurd (omega arith)
trim_begin-cut frame pre zero c rest (suc n) i e at_ ne lt =
    if_false _ _ (==_of_ne _ _ (λ p. ne (sym (byte_at-cut frame pre c rest i e at_) ∙ p)))
    ∙ omega arith
trim_begin-cut frame pre (suc k) c rest (suc n) i e at_ ne lt =
    let after = replicate k 32 ++ (c ∷ rest) in
    if_true _ _ (==_of_eq _ _ (byte_at-cut frame pre 32 after i e at_))
    ∙ trim_begin-cut frame (pre ++ (32 ∷ [])) k c rest n (suc i) (recut frame pre 32 after e)
        (moved pre 32 i at_) ne (omega arith)
    ∙ omega arith

-- The line ends and spaces behind `pre` are cut off.
pub trim_end-cut :
    (frame pre post : List ℕ) (i : ℕ)
    → frame ≡ pre ++ post
    → i ≡ length pre
    → AllTrailing post
    → trim_end frame (length post + i) ≡ trim_end frame i
unfolding trim_end
trim_end-cut frame pre [] i e at_ all = ap (trim_end frame) (omega arith)
trim_end-cut frame pre (c ∷ post) i e at_ all =
    ap (trim_end frame) (omega arith)
    ∙ trim_end-cut frame (pre ++ (c ∷ [])) post (suc i) (recut frame pre c post e)
        (moved pre c i at_) all.1
    ∙ if_true _ _ (ap is_trailing (byte_at-cut frame pre c post i e at_) ∙ all.0)

pub trim_end-stops :
    (frame pre : List ℕ) (c : ℕ) (rest : List ℕ) (i : ℕ)
    → frame ≡ pre ++ (c ∷ rest)
    → i ≡ length pre
    → is_trailing c ≡ false
    → trim_end frame (suc i) ≡ suc i
unfolding trim_end
trim_end-stops frame pre c rest i e at_ ne =
    if_false _ _ (ap is_trailing (byte_at-cut frame pre c rest i e at_) ∙ ne)

digit_step : (v d : ℕ) → add64 (mul64 (v % 2 ^ 64) 10) (d - 48) ≡ (v * 10 + (d - 48)) % 2 ^ 64
unfolding add64 mul64
digit_step v d = omega arith

digit_test : (d : ℕ) → 48 ≤ d → d ≤ 57 → (ltb d 48 || ltb 57 d) ≡ false
digit_test d lo hi = ground arith

pub parse_digits-cut :
    (frame pre ds post : List ℕ) (i v : ℕ)
    → frame ≡ pre ++ (ds ++ post)
    → i ≡ length pre
    → AllDigits ds
    → parse_digits frame (length ds) i (v % 2 ^ 64) ≡ value_of v ds % 2 ^ 64
unfolding parse_digits value_of
parse_digits-cut frame pre [] post i v e at_ all = refl
parse_digits-cut frame pre (d ∷ ds) post i v e at_ (lo, hi, all) =
    let here = byte_at-cut frame pre d (ds ++ post) i e at_ in
    if_false _ _ (ap (λ c. ltb c 48 || ltb 57 c) here ∙ digit_test d lo hi)
    ∙ ap (parse_digits frame (length ds) (suc i))
        (ap (λ c. add64 (mul64 (v % 2 ^ 64) 10) (c - 48)) here ∙ digit_step v d)
    ∙ parse_digits-cut frame (pre ++ (d ∷ [])) ds post (suc i) (v * 10 + (d - 48))
        (recut frame pre d (ds ++ post) e) (moved pre d i at_) all
