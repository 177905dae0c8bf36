-- ===== src/Server/Hello.antt =====
-- The greeting of a client: what `parse_client_id` reads from it.
pub mod Loops
use mathlib.Core.Path.{subst}
use mathlib.Core.List.{append_assoc}
use stakan.Base.{
  ℕ, zero, suc, ◌+◌, ◌-◌, ◌*◌, ◌%◌, ◌^◌, ◌≤◌, ◌<◌, ◌≡◌, ◌≢◌, refl, sym, ap, ◌∙◌, Bool, true, false,
  not, ◌&&◌, ◌||◌, List, [], ◌∷◌, ◌++◌, length, length-append, replicate, length-replicate, ◌==◌,
  ltb, leb, if◌then◌else◌, if_true, if_false, ==_of_eq, ==_of_ne, arith, tests, codes, add64, mul64,
}
use stakan.Server.{
  byte_at, is_trailing, hello, trim_end, trim_begin, matches, parse_digits, parse_client_id,
}
use stakan.Server.Hello.Loops.{
  AllDigits, AllTrailing, value_of, byte_at-cut, matches-cut, trim_begin-cut, trim_end-cut,
  trim_end-stops, parse_digits-cut,
}

-- The body of `parse_client_id` where every test is passed.
passed :
    (frame : List ℕ) (end_ beg : ℕ)
    → trim_end frame (length frame) ≡ end_
    → trim_begin frame end_ 0 ≡ beg
    → leb end_ beg ≡ false
    → ltb (end_ - beg) 7 ≡ false
    → matches frame beg hello ≡ true
    → byte_at frame (beg + 5) ≡ 32
    → parse_client_id frame ≡ parse_digits frame (end_ - (beg + 6)) (beg + 6) 0
unfolding parse_client_id
passed frame end_ beg e b some_left long match space =
    rw (e, b, parse_client_id)
      (if_false _ _ some_left
        ∙ if_false _ _ long
        ∙ if_false _ _ (ap not match)
        ∙ if_false _ _ (ap not (==_of_eq _ _ space)))

not_trailing : (d : ℕ) → 48 ≤ d → is_trailing d ≡ false
not_trailing d lo = ground arith

-- The last of some digits is no line end or space.
last_digit :
    (d : ℕ) (ds : List ℕ)
    → AllDigits (d ∷ ds)
    → (init : List ℕ) × (last : ℕ) × (d ∷ ds ≡ init ++ (last ∷ [])) × (is_trailing last ≡ false)
last_digit d [] (lo, hi, all) = ([], d, refl, not_trailing d lo)
last_digit d (c ∷ ds) (lo, hi, all) =
    let (init, last, e, t) = last_digit c ds all in (d ∷ init, last, ap (λ xs. d ∷ xs) e, t)

-- `HELLO`, a space and the digits, with any spaces before and line ends or spaces behind.
abbrev pub hello_frame : ℕ → List ℕ → List ℕ → List ℕ
hello_frame spaces digits trail = replicate spaces 32 ++ (hello ++ (32 ∷ (digits ++ trail)))

-- The part before the digits.
head : ℕ → List ℕ
head spaces = replicate spaces 32 ++ (hello ++ (32 ∷ []))

length-head : (spaces : ℕ) → length (head spaces) ≡ spaces + 6
unfolding head
length-head spaces = omega (
  arith,
  length-append (replicate spaces 32) (hello ++ (32 ∷ [])),
  length-replicate {A = ℕ} spaces 32,
)

frame-head :
    (spaces : ℕ) (ds trail : List ℕ) → hello_frame spaces ds trail ≡ head spaces ++ (ds ++ trail)
unfolding head
frame-head spaces ds trail =
    sym (append_assoc (replicate spaces 32) (hello ++ (32 ∷ [])) (ds ++ trail))

frame-last :
    (spaces : ℕ) (init : List ℕ) (last : ℕ) (trail : List ℕ)
    → hello_frame spaces (init ++ (last ∷ [])) trail ≡ (head spaces ++ init) ++ (last ∷ trail)
frame-last spaces init last trail =
    frame-head spaces (init ++ (last ∷ [])) trail
    ∙ ap (λ xs. head spaces ++ xs) (append_assoc init (last ∷ []) trail)
    ∙ sym (append_assoc (head spaces) init (last ∷ trail))

length-frame :
    (spaces : ℕ) (ds trail : List ℕ)
    → length (hello_frame spaces ds trail) ≡ length trail + (spaces + 6 + length ds)
length-frame spaces ds trail = omega (
  arith,
  ap length (frame-head spaces ds trail),
  length-append (head spaces) (ds ++ trail),
  length-append ds trail,
  length-head spaces,
)

end_of_frame :
    (spaces : ℕ) (init : List ℕ) (last : ℕ) (trail : List ℕ)
    → is_trailing last ≡ false
    → AllTrailing trail
    → (let frame = hello_frame spaces (init ++ (last ∷ [])) trail in
        trim_end frame (length frame) ≡ spaces + 6 + length (init ++ (last ∷ [])))
end_of_frame spaces init last trail t spare =
    let ds = init ++ (last ∷ []) in
    let frame = hello_frame spaces ds trail in
    let cut = frame-last spaces init last trail in
    let before : spaces + 6 + length init ≡ length (head spaces ++ init) =
      omega (arith, length-append (head spaces) init, length-head spaces) in
    let whole = frame-head spaces ds trail ∙ sym (append_assoc (head spaces) ds trail) in
    let size : spaces + 6 + length ds ≡ suc (spaces + 6 + length init) =
      omega (arith, length-append init (last ∷ [])) in
    ap (trim_end frame) (length-frame spaces ds trail)
    ∙ trim_end-cut frame (head spaces ++ ds) trail (spaces + 6 + length ds) whole
        (omega (arith, length-append (head spaces) ds, length-head spaces)) spare
    ∙ ap (trim_end frame) size
    ∙ trim_end-stops frame (head spaces ++ init) last trail _ cut before t
    ∙ sym size

-- A greeting is read as its number, wrapped to 64 bits: `HELLO`, a space, one or more digits,
-- with any number of spaces before, and line ends and spaces behind.
pub parse_client_id-hello :
    (spaces d : ℕ) (ds trail : List ℕ)
    → AllDigits (d ∷ ds)
    → AllTrailing trail
    → parse_client_id (hello_frame spaces (d ∷ ds) trail) ≡ value_of 0 (d ∷ ds) % 2 ^ 64
parse_client_id-hello spaces d ds trail all spare =
    let frame = hello_frame spaces (d ∷ ds) trail in
    let (init, last, e, t) = last_digit d ds all in
    let end_ = spaces + 6 + length (d ∷ ds) in
    let ends : trim_end frame (length frame) ≡ end_ =
      subst
        (λ xs.
          trim_end (hello_frame spaces xs trail) (length (hello_frame spaces xs trail))
          ≡ spaces + 6 + length xs)
        (sym e) (end_of_frame spaces init last trail t spare) in
    let begins : trim_begin frame end_ 0 ≡ spaces =
      trim_begin-cut frame [] spaces 72 (69 ∷ 76 ∷ 76 ∷ 79 ∷ 32 ∷ (d ∷ ds ++ trail)) end_ 0 refl
        refl (λ p. absurd (omega arith)) (omega arith)
      ∙ omega arith in
    let matched =
      matches-cut frame (replicate spaces 32) hello (32 ∷ (d ∷ ds ++ trail)) spaces refl
        (sym (length-replicate spaces 32)) in
    let space =
      byte_at-cut frame (replicate spaces 32 ++ hello) 32 (d ∷ ds ++ trail) (spaces + 5)
        (sym (append_assoc (replicate spaces 32) hello _))
        (omega
          (arith, length-append (replicate spaces 32) hello, length-replicate {A = ℕ} spaces 32)) in
    passed frame end_ spaces ends begins (ground arith) (ground arith) matched space
    ∙ ap (λ n. parse_digits frame n (spaces + 6) 0) (omega arith)
    ∙ parse_digits-cut frame (head spaces) (d ∷ ds) trail (spaces + 6) 0
        (frame-head spaces (d ∷ ds) trail) (sym (length-head spaces)) all
