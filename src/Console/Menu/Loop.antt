-- ===== src/Console/Menu/Loop.antt =====
-- The loop of the menu against the list of the words of its input.
use mathlib.Core.Option
use stakan.Base.{
  ℕ, zero, suc, ◌<◌, ◌≡◌, refl, ap, ◌∙◌, sym, Bool, true, false, not, ◌&&◌, List, [], ◌∷◌, ◌++◌,
  some, Result, ok, err, ◌>>=◌, Result-cases, inl, inr, if◌then◌else◌, codes, length, arith,
}
use stakan.Console.Input.{words, extract, extract-cases}
use stakan.Console.Menu.{
  Strings, Commands, Handled, Ended, announce, answer, parse_command, run_loop, run,
}

-- The input that is not read, as words.
abbrev pub by_words :
    {World : Type 0} → Result (Ended World (List ℕ)) → Result (Ended World (List (List ℕ)))
by_words (err e) = err e
by_words (ok end) = ok (record { world = end.world; printed = end.printed; rest = words end.rest })

module _ {World : Type 0} (strings : Strings) (commands : Commands World) where
  -- The conversation: each word is answered after a prompt, until a handler returns false or stops
  -- the menu, or the words are over, at one more prompt.
  unfoldable pub converse : List (List ℕ) → World → Result (Ended World (List (List ℕ)))
  converse [] world = ok (record { world = world; printed = codes "> "; rest = [] })
  converse (word ∷ others) world = do
    handled ← answer strings commands word world
    let ended = ok (record { world = handled.world; printed = []; rest = others }) in
        announce (codes "> " ++ handled.printed)
          (if handled.goes_on && not handled.stops then converse others handled.world else ended)

  parse_command_of_answer :
      (input word rest : List ℕ) (world : World) (r : Result (Handled World))
      → extract input ≡ some (word, rest)
      → answer strings commands word world ≡ r
      → parse_command strings commands input world ≡ (r >>= λ h. ok (h, rest))
  unfolding parse_command
  parse_command_of_answer input word rest world r taken answers =
      rw (taken, answers, parse_command) refl

  round :
      (n : ℕ) (input rest : List ℕ) (world : World) (h : Handled World)
      → parse_command strings commands input world ≡ ok (h, rest)
      → run_loop strings commands (suc n) true input world ≡ (
          let later = run_loop strings commands n (not h.stops) rest h.world in
          let ended = some (ok (record { world = h.world; printed = []; rest = rest })) in
          Option.map (announce (codes "> " ++ h.printed)) (if h.goes_on then later else ended))
  unfolding run_loop
  round n input rest world h e = rw (e, run_loop) refl

  turn :
      (word : List ℕ) (others : List (List ℕ)) (world : World) (h : Handled World)
      → answer strings commands word world ≡ ok h
      → converse (word ∷ others) world
        ≡ announce (codes "> " ++ h.printed) (
            if h.goes_on && not h.stops
            then converse others h.world
            else ok (record { world = h.world; printed = []; rest = others }))
  unfolding converse
  turn word others world h e = rw (e, converse) refl

  by_words-announce :
      (text : List ℕ) (end : Result (Ended World (List ℕ)))
      → by_words (announce text end) ≡ announce text (by_words end)
  by_words-announce text (err e) = refl
  by_words-announce text (ok end) = refl

  -- Behind a command: the loop stops, or what it does next is what the conversation does next.
  join_later :
      (n : ℕ) (rest : List ℕ) (world : World) (text : List ℕ) (goes_on stops : Bool)
      → (end : Result (Ended World (List ℕ))) × (run_loop strings commands (suc n) true rest world
          ≡ some end)
        × (by_words end ≡ converse (words rest) world)
      → (end : Result (Ended World (List ℕ))) × (Option.map (announce text) (
            if goes_on
            then run_loop strings commands (suc n) (not stops) rest world
            else some (ok (record { world = world; printed = []; rest = rest })))
          ≡ some end)
        × (by_words end
            ≡ announce text (
                if goes_on && not stops
                then converse (words rest) world
                else ok (record { world = world; printed = []; rest = words rest })))
  unfolding run_loop
  join_later n rest world text false stops later = (_, refl, refl)
  join_later n rest world text true true later = (_, refl, refl)
  join_later n rest world text true false (end, ends, same) = (
    announce text end,
    ap (Option.map (announce text)) ends,
    by_words-announce text end ∙ ap (announce text) same,
  )

  -- Enough rounds: the loop ends.
  loop-converse :
      (n : ℕ) (input : List ℕ) (world : World)
      → length input < n
      → (end : Result (Ended World (List ℕ))) × (run_loop strings commands (suc n) true input world
          ≡ some end)
        × (by_words end ≡ converse (words input) world)
  unfolding run_loop parse_command converse words
  loop-converse zero input world h = absurd (omega arith)
  loop-converse (suc n) input world h = elim (extract-cases input) [
    | inl (over, no_words) ↦ (
      ok (record { world = world; printed = codes "> "; rest = [] }),
      rw (over, run_loop, parse_command) refl,
      rw no_words refl,
    )
    | inr (word, rest, taken, split, shorter) ↦
        elim (Result-cases (answer strings commands word world)) [
          | inr (fault, fails) ↦ (
            err fault,
            rw (parse_command_of_answer input word rest world _ taken fails, run_loop) refl,
            sym (ap (λ ws. converse ws world) split ∙ rw (fails, converse) refl),
          )
          | inl (handled, answers) ↦
              let (end, ends, same) =
                join_later n rest handled.world (codes "> " ++ handled.printed) handled.goes_on
                  handled.stops (loop-converse n rest handled.world (omega arith)) in
              (
                end,
                round (suc n) input rest world handled
                      (parse_command_of_answer input word rest world _ taken answers)
                    ∙ ends,
                same
                    ∙ sym (
                        ap (λ ws. converse ws world) split
                        ∙ turn word (words rest) world handled answers),
              )
        ]
  ]

  -- For any input the menu comes to an end, and does what the conversation over the words of the
  -- input does: the same calls of handlers, the same output, and the same words left unread.
  pub run-converse :
      (input : List ℕ) (world : World)
      → (end : Result (Ended World (List ℕ))) × (run strings commands input world ≡ some end)
        × (by_words end ≡ converse (words input) world)
  unfolding run
  run-converse input world = loop-converse (suc (length input)) input world (omega arith)
