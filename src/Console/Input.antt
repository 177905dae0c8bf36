-- ===== src/Console/Input.antt =====
-- `operator>>` of a stream into a string, on the characters that are left.
use stakan.Base.{
  ℕ, ◌<◌, ◌≤◌, ◌⊎◌, ◌≡◌, refl, ap, ◌∙◌, Bool, false, ◌||◌, ◌&&◌, List, [], ◌∷◌, Option, none, some,
  length, if◌then◌else◌, ◌==◌, leb, arith, Bool-cases, inl, inr, if_true, if_false,
}

-- `isspace`: the blank, and the characters from the tabulator to the carriage return.
abbrev pub is_space : ℕ → Bool
is_space c = c == 32 || (leb 9 c && leb c 13)

unfoldable pub skip_spaces : List ℕ → List ℕ
skip_spaces [] = []
skip_spaces (c ∷ cs) = let rest = skip_spaces cs in if is_space c then rest else c ∷ cs

-- The characters up to the next space, and the input from it on.
unfoldable pub take_word : List ℕ → List ℕ × List ℕ
take_word [] = ([], [])
take_word (c ∷ cs) =
    let (word, rest) = take_word cs in if is_space c then ([], c ∷ cs) else (c ∷ word, rest)

word_at : List ℕ → Option (List ℕ × List ℕ)
unfolding take_word
word_at [] = none
word_at (c ∷ cs) = some (take_word (c ∷ cs))

-- The next word and what follows it; `none` when the extraction fails at the end of the input.
unfoldable pub extract : List ℕ → Option (List ℕ × List ℕ)
unfolding word_at skip_spaces
extract input = word_at (skip_spaces input)

-- The words of a text: its pieces between spaces, without the empty ones.
abbrev begin_with : ℕ → List (List ℕ) → List (List ℕ)
begin_with c [] = (c ∷ []) ∷ []
begin_with c (piece ∷ others) = (c ∷ piece) ∷ others

abbrev pub pieces : List ℕ → List (List ℕ)
pieces [] = [] ∷ []
pieces (c ∷ cs) = let rest = pieces cs in if is_space c then [] ∷ rest else begin_with c rest

abbrev non_empty : List (List ℕ) → List (List ℕ)
non_empty [] = []
non_empty ([] ∷ others) = non_empty others
non_empty ((c ∷ cs) ∷ others) = (c ∷ cs) ∷ non_empty others

unfoldable pub words : List ℕ → List (List ℕ)
words text = non_empty (pieces text)

take_word-pieces :
    (cs : List ℕ)
    → (others : List (List ℕ)) × (pieces cs ≡ (take_word cs).0 ∷ others)
      × (non_empty others ≡ words (take_word cs).1)
unfolding take_word words
take_word-pieces [] = ([], refl, refl)
take_word-pieces (c ∷ cs) =
    let (others, split, same) = take_word-pieces cs in
    elim (Bool-cases (is_space c)) [
      | inl space ↦ rw space (pieces cs, refl, rw space refl)
      | inr letter ↦ rw letter (others, ap (begin_with c) split, same)
    ]

length-take_word : (cs : List ℕ) → length (take_word cs).1 ≤ length cs
unfolding take_word
length-take_word [] = omega arith
length-take_word (c ∷ cs) = elim (Bool-cases (is_space c)) [
  | inl space ↦ rw space (omega arith)
  | inr letter ↦ rw letter (omega (arith, length-take_word cs))
]

-- Either only spaces are left, or the first word is taken and less input is left.
word_at-cases :
    (cs : List ℕ)
    → ((skip_spaces cs ≡ []) × (words cs ≡ []))
      ⊎ ((c : ℕ) × (rest : List ℕ) × (skip_spaces cs ≡ c ∷ rest)
          × (is_space c ≡ false)
          × (words cs ≡ words (c ∷ rest))
          × (length (c ∷ rest) ≤ length cs))
unfolding skip_spaces words
word_at-cases [] = inl (refl, refl)
word_at-cases (c ∷ cs) = elim (Bool-cases (is_space c)) [
  | inr letter ↦ inr (c, cs, if_false _ _ letter, letter, refl, omega arith)
  | inl space ↦ elim (word_at-cases cs) [
    | inl (none_left, no_words) ↦
        inl (if_true _ _ space ∙ none_left, ap non_empty (if_true _ _ space) ∙ no_words)
    | inr (d, rest, skipped, letter, same, shorter) ↦ inr (
      d,
      rest,
      if_true _ _ space ∙ skipped,
      letter,
      ap non_empty (if_true _ _ space) ∙ same,
      omega arith,
    )
  ]
]

-- The extraction fails when no word is left; otherwise it takes the first word, and less input is left.
pub extract-cases :
    (input : List ℕ)
    → ((extract input ≡ none) × (words input ≡ []))
      ⊎ ((word : List ℕ) × (rest : List ℕ) × (extract input ≡ some (word, rest))
          × (words input ≡ word ∷ words rest)
          × (length rest < length input))
unfolding extract word_at take_word words
extract-cases input = elim (word_at-cases input) [
  | inl (none_left, no_words) ↦ inl (ap word_at none_left, no_words)
  | inr (c, rest, skipped, letter, same, shorter) ↦
      let (word, left) = take_word rest in
      inr (
        c ∷ word,
        left,
        ap word_at skipped ∙ ap some (if_false _ _ letter),
        same ∙ first_word c rest letter,
        omega (arith, length-take_word rest, shorter),
      )
]
  where
    first_word :
        (c : ℕ) (rest : List ℕ)
        → is_space c ≡ false
        → words (c ∷ rest) ≡ (c ∷ (take_word rest).0) ∷ words (take_word rest).1
    first_word c rest letter =
        let (others, split, same) = take_word-pieces rest in
        ap non_empty (if_false _ _ letter ∙ ap (begin_with c) split)
        ∙ ap (λ ws. (c ∷ (take_word rest).0) ∷ ws) same
