-- ===== src/Console/Menu/Table.antt =====
-- The table of commands: which command a word finds after some registrations.
use stakan.Base.{
  ℕ, zero, suc, ◌≡◌, refl, ap, ◌∙◌, sym, false, List, [], ◌∷◌, Option, none, some, Result, ok,
  ◌>>=◌, or_fail, undefined, Bool-cases, inl, inr, if◌then◌else◌, if_true, if_false, same_text,
  same_text_iff,
}
use stakan.Base.Map.{lookup}
use stakan.Console.Menu.{Strings, Commands, Command, Handled, find, insert_at, register_handler}

-- A call of `RegisterHandler`.
pub record Registration (World : Type 0) : Type 0 where
  pub at : ℕ
  pub place : ℕ
  pub description : List ℕ
  pub handler : Option (World → Result (Handled World))

-- The string at a place is there.
abbrev pub IsAlive : Strings → ℕ → Type 0
IsAlive strings place = (text : List ℕ) × (lookup place strings.texts ≡ some text)

abbrev pub or_else : {A : Type 0} → Option A → Option A → Option A
or_else none b = b
or_else (some a) b = some a

-- A key that the table does not compare differs from the word.
skipped :
    (strings : Strings) (key word : List ℕ)
    → strings.compares key word ≡ false
    → same_text key word ≡ false
skipped strings key word skips = elim (Bool-cases (same_text key word)) [
  | inl same ↦ cc (
    strings.compares_same key,
    skips,
    ap (strings.compares key) ((same_text_iff key word).0 same),
  )
  | inr other ↦ other
]

module _ {World : Type 0} (strings : Strings) where
  abbrev pub AllAlive : List (Registration World) → Type 0
  AllAlive [] = Unit {0}
  AllAlive (r ∷ rs) = IsAlive strings r.place × AllAlive rs

  abbrev pub KeysAlive : Commands World → Type 0
  KeysAlive [] = Unit {0}
  KeysAlive ((place, cmd) ∷ others) =
      (lookup place strings.texts ≡ some cmd.command) × KeysAlive others

  unfoldable pub register_all : List (Registration World) → Commands World → Result (Commands World)
  register_all [] commands = ok commands
  register_all (r ∷ rs) commands =
      register_handler r.at strings r.place r.description r.handler commands >>= λ later.
      register_all rs later

  -- The command that a registration makes, if it is for this word.
  abbrev pub made_for : List ℕ → Registration World → Option (List ℕ) → Option (Command World)
  made_for word r none = none
  made_for word r (some text) =
      if same_text text word
      then some (record { command = text; description = r.description; handler = r.handler })
      else none

  -- The first registration for a word.
  unfoldable pub first_for : List ℕ → List (Registration World) → Option (Command World)
  first_for word [] = none
  first_for word (r ∷ rs) =
      or_else (made_for word r (lookup r.place strings.texts)) (first_for word rs)

  find-cons :
      (place : ℕ) (cmd : Command World) (others : Commands World) (word : List ℕ)
      → lookup place strings.texts ≡ some cmd.command
      → find strings ((place, cmd) ∷ others) word
        ≡ (if same_text cmd.command word then ok (some cmd) else find strings others word)
  unfolding find
  find-cons place cmd others word alive = elim (Bool-cases (strings.compares cmd.command word)) [
    | inl reads ↦
        if_true _ _ reads
        ∙ ap
            (λ o. or_fail o undefined >>= λ key.
              if same_text key word then ok (some cmd) else find strings others word)
            alive
    | inr skips ↦ if_false _ _ skips ∙ sym (if_false _ _ (skipped strings cmd.command word skips))
  ]

  pub find_total :
      (commands : Commands World) (word : List ℕ)
      → KeysAlive commands
      → (found : Option (Command World)) × (find strings commands word ≡ ok found)
  unfolding find
  find_total [] word h = (none, refl)
  find_total ((place, cmd) ∷ others) word (alive, h) =
      let (found, e) = find_total others word h in
      let step = find-cons place cmd others word alive in
      elim (Bool-cases (same_text cmd.command word)) [
        | inl same ↦ (some cmd, step ∙ if_true _ _ same)
        | inr other ↦ (found, step ∙ if_false _ _ other ∙ e)
      ]

  find_none :
      (place : ℕ) (cmd : Command World) (others : Commands World) (word : List ℕ)
      → lookup place strings.texts ≡ some cmd.command
      → find strings ((place, cmd) ∷ others) word ≡ ok none
      → (same_text cmd.command word ≡ false) × (find strings others word ≡ ok none)
  find_none place cmd others word alive e =
      let step = find-cons place cmd others word alive in
      elim (Bool-cases (same_text cmd.command word)) [
        | inl same ↦
            absurd (cc (sym step ∙ e, if_true (ok (some cmd)) (find strings others word) same))
        | inr other ↦ (other, sym (if_false _ _ other) ∙ sym step ∙ e)
      ]

  -- A new entry, wherever it is put, is found by its key, and changes nothing for other words.
  pub find-insert_at :
      (at place : ℕ) (cmd : Command World) (commands : Commands World) (word : List ℕ)
      → lookup place strings.texts ≡ some cmd.command
      → KeysAlive commands
      → find strings commands cmd.command ≡ ok none
      → find strings (insert_at at (place, cmd) commands) word
        ≡ (if same_text cmd.command word then ok (some cmd) else find strings commands word)
  unfolding insert_at
  find-insert_at zero place cmd commands word alive h new = find-cons place cmd commands word alive
  find-insert_at (suc n) place cmd [] word alive h new = find-cons place cmd [] word alive
  find-insert_at (suc n) place cmd ((p, c) ∷ others) word alive (first_alive, h) new =
      let (differs, new_later) = find_none p c others cmd.command first_alive new in
      let ih = find-insert_at n place cmd others word alive h new_later in
      let step = find-cons p c (insert_at n (place, cmd) others) word first_alive in
      elim (Bool-cases (same_text cmd.command word)) [
        | inl same ↦
            step
            ∙ if_false _ _
                (ap (same_text c.command) (sym ((same_text_iff cmd.command word).0 same)) ∙ differs)
            ∙ ih
            ∙ if_true _ _ same
            ∙ sym (if_true _ _ same)
        | inr other ↦
            step
            ∙ ap (λ r. if same_text c.command word then ok (some c) else r)
                (ih ∙ if_false _ _ other)
            ∙ sym (find-cons p c others word first_alive)
            ∙ sym (if_false _ _ other)
      ]

  pub insert_at-KeysAlive :
      (at place : ℕ) (cmd : Command World) (commands : Commands World)
      → lookup place strings.texts ≡ some cmd.command
      → KeysAlive commands
      → KeysAlive (insert_at at (place, cmd) commands)
  unfolding insert_at
  insert_at-KeysAlive zero place cmd commands alive h = (alive, h)
  insert_at-KeysAlive (suc n) place cmd [] alive h = (alive, h)
  insert_at-KeysAlive (suc n) place cmd ((p, c) ∷ others) alive (first, h) =
      (first, insert_at-KeysAlive n place cmd others alive h)
