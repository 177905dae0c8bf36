-- ===== src/Console/Menu/Registered.antt =====
-- Registrations one after the other, and the strings that their keys refer to.
use mathlib.Core.Path.{subst}
use stakan.Base.{
  ℕ, zero, suc, ◌≡◌, refl, ap, ◌∙◌, sym, true, List, [], ◌∷◌, Option, none, some, Result, ok, err,
  undefined, Bool-cases, inl, inr, if_true, if_false, same_text, same_text_iff, ◌>>=◌, or_fail,
  if◌then◌else◌, ==_of_eq,
}
use stakan.Base.Map.{lookup, erase, lookup-erase}
use stakan.Console.Menu.{
  Strings, Commands, Command, Handled, find, insert_at, register_handler, answer, execute,
}
use stakan.Console.Menu.Table.{
  Registration, AllAlive, KeysAlive, or_else, made_for, register_all, first_for, find_total,
  find-insert_at, insert_at-KeysAlive,
}

or_else-none : {A : Type 0} (a : Option A) → or_else a none ≡ a
or_else-none none = refl
or_else-none (some a) = refl

or_else_assoc : {A : Type 0} (a b c : Option A) → or_else (or_else a b) c ≡ or_else a (or_else b c)
or_else_assoc none b c = refl
or_else_assoc (some a) b c = refl

-- The string at a place ends.
abbrev pub forget : ℕ → Strings → Strings
forget place strings = record strings { texts = erase place strings.texts }

module _ {World : Type 0} (strings : Strings) where
  -- The table behind a registration.
  abbrev Registers : Registration World → List ℕ → Commands World → Type 0
  Registers r text commands =
      (later : Commands World) × (register_handler r.at strings r.place r.description r.handler
          commands
        ≡ ok later)
      × KeysAlive strings later
      × ((word : List ℕ) (found : Option (Command World))
          → find strings commands word ≡ ok found
          → find strings later word ≡ ok (or_else found (made_for strings word r (some text))))

  -- By what the table holds for the new word.
  found-Registers :
      (r : Registration World) (text : List ℕ) (commands : Commands World)
      → lookup r.place strings.texts ≡ some text
      → KeysAlive strings commands
      → (held : Option (Command World)) → find strings commands text ≡ ok held
      → Registers r text commands
  unfolding register_handler
  found-Registers r text commands alive h none new =
      let cmd : Command World = record {
        command = text;
        description = r.description;
        handler = r.handler;
      } in
      (
        insert_at r.at (r.place, cmd) commands,
        rw (alive, new, register_handler) refl,
        insert_at-KeysAlive strings r.at r.place cmd commands alive h,
        λ word found e.
            let inserted = find-insert_at strings r.at r.place cmd commands word alive h new in
            elim (Bool-cases (same_text text word)) [
              | inl same ↦
                  inserted
                  ∙ if_true _ _ same
                  ∙ ap ok (
                      ap (λ f. or_else f (some cmd)) (absent word found e same)
                      ∙ ap (or_else found) (sym (if_true _ _ same)))
              | inr other ↦
                  inserted
                  ∙ if_false _ _ other
                  ∙ e
                  ∙ ap ok (sym (or_else-none found) ∙ ap (or_else found) (sym (if_false _ _ other)))
            ],
      )
    where
      absent :
          (word : List ℕ) (found : Option (Command World))
          → find strings commands word ≡ ok found
          → same_text text word ≡ true
          → none ≡ found
      absent word found e same =
          cc (new, e, ap (find strings commands) ((same_text_iff text word).0 same))
  found-Registers r text commands alive h (some c) held = (
    commands,
    rw (alive, held, register_handler) refl,
    h,
    λ word found e. elim (Bool-cases (same_text text word)) [
      | inl same ↦ e ∙ ap ok (stays word found e same)
      | inr other ↦
          e ∙ ap ok (sym (or_else-none found) ∙ ap (or_else found) (sym (if_false _ _ other)))
    ],
  )
    where
      stays :
          (word : List ℕ) (found : Option (Command World))
          → find strings commands word ≡ ok found
          → same_text text word ≡ true
          → found ≡ or_else found (made_for strings word r (some text))
      stays word found e same =
          let is_c : found ≡ some c =
            cc (held, e, ap (find strings commands) ((same_text_iff text word).0 same)) in
          subst (λ f. f ≡ or_else f (made_for strings word r (some text))) (sym is_c) refl

  registers_all :
      (rs : List (Registration World)) (commands : Commands World)
      → AllAlive strings rs
      → KeysAlive strings commands
      → (later : Commands World) × (register_all strings rs commands ≡ ok later)
        × ((word : List ℕ) (found : Option (Command World))
            → find strings commands word ≡ ok found
            → find strings later word ≡ ok (or_else found (first_for strings word rs)))
  unfolding register_all first_for
  registers_all [] commands all h =
      (commands, refl, λ word found e. e ∙ ap ok (sym (or_else-none found)))
  registers_all (r ∷ rs) commands ((text, alive), all) h =
      let (held, holds_) = find_total strings commands text h in
      let (next, registered, keys, finds) = found-Registers r text commands alive h held holds_ in
      let (later, registered_all, finds_all) = registers_all rs next all keys in
      (
        later,
        rw registered registered_all,
        λ word found e.
            finds_all word _ (finds word found e)
            ∙ ap ok (
                or_else_assoc found (made_for strings word r (some text))
                  (first_for strings word rs)
                ∙ ap
                    (λ t.
                      or_else found
                        (or_else (made_for strings word r t) (first_for strings word rs)))
                    (sym alive)),
      )

  -- While the strings that were given to `RegisterHandler` live, all registrations succeed, and a word
  -- finds the command of its first registration, wherever the table puts its entries.
  pub find-register_all :
      (rs : List (Registration World))
      → AllAlive strings rs
      → (commands : Commands World) × (register_all strings rs [] ≡ ok commands)
        × ((word : List ℕ) → find strings commands word ≡ ok (first_for strings word rs))
  unfolding find
  find-register_all rs all =
      let (commands, registered, finds) = registers_all rs [] all tt in
      (commands, registered, λ word. finds word none refl)

  -- `commands_` keeps a view of the caller's string, of which the command has a copy. When the string is
  -- gone, as a temporary is behind the call, the word that the command was registered for is not found:
  -- to compare it with the key, the table reads a string that does not exist.
  pub dangling_key :
      (at place : ℕ) (description : List ℕ) (handler : Option (World → Result (Handled World)))
      (word : List ℕ)
      → lookup place strings.texts ≡ some word
      → (commands : Commands World) × (register_handler at strings place description handler []
          ≡ ok commands)
        × ((world : World) → answer (forget place strings) commands word world ≡ err undefined)
  unfolding register_handler find answer
  dangling_key at place description handler word alive =
      let cmd : Command World = record {
        command = word;
        description = description;
        handler = handler;
      } in
      (
        (place, cmd) ∷ [],
        rw (alive, register_handler) (ap ok (alone at place cmd)),
        λ world.
            ap (λ r. r >>= λ found. execute ((place, cmd) ∷ []) word found world)
              (if_true _ _ (strings.compares_same word)
                ∙ ap
                    (λ o. or_fail o undefined >>= λ key.
                      if same_text key word then ok (some cmd) else ok none)
                    (lookup-erase place place strings.texts
                      ∙ if_true _ _ (==_of_eq place place refl))),
      )
    where
      alone :
          (at place : ℕ) (cmd : Command World) → insert_at at (place, cmd) [] ≡ (place, cmd) ∷ []
      alone zero place cmd = refl
      alone (suc n) place cmd = refl
