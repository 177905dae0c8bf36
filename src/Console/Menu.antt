-- ===== src/Console/Menu.antt =====
-- src/console/menu.cpp: the commands of the menu and its loop. A handler is a function on the state
-- of the program, `World`. The handlers of the program do not read from the input.
use stakan.Base.{
  ℕ, ◌≡◌, refl, zero, suc, Bool, true, false, not, ◌&&◌, List, [], ◌∷◌, ◌++◌, Option, none, some,
  Result, ok, err, ◌>>=◌, or_fail, undefined, bad_function_call, if◌then◌else◌, same_text, codes,
  length, ◌+◌,
}
pub mod Loop
pub mod Table
pub mod Registered
use mathlib.Core.Option
use stakan.Base.Map.{Map, lookup}
use stakan.Console.Input.{extract}

-- The strings of the program by their place in memory, where a string that is gone has no entry; and
-- whether the table compares the text of a key with a word, for which it reads the string. It may leave
-- that out for two texts that differ, by their hashes or their lengths, and not for a text and itself.
pub record Strings : Type 0 where
  pub texts : Map (List ℕ)
  pub compares : List ℕ → List ℕ → Bool
  pub compares_same : (text : List ℕ) → compares text text ≡ true

-- The memory of a program that keeps no names of commands.
abbrev pub no_strings : Strings
no_strings = record { texts = []; compares = λ key word. true; compares_same = λ text. refl }

-- What a handler does: the new state, what it prints, its result, and whether it called `Stop`.
pub record Handled (World : Type 0) : Type 0 where
  pub world : World
  pub printed : List ℕ
  pub goes_on : Bool
  pub stops : Bool

-- `Command`. An empty `std::function` is `none`.
pub record Command (World : Type 0) : Type 0 where
  pub command : List ℕ
  pub description : List ℕ
  pub handler : Option (World → Result (Handled World))

-- How the loop ends: the state, all that was printed, and the input that was not read.
pub record Ended (World Input : Type 0) : Type 0 where
  pub world : World
  pub printed : List ℕ
  pub rest : Input

-- `commands_`: a key is a `string_view`, which refers to the string that `RegisterHandler` was given.
abbrev pub Commands : Type 0 → Type 0
Commands World = List (ℕ × Command World)

-- The end of the loop, with what was printed before.
abbrev pub announce :
    {World Input : Type 0} → List ℕ → Result (Ended World Input) → Result (Ended World Input)
announce text (err e) = err e
announce text (ok end) = ok (record end { printed = text ++ end.printed })

module _ {World : Type 0} where
  -- `find`, over the keys that the table compares the word with. A command holds a copy of the text that
  -- its key referred to when it was registered.
  unfoldable pub find : Strings → Commands World → List ℕ → Result (Option (Command World))
  find strings [] word = ok none
  find strings ((place, cmd) ∷ others) word =
      let rest = find strings others word in
      if strings.compares cmd.command word
      then (or_fail (lookup place strings.texts) undefined >>= λ key.
          if same_text key word then ok (some cmd) else rest)
      else rest

  -- A hash table puts a new entry anywhere.
  unfoldable pub insert_at : ℕ → ℕ × Command World → Commands World → Commands World
  insert_at zero entry commands = entry ∷ commands
  insert_at (suc n) entry [] = entry ∷ []
  insert_at (suc n) entry (first ∷ others) = first ∷ insert_at n entry others

  abbrev pub emplace :
      ℕ → ℕ × Command World → Commands World → Option (Command World) → Commands World
  emplace at entry commands none = insert_at at entry commands
  emplace at entry commands (some cmd) = commands

  -- `RegisterHandler`, for a string at a place. `at` is where the table puts the entry.
  unfoldable pub register_handler :
      ℕ
      → Strings
      → ℕ
      → List ℕ
      → Option (World → Result (Handled World))
      → Commands World
      → Result (Commands World)
  unfolding find insert_at
  register_handler at strings place description handler commands = do
    command ← or_fail (lookup place strings.texts) undefined
    let cmd : Command World = record {
      command = command;
      description = description;
      handler = handler;
    }
    found ← find strings commands command
    ok (emplace at (place, cmd) commands found)

  -- A line of the help.
  abbrev pub help_line : Command World → List ℕ
  help_line cmd = codes "  " ++ (cmd.command ++ (codes " - " ++ (cmd.description ++ (10 ∷ []))))

  unfoldable pub help_lines : Commands World → List ℕ
  help_lines [] = []
  help_lines ((place, cmd) ∷ others) = help_line cmd ++ help_lines others

  -- `PrintHelp`
  unfoldable pub print_help : Commands World → List ℕ
  unfolding help_lines
  print_help commands = codes "Available commands:\n" ++ help_lines commands

  -- What `ParseCommand` does with a word and what it found for it.
  unfoldable pub execute :
      Commands World → List ℕ → Option (Command World) → World → Result (Handled World)
  unfolding print_help
  execute commands word (some cmd) world =
      or_fail cmd.handler bad_function_call >>= λ handler. handler world
  execute commands word none world = ok (record {
    world = world;
    printed =
        if same_text word (codes "help")
        then print_help commands
        else codes "Unknown command: " ++ (word ++ (10 ∷ []));
    goes_on = true;
    stops = false;
  })

  -- `ParseCommand` behind the extraction of the word.
  unfoldable pub answer : Strings → Commands World → List ℕ → World → Result (Handled World)
  unfolding execute find
  answer strings commands word world = do
    found ← find strings commands word
    execute commands word found world

  -- `ParseCommand`, with the input that is left.
  unfoldable pub parse_command :
      Strings → Commands World → List ℕ → World → Result (Handled World × List ℕ)
  unfolding answer
  parse_command strings commands input world = elim (extract input) [
    | none ↦ ok (record { world = world; printed = []; goes_on = false; stops = false }, [])
    | some (word, rest) ↦ do handled ← answer strings commands word world; ok (handled, rest)
  ]

  -- The loop of `Run`, for some number of rounds; the argument after it is `running_`. `none`: more
  -- rounds are needed.
  unfoldable pub run_loop :
      Strings → Commands World → ℕ → Bool → List ℕ → World → Option (Result (Ended World (List ℕ)))
  unfolding parse_command
  run_loop strings commands zero running input world = none
  run_loop strings commands (suc n) false input world =
      some (ok (record { world = world; printed = []; rest = input }))
  run_loop strings commands (suc n) true input world =
      elim (parse_command strings commands input world) [
        | err e ↦ some (err e)
        | ok (handled, rest) ↦
            let later = run_loop strings commands n (not handled.stops) rest handled.world in
            let ended = some (ok (record { world = handled.world; printed = []; rest = rest })) in
            Option.map (announce (codes "> " ++ handled.printed))
              (if handled.goes_on then later else ended)
      ]

  -- `Run`
  unfoldable pub run :
      Strings → Commands World → List ℕ → World → Option (Result (Ended World (List ℕ)))
  unfolding run_loop
  run strings commands input world =
      run_loop strings commands (suc (suc (length input))) true input world
