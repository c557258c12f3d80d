-- ===== src/Shell/Tests.antt =====
-- Command lines, a script and lists of commands, and the theorems about them there.
use qoraal.Base.{
  ℕ, ◌+◌, ◌≡◌, refl, none, some, List, [], ◌∷◌, ◌++◌, ◌==◌, pos, negsuc, if◌then◌else◌, arith,
}
use qoraal.Shell.Split.{step, finish, split_from, cmd_split}
use qoraal.Shell.Words.{command_line, cmd_split-command_line}
use qoraal.Shell.Script.{
  Script, Env, normal, line, behind_line, skip, ask, command, execute, words, script_from,
  script_run,
}
use qoraal.Shell.Lines.{unlines, execute_all, script_from-unlines}
use qoraal.Shell.Errors.{script_from-failed}
use qoraal.Shell.Commands.{Commands, install, visit, walk, find}
use qoraal.Shell.Output.{write_hex}
use qoraal.Shell.Pieces.{join, hexes, write_hex-hexes}

-- a, "b c" and the empty word
abbrev args : List (List ℕ)
args = (97 ∷ []) ∷ (98 ∷ 32 ∷ 99 ∷ []) ∷ [] ∷ []

args_line : command_line args ≡ 97 ∷ 32 ∷ 34 ∷ 98 ∷ 32 ∷ 99 ∷ 34 ∷ 32 ∷ 34 ∷ 34 ∷ 32 ∷ []
args_line = refl

cmd_split-command_line_example : cmd_split 3 11 (command_line args) ≡ args
cmd_split-command_line_example =
    cmd_split-command_line 3 args (omega arith) (refl, (refl, (refl, tt)))

-- The commands that were run; a command fails if its name is "f", and the terminal never stops.
abbrev env : Env (List ℕ)
env = record {
  substitute = λ l. l;
  run = λ argv status w. elim argv [
    | [] ↦ (w, status, pos 0)
    | name ∷ rest ↦ elim name [
      | [] ↦ (w, status, pos 0)
      | c ∷ cs ↦ (w ++ (c ∷ []), status, if c == 102 then negsuc 4 else pos 0)
    ]
  ];
  cancel = λ w. (w, pos 0);
  scan = λ t. none;
}

abbrev script : Script (List ℕ)
script = record {
  status = pos 0;
  lasterror = pos 0;
  error_state = normal;
  if_status = pos 0;
  world = [];
}

-- The script a & f & b runs a and f, and its status is that of f.
ran :
    script_run env 9 (pos 0) [] (97 ∷ 38 ∷ 102 ∷ 38 ∷ 98 ∷ 10 ∷ []) ≡ some (97 ∷ 102 ∷ [], negsuc 4)
unfolding script_run script_from execute words line behind_line skip command ask cmd_split
    split_from step finish
ran = refl

script_from-unlines_example :
    script_from env 2 script (unlines ((97 ∷ []) ∷ (102 ∷ []) ∷ []))
    ≡ some (execute_all env script ((97 ∷ []) ∷ (102 ∷ []) ∷ []))
script_from-unlines_example =
    script_from-unlines env 2 script ((97 ∷ []) ∷ (102 ∷ []) ∷ [])
      ((refl, omega arith, omega arith), ((refl, omega arith, omega arith), tt)) (omega arith)
      (omega arith)

script_from-failed_example :
    script_from env 2 script (unlines ((102 ∷ []) ∷ (97 ∷ []) ∷ []))
    ≡ some (command env script (words env (102 ∷ [])))
unfolding words cmd_split split_from step finish
script_from-failed_example =
    script_from-failed env 2 script (102 ∷ []) ((97 ∷ []) ∷ [])
      ((refl, omega arith, omega arith), ((refl, omega arith, omega arith), tt)) (omega arith) refl
      (omega arith) (refl, (refl, tt)) refl

-- A terminal that wants to stop
abbrev stopping_env : Env (List ℕ)
stopping_env = record env { cancel = λ w. (w, negsuc 9) }

-- The list at 7 is installed, and that at 8 is not yet.
abbrev commands : Commands
commands = record {
  static = record { service = 0; cmds = record { cmd = 97 ∷ []; fp = 1; usage = none } ∷ [] };
  installed = 7 ∷ [];
  lists =
      λ a. record { service = a; cmds = record { cmd = (90 + a) ∷ []; fp = a; usage = none } ∷ [] };
}

-- A name of the new list is found once that is installed.
found :
    find (98 ∷ []) (visit (install commands 8).0)
    ≡ some (commands.lists 8, record { cmd = 98 ∷ []; fp = 8; usage = none })
unfolding find visit install walk
found = refl

write_hex-hexes_example :
    (ps : List (List ℕ)) × (write_hex 3 (31 ∷ 160 ∷ []) ≡ some ps)
    × (join ps ≡ hexes (31 ∷ 160 ∷ []))
write_hex-hexes_example = write_hex-hexes 3 (31 ∷ 160 ∷ []) (omega arith)
