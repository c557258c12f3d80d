-- ===== src/Shell/Commands.antt =====
-- The commands of the shell in src/svc/svc_shell.c: the lists of them, the walk over the lists, and
-- the run of a command by its name. A command is named by a text; its function, and whether a service
-- is started (`Services`), are the parameter `Env`.
use qoraal.Base.{
  ℕ, Bool, true, false, ◌&&◌, ◌||◌, Option, none, some, List, [], ◌∷◌, ◌++◌, ◌==◌, if◌then◌else◌,
  has, erase, length, ℤ, negsuc, ◌==ℤ◌,
}
use qoraal.Shell.{ok, not_found, wrong_parms, not_ready}
use qoraal.Shell.Script.{same}

-- `SVC_SHELL_CMD_T`; no usage is none
pub record Command : Type 0 where
  pub cmd : List ℕ
  pub fp : ℕ
  pub usage : Option (List ℕ)

-- `SVC_SHELL_CMD_LIST_T`, without the link: the commands up to its count or its zero.
pub record CommandList : Type 0 where
  pub service : ℕ
  pub cmds : List Command

-- The static list, and the installed ones by their addresses, in order
pub record Commands : Type 0 where
  pub static : CommandList
  pub installed : List ℕ
  pub lists : ℕ → CommandList

-- `E_PARM`
abbrev pub e_parm : ℤ
e_parm = negsuc 2304

-- `svc_shell_install`
unfoldable pub install : Commands → ℕ → Commands × ℤ
install s l =
    if has l s.installed
    then (s, e_parm)
    else (record s { installed = s.installed ++ (l ∷ []) }, ok)

-- `svc_shell_uninstall`
unfoldable pub uninstall : Commands → ℕ → Commands
uninstall s l = record s { installed = erase l s.installed }

-- The commands of a list, each with its list
abbrev pub entries : CommandList → List Command → List (CommandList × Command)
entries l [] = []
entries l (c ∷ cs) = (l, c) ∷ entries l cs

-- What `_cmd_next` gives behind the static list: an empty list ends the walk.
unfoldable pub walk : (ℕ → CommandList) → List ℕ → List (CommandList × Command)
walk lists [] = []
walk lists (a ∷ rest) =
    if length (lists a).cmds == 0 then [] else entries (lists a) (lists a).cmds ++ walk lists rest

-- The commands in the order of `_cmd_first` and `_cmd_next`
unfoldable pub visit : Commands → List (CommandList × Command)
visit s = entries s.static s.static.cmds ++ walk s.lists s.installed

-- The first command of a name
unfoldable pub find : List ℕ → List (CommandList × Command) → Option (CommandList × Command)
find name [] = none
find name ((l, c) ∷ rest) = if same c.cmd name then some (l, c) else find name rest

-- What runs outside: the functions of the commands, and whether a service is started.
pub record Env (World : Type 0) : Type 0 where
  pub call : (fp : ℕ) → List (List ℕ) → World → World × ℤ
  pub is_started : (service : ℕ) → World → Bool

-- Whether a text begins with a character
abbrev pub begins : ℕ → List ℕ → Bool
begins c [] = false
begins c (d ∷ ds) = c == d

-- Whether the usage is asked for, by a `?` in place of the first argument
abbrev pub asks_usage : List (List ℕ) → Bool
asks_usage [] = false
asks_usage (a ∷ args) = begins 63 a

abbrev pub has_usage : Command → Bool
has_usage c = elim c.usage [ none ↦ false | some u ↦ true ]

module _ {World : Type 0} (env : Env World) where
  -- The command that was found is run, if its service is started, or its usage printed.
  unfoldable pub run_found : CommandList → Command → (argv args : List (List ℕ)) → World → World × ℤ
  run_found l c argv args world =
      if asks_usage args
      then (world, if has_usage c then ok else not_found)
      else if l.service == 0 || env.is_started l.service world
      then (let (w, res) = env.call c.fp argv world in
          (w, if has_usage c && res ==ℤ wrong_parms then ok else res))
      else (world, not_ready)

  -- `svc_shell_cmd_run`, for at least one word
  unfoldable pub cmd_run : Commands → (name : List ℕ) → (args : List (List ℕ)) → World → World × ℤ
  cmd_run s name args world = if begins 35 name then (world, ok) else elim (find name (visit s)) [
    | none ↦ (world, not_found)
    | some e ↦ run_found e.0 e.1 (name ∷ args) args world
  ]
