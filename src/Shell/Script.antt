-- ===== src/Shell/Script.antt =====
-- Scripts of the shell, `svc_shell_script_run` of src/svc/svc_shell.c: the lines of a text, and the
-- commands on them with the handling of errors. The replacement of words (`Strsub`), the run of a
-- command (`Shell.Commands`), the terminal's answer and `sscanf` are the parameter `Env`. The line
-- numbers are in the messages alone and left out; so is the loss of memory for the lines.
use qoraal.Base.{
  ℕ, zero, suc, ◌-◌, Bool, true, false, ◌&&◌, ◌||◌, not, Option, none, some, List, [], ◌∷◌, ◌==◌,
  if◌then◌else◌, length, ℤ, ◌==ℤ◌, ◌<ℤ?◌,
}
use qoraal.Shell.{ok}
use qoraal.Shell.Split.{cmd_split}

-- `error_state`
pub data ErrorState : Type 0 where
  normal : ErrorState
  in_handler : ErrorState
  in_error : ErrorState

-- `SVC_SHELL_ARGC_MAX` and `SVC_SHELL_LINE_SIZE_MAX`
abbrev pub argc_max : ℕ
argc_max = 14

abbrev pub line_size_max : ℕ
line_size_max = 256

-- The characters between commands: the ends of lines, and `SVC_SHELL_COMMAND_SEPARATOR`
abbrev pub is_separator : ℕ → Bool
is_separator c = c == 13 || c == 10 || c == 0 || c == 38

-- The characters up to a separator, at most `n`
unfoldable pub line : (n : ℕ) → List ℕ → List ℕ
line zero text = []
line (suc n) [] = []
line (suc n) (c ∷ text) = if is_separator c then [] else c ∷ line n text

-- The text behind the line
unfoldable pub behind_line : (n : ℕ) → List ℕ → List ℕ
behind_line zero text = text
behind_line (suc n) [] = []
behind_line (suc n) (c ∷ text) = if is_separator c then c ∷ text else behind_line n text

-- The text behind separators
unfoldable pub skip : List ℕ → List ℕ
skip [] = []
skip (c ∷ text) = if is_separator c then skip text else c ∷ text

-- The equality of texts, `strcmp`
abbrev pub same : List ℕ → List ℕ → Bool
same [] [] = true
same [] (d ∷ ds) = false
same (c ∷ cs) [] = false
same (c ∷ cs) (d ∷ ds) = c == d && same cs ds

-- ":exit", ":onerror" and ":clearerror"
abbrev pub exit : List ℕ
exit = 58 ∷ 101 ∷ 120 ∷ 105 ∷ 116 ∷ []

abbrev pub onerror : List ℕ
onerror = 58 ∷ 111 ∷ 110 ∷ 101 ∷ 114 ∷ 114 ∷ 111 ∷ 114 ∷ []

abbrev pub clearerror : List ℕ
clearerror = 58 ∷ 99 ∷ 108 ∷ 101 ∷ 97 ∷ 114 ∷ 101 ∷ 114 ∷ 114 ∷ 111 ∷ 114 ∷ []

-- The variables of a run; `if_status` is the `status` of the interface, and `world` what the commands
-- and the terminal change besides.
pub record Script (World : Type 0) : Type 0 where
  pub status : ℤ
  pub lasterror : ℤ
  pub error_state : ErrorState
  pub if_status : ℤ
  pub world : World

-- What runs outside: `run` a command, with the status of the interface that it finds and leaves,
-- `cancel` the terminal (`pif->out` of `SVC_SHELL_OUT_NULL`), and `scan` a decimal number.
pub record Env (World : Type 0) : Type 0 where
  pub substitute : List ℕ → List ℕ
  pub run : List (List ℕ) → ℤ → World → World × ℤ × ℤ
  pub cancel : World → World × ℤ
  pub scan : List ℕ → Option ℤ

abbrev pub is_in_error : ErrorState → Bool
is_in_error normal = false
is_in_error in_handler = false
is_in_error in_error = true

module _ {World : Type 0} (env : Env World) where
  -- Whether an `:onerror` is the handler of a status
  unfoldable pub handles : List (List ℕ) → ℤ → Bool
  handles [] status = true
  handles ([] ∷ rest) status = elim (env.scan []) [ none ↦ false | some n ↦ status ==ℤ n ]
  handles ((c ∷ cs) ∷ rest) status =
      (elim (env.scan (c ∷ cs)) [ none ↦ false | some n ↦ status ==ℤ n ]) || c == 120 || c == 35

  -- `:onerror` with what follows it
  unfoldable pub on_error : Script World → List (List ℕ) → Script World
  on_error s args =
      if not (s.status <ℤ? ok) || not (handles args s.status)
      then record s { error_state = in_error }
      else record s { error_state = in_handler }

  -- `:clearerror`
  unfoldable pub clear_error : Script World → Script World
  clear_error s = elim s.error_state [
    | normal ↦ record s { error_state = normal }
    | in_handler ↦ record s { error_state = normal; lasterror = ok; status = ok; if_status = ok }
    | in_error ↦ record s { error_state = normal; lasterror = ok; status = ok; if_status = ok }
  ]

  -- The terminal is asked whether to go on, behind a command.
  unfoldable pub ask : Script World → Script World
  ask s =
      let (w, cancel) = env.cancel s.world in
      if cancel <ℤ? ok
      then record s { world = w; lasterror = cancel; status = cancel }
      else record s { world = w }

  -- A command is run.
  unfoldable pub command : Script World → List (List ℕ) → Script World
  command s argv =
      let (w, if_status, status) = env.run argv s.if_status s.world in
      let failed = status <ℤ? ok in
      let s1 : Script World = record s {
        status = status;
        error_state = if failed then in_error else s.error_state;
        if_status = if_status;
        world = w;
      } in
      if if_status <ℤ? ok then s1 else ask (if failed then record s1 { lasterror = status } else s1)

  -- The words of a line, and whether the script goes on
  unfoldable pub execute : Script World → List (List ℕ) → Script World × Bool
  execute s [] = (s, true)
  execute s (w ∷ args) =
      if same w exit
      then (s, false)
      else if same w onerror
      then (on_error s args, true)
      else if same w clearerror
      then (clear_error s, true)
      else if is_in_error s.error_state
      then (s, true)
      else (command s (w ∷ args), true)

  -- The words of a line: what `svc_shell_cmd_split` makes of it when its words are replaced
  unfoldable pub words : List ℕ → List (List ℕ)
  words l = let t = env.substitute l in cmd_split (argc_max - 1) (length t) t

  -- The loop of `svc_shell_script_run`, on fuel
  unfoldable pub script_from : ℕ → Script World → List ℕ → Option (Script World)
  script_from zero s text = none
  script_from (suc f) s text =
      let (s1, more) = execute s (words (line (line_size_max - 1) text)) in
      let rest = skip (behind_line (line_size_max - 1) text) in
      let later = script_from f s1 rest in if more && not (length rest == 0) then later else some s1

  -- `svc_shell_script_run`: the interface's status and what is left of the world
  unfoldable pub script_run : ℕ → (if_status : ℤ) → World → List ℕ → Option (World × ℤ)
  script_run f if_status world text =
      let (w, cancel) = env.cancel world in
      let start : Script World = record {
        status = ok;
        lasterror = ok;
        error_state = normal;
        if_status = if_status;
        world = w;
      } in
      if cancel <ℤ? ok then some (w, cancel) else elim (script_from f start text) [
        | none ↦ none
        | some s ↦ some (s.world, if s.lasterror <ℤ? ok then s.lasterror else s.if_status)
      ]
