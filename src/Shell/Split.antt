-- ===== src/Shell/Split.antt =====
-- The split of a command line into words, `svc_shell_cmd_split` of src/svc/svc_shell.c. A word is what
-- C reads at its pointer: up to the zero that the split writes behind it, or up to the end of the text.
use qoraal.Base.{
  ℕ, zero, suc, Bool, true, false, ◌&&◌, ◌||◌, not, List, [], ◌∷◌, ◌++◌, ltb, ◌==◌, if◌then◌else◌,
  length,
}
use qoraal.Shell.{isspace}

-- `enum states`; a string keeps the quote that ends it (`strchar`).
pub data State : Type 0 where
  dull : State
  in_word : State
  in_string : (strchar : ℕ) → State
  in_word_string : State

-- The variables of the loop: `word` is what stands from `start_of_word` to `p`.
pub record Splitter : Type 0 where
  pub state : State
  pub word : List ℕ
  pub argv : List (List ℕ)

-- `*p = 0; argv[argc++] = start_of_word; state = DULL`
abbrev pub end_word : Splitter → Splitter
end_word s = record { state = dull; word = []; argv = s.argv ++ (s.word ∷ []) }

abbrev pub read_on : Splitter → State → ℕ → Splitter
read_on s state c = record s { state = state; word = s.word ++ (c ∷ []) }

-- The switch
unfoldable pub step : Splitter → State → ℕ → Splitter
step s dull c =
    if isspace c
    then s
    else if c == 34 || c == 39
    then record s { state = in_string c; word = [] }
    else record s { state = in_word; word = c ∷ [] }
step s (in_string q) c = if c == q then end_word s else read_on s (in_string q) c
step s in_word c =
    if isspace c
    then end_word s
    else if c == 34
    then read_on s in_word_string c
    else read_on s in_word c
step s in_word_string c = if c == 34 then read_on s in_word c else read_on s in_word_string c

abbrev pub is_dull : State → Bool
is_dull dull = true
is_dull in_word = false
is_dull (in_string q) = false
is_dull in_word_string = false

-- What follows the loop, at the rest of the text: the last word reaches up to the end of that.
unfoldable pub finish : (argv_size : ℕ) → Splitter → List ℕ → List (List ℕ)
finish argv_size s rest =
    if not (is_dull s.state) && ltb (length s.argv) argv_size
    then s.argv ++ ((s.word ++ rest) ∷ [])
    else s.argv

-- The loop, for `len` more characters
unfoldable pub split_from : (argv_size len : ℕ) → Splitter → List ℕ → List (List ℕ)
split_from argv_size len s [] = finish argv_size s []
split_from argv_size zero s (c ∷ text) = finish argv_size s (c ∷ text)
split_from argv_size (suc n) s (c ∷ text) =
    let rest = split_from argv_size n (step s s.state c) text in
    if ltb (length s.argv) argv_size then rest else finish argv_size s (c ∷ text)

-- `svc_shell_cmd_split`: the words that it stores in `argv`
unfoldable pub cmd_split : (argv_size len : ℕ) → List ℕ → List (List ℕ)
cmd_split argv_size len text =
    split_from argv_size len (record { state = dull; word = []; argv = [] }) text
