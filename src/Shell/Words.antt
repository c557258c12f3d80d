-- ===== src/Shell/Words.antt =====
-- Words written on a command line come back from the split of src/svc/svc_shell.c.
use qoraal.Base.{
  ℕ, zero, suc, ◌+◌, ◌≤◌, ◌≡◌, inl, inr, refl, sym, ◌∙◌, Bool, true, false, ◌&&◌, ◌||◌, not, List,
  [], ◌∷◌, ◌++◌, ltb, ◌==◌, if◌then◌else◌, Bool-cases, has, length, length-append, arith,
}
use mathlib.Core.List.{append_assoc, append-nil}
use qoraal.Shell.{isspace}
use qoraal.Shell.Split.{
  State, dull, in_word, in_string, in_word_string, Splitter, end_word, step, is_dull, finish,
  split_from, cmd_split,
}

-- No more than `argv_size` words are stored.
finish-bound :
    (argv_size : ℕ) (s : Splitter) (rest : List ℕ)
    → length s.argv ≤ argv_size
    → length (finish argv_size s rest) ≤ argv_size
unfolding finish
finish-bound n s rest h = elim (Bool-cases (not (is_dull s.state) && ltb (length s.argv) n)) [
  | inl e ↦ rw e (ground (arith, length-append s.argv ((s.word ++ rest) ∷ [])))
  | inr e ↦ rw e h
]

end_word-bound :
    (s : Splitter) (n : ℕ) → ltb (length s.argv) n ≡ true → length (end_word s).argv ≤ n
end_word-bound s n h = ground (arith, length-append s.argv (s.word ∷ []))

step-bound :
    (s : Splitter) (q : State) (c n : ℕ)
    → ltb (length s.argv) n ≡ true
    → length (step s q c).argv ≤ n
unfolding step
step-bound s dull c n h = ground arith
step-bound s (in_string q) c n h = ground (arith, end_word-bound s n h)
step-bound s in_word c n h = ground (arith, end_word-bound s n h)
step-bound s in_word_string c n h = ground arith

split_from-bound :
    (n len : ℕ) (s : Splitter) (text : List ℕ)
    → length s.argv ≤ n
    → length (split_from n len s text) ≤ n
unfolding split_from
split_from-bound n len s [] h = finish-bound n s [] h
split_from-bound n zero s (c ∷ text) h = finish-bound n s (c ∷ text) h
split_from-bound n (suc len) s (c ∷ text) h = elim (Bool-cases (ltb (length s.argv) n)) [
  | inl e ↦ rw e (split_from-bound n len (step s s.state c) text (step-bound s s.state c n e))
  | inr e ↦ rw e (finish-bound n s (c ∷ text) h)
]

-- `svc_shell_cmd_split` stores no more words than `argv` has room for, whatever the text.
pub cmd_split-bound :
    (argv_size len : ℕ) (text : List ℕ) → length (cmd_split argv_size len text) ≤ argv_size
unfolding cmd_split
cmd_split-bound n len text = split_from-bound n len _ text (omega arith)

-- Characters that end no word and open no string
abbrev plain : List ℕ → Bool
plain [] = true
plain (c ∷ cs) = not (isspace c) && not (c == 34) && plain cs

-- A word that needs no quotes
abbrev pub is_bare : List ℕ → Bool
is_bare [] = false
is_bare (c ∷ cs) = not (isspace c) && not (c == 34) && not (c == 39) && plain cs

-- A word as it is written, in double quotes where it needs them, and a blank
abbrev pub written : List ℕ → List ℕ
written w = (if is_bare w then w else 34 ∷ (w ++ (34 ∷ []))) ++ (32 ∷ [])

abbrev pub command_line : List (List ℕ) → List ℕ
command_line [] = []
command_line (w ∷ ws) = written w ++ command_line ws

abbrev pub AllUnquoted : List (List ℕ) → Type 0
AllUnquoted [] = Unit
AllUnquoted (w ∷ ws) = (has 34 w ≡ false) × AllUnquoted ws

module _ (n : ℕ) where
  -- The split of all of a text
  abbrev split_all : Splitter → List ℕ → List (List ℕ)
  split_all s text = split_from n (length text) s text

  abbrev at : State → List ℕ → List (List ℕ) → Splitter
  at state word argv = record { state = state; word = word; argv = argv }

  split-string :
      (v w rest : List ℕ) (argv : List (List ℕ))
      → ltb (length argv) n ≡ true
      → has 34 w ≡ false
      → split_all (at (in_string 34) v argv) (w ++ (34 ∷ rest))
        ≡ split_all (at dull [] (argv ++ ((v ++ w) ∷ []))) rest
  unfolding split_from step
  split-string v [] rest argv h q = rw (h, append-nil v) refl
  split-string v (c ∷ w) rest argv h q =
      let e : (c == 34) ≡ false = ground arith in
      rw (h, e)
        (split-string (v ++ (c ∷ [])) w rest argv h (ground arith)
          ∙ rw (append_assoc v (c ∷ []) w) refl)

  split-bare :
      (v w rest : List ℕ) (argv : List (List ℕ))
      → ltb (length argv) n ≡ true
      → plain w ≡ true
      → split_all (at in_word v argv) (w ++ (32 ∷ rest))
        ≡ split_all (at dull [] (argv ++ ((v ++ w) ∷ []))) rest
  unfolding split_from step
  split-bare v [] rest argv h q = rw (h, append-nil v) refl
  split-bare v (c ∷ w) rest argv h q =
      let e : (c == 34) ≡ false = ground arith in
      let f : isspace c ≡ false = ground arith in
      rw (h, e, f)
        (split-bare (v ++ (c ∷ [])) w rest argv h (ground arith)
          ∙ rw (append_assoc v (c ∷ []) w) refl)

  -- With no room for another word, the rest is not read.
  split-full :
      (rest : List ℕ) (argv : List (List ℕ))
      → ltb (length argv) n ≡ false
      → split_all (at dull [] argv) rest ≡ argv
  unfolding split_from finish
  split-full [] argv h = refl
  split-full (c ∷ rest) argv h = rw h refl

  split-blank :
      (rest : List ℕ) (argv : List (List ℕ))
      → split_all (at dull [] argv) (32 ∷ rest) ≡ split_all (at dull [] argv) rest
  unfolding split_from step
  split-blank rest argv = elim (Bool-cases (ltb (length argv) n)) [
    | inl h ↦ rw h refl
    | inr h ↦ split-full (32 ∷ rest) argv h ∙ sym (split-full rest argv h)
  ]

  split-quoted :
      (w rest : List ℕ) (argv : List (List ℕ))
      → ltb (length argv) n ≡ true
      → has 34 w ≡ false
      → split_all (at dull [] argv) (34 ∷ (w ++ (34 ∷ 32 ∷ rest)))
        ≡ split_all (at dull [] (argv ++ (w ∷ []))) rest
  unfolding split_from step
  split-quoted w rest argv h q =
      rw h (split-string [] w (32 ∷ rest) argv h q ∙ split-blank rest (argv ++ (w ∷ [])))

  split-written :
      (w rest : List ℕ) (argv : List (List ℕ))
      → ltb (length argv) n ≡ true
      → has 34 w ≡ false
      → split_all (at dull [] argv) (written w ++ rest)
        ≡ split_all (at dull [] (argv ++ (w ∷ []))) rest
  unfolding split_from step
  split-written [] rest argv h q = split-quoted [] rest argv h q
  split-written (c ∷ w) rest argv h q = elim (Bool-cases (is_bare (c ∷ w))) [
    | inl b ↦
        let e : (w ++ (32 ∷ [])) ++ rest ≡ w ++ (32 ∷ rest) = append_assoc w (32 ∷ []) rest in
        let f : isspace c ≡ false = ground arith in
        let g : (c == 34 || c == 39) ≡ false = ground arith in
        rw (b, e, h, f, g) (split-bare (c ∷ []) w rest argv h (ground arith))
    | inr b ↦
        let e : (w ++ (34 ∷ [])) ++ (32 ∷ rest) ≡ w ++ (34 ∷ 32 ∷ rest) =
          append_assoc w (34 ∷ []) (32 ∷ rest) in
        rw (b, append_assoc (w ++ (34 ∷ [])) (32 ∷ []) rest, e) (split-quoted (c ∷ w) rest argv h q)
  ]

  split-command_line :
      (ws argv : List (List ℕ))
      → length argv + length ws ≤ n
      → AllUnquoted ws
      → split_all (at dull [] argv) (command_line ws) ≡ argv ++ ws
  unfolding split_from finish
  split-command_line [] argv h q = sym (append-nil argv)
  split-command_line (w ∷ ws) argv h q =
      split-written w (command_line ws) argv (ground arith) q.0
      ∙ split-command_line ws (argv ++ (w ∷ [])) (omega (arith, length-append argv (w ∷ []))) q.1
      ∙ append_assoc argv (w ∷ []) ws

  -- Words that are written on a line, each in double quotes where it is empty or has a blank or a
  -- quote in it, come back from `svc_shell_cmd_split`, if none has a double quote and `argv` has room
  -- for all.
  pub cmd_split-command_line :
      (ws : List (List ℕ))
      → length ws ≤ n
      → AllUnquoted ws
      → cmd_split n (length (command_line ws)) (command_line ws) ≡ ws
  unfolding cmd_split
  cmd_split-command_line ws h q = split-command_line ws [] (omega arith) q
