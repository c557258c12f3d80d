-- ===== src/Shell/Errors.antt =====
-- What a failing command, and the terminal's wish to stop, mean for the rest of a script of
-- src/svc/svc_shell.c.
use qoraal.Base.{
  ℕ, suc, ◌≡◌, ◌≤◌, ◌<◌, inl, inr, refl, ap, ◌∙◌, Bool, true, false, ◌&&◌, not, some, List, [], ◌∷◌,
  Bool-cases, length, ◌<ℤ?◌, arith,
}
use qoraal.Shell.{ok}
use qoraal.Shell.Script.{
  Script, Env, ErrorState, in_error, is_in_error, same, exit, onerror, clearerror, ask, command,
  execute, words, script_from,
}
use qoraal.Shell.Lines.{AllCommands, unlines, execute_all, script_from-unlines}

-- The words of a command of the application's, not of the script itself
abbrev pub is_command : List (List ℕ) → Bool
is_command [] = true
is_command (w ∷ args) = not (same w exit) && not (same w onerror) && not (same w clearerror)

module _ {World : Type 0} (env : Env World) where
  abbrev pub AllPlain : List (List ℕ) → Type 0
  AllPlain [] = Unit
  AllPlain (l ∷ ls) = (is_command (words env l) ≡ true) × AllPlain ls

  execute_skipped :
      (s : Script World) (argv : List (List ℕ))
      → s.error_state ≡ in_error
      → is_command argv ≡ true
      → execute env s argv ≡ (s, true)
  unfolding execute
  execute_skipped s [] e p = refl
  execute_skipped s (w ∷ args) e p =
      let a : same w exit ≡ false = ground arith in
      let b : same w onerror ≡ false = ground arith in
      let c : same w clearerror ≡ false = ground arith in
      let d : is_in_error s.error_state ≡ true = ap (λ (x : ErrorState). is_in_error x) e in
      simp (a, b, c, d) refl

  execute_all-skipped :
      (s : Script World) (ls : List (List ℕ))
      → s.error_state ≡ in_error
      → AllPlain ls
      → execute_all env s ls ≡ s
  execute_all-skipped s [] e p = refl
  execute_all-skipped s (l ∷ ls) e p =
      rw (execute_skipped s (words env l) e p.0) (execute_all-skipped s ls e p.1)

  ask_error_state : (s : Script World) → (ask env s).error_state ≡ s.error_state
  unfolding ask
  ask_error_state s = elim (Bool-cases ((env.cancel s.world).1 <ℤ? ok)) [
    | inl e ↦ rw e refl
    | inr e ↦ rw e refl
  ]

  command_failed :
      (s : Script World) (argv : List (List ℕ))
      → ((env.run argv s.if_status s.world).2 <ℤ? ok) ≡ true
      → (command env s argv).error_state ≡ in_error
  unfolding command
  command_failed s argv e =
      let r = env.run argv s.if_status s.world in
      elim (Bool-cases (r.1 <ℤ? ok)) [
        | inl f ↦ rw (e, f) refl
        | inr f ↦ rw (e, f) (ask_error_state _)
      ]

  command_passed :
      (s : Script World) (argv : List (List ℕ))
      → ((env.run argv s.if_status s.world).2 <ℤ? ok) ≡ false
      → (command env s argv).error_state ≡ s.error_state
  unfolding command
  command_passed s argv e =
      let r = env.run argv s.if_status s.world in
      elim (Bool-cases (r.1 <ℤ? ok)) [
        | inl f ↦ rw (e, f) refl
        | inr f ↦ rw (e, f) (ask_error_state _)
      ]

  execute-command :
      (s : Script World) (argv : List (List ℕ))
      → is_in_error s.error_state ≡ false
      → 0 < length argv
      → is_command argv ≡ true
      → execute env s argv ≡ (command env s argv, true)
  unfolding execute
  execute-command s [] d n p = absurd (ground arith)
  execute-command s (w ∷ args) d n p =
      let a : same w exit ≡ false = ground arith in
      let b : same w onerror ≡ false = ground arith in
      let c : same w clearerror ≡ false = ground arith in simp (a, b, c, d) refl

  -- A command that fails is the last that a script runs: the lines behind it are passed over, if none
  -- is `:exit`, `:onerror` or `:clearerror`. The script is not already in an error, each line is a
  -- command of at most 255 characters, and there are as many rounds as lines.
  pub script_from-failed :
      (f : ℕ) (s : Script World) (l : List ℕ) (ls : List (List ℕ))
      → AllCommands (l ∷ ls)
      → suc (length ls) ≤ f
      → is_in_error s.error_state ≡ false
      → 0 < length (words env l)
      → AllPlain (l ∷ ls)
      → ((env.run (words env l) s.if_status s.world).2 <ℤ? ok) ≡ true
      → script_from env f s (unlines (l ∷ ls)) ≡ some (command env s (words env l))
  script_from-failed f s l ls q h d n p e =
      script_from-unlines env f s (l ∷ ls) q (omega arith) h
      ∙ rw (execute-command s (words env l) d n p.0) (
          ap (λ (x : Script World). some x)
            (execute_all-skipped (command env s (words env l)) ls (command_failed s (words env l) e)
              p.1))

  -- The terminal's wish to stop does not stop a script: behind a command that succeeds, the next one
  -- is run whatever the terminal answers. The script is not in an error, each of the two lines is a
  -- command of at most 255 characters, and there are two rounds.
  pub script_from-cancelled :
      (f : ℕ) (s : Script World) (l m : List ℕ)
      → AllCommands (l ∷ m ∷ [])
      → 2 ≤ f
      → is_in_error s.error_state ≡ false
      → 0 < length (words env l)
      → 0 < length (words env m)
      → AllPlain (l ∷ m ∷ [])
      → ((env.run (words env l) s.if_status s.world).2 <ℤ? ok) ≡ false
      → script_from env f s (unlines (l ∷ m ∷ []))
        ≡ some (command env (command env s (words env l)) (words env m))
  script_from-cancelled f s l m q h d n k p e =
      let s1 = command env s (words env l) in
      let d1 : is_in_error s1.error_state ≡ false =
        ap (λ (x : ErrorState). is_in_error x) (command_passed s (words env l) e) ∙ d in
      script_from-unlines env f s (l ∷ m ∷ []) q (omega arith) h
      ∙ rw (execute-command s (words env l) d n p.0, execute-command s1 (words env m) d1 k p.1.0)
          refl
