-- ===== src/Shell/Lines.antt =====
-- The lines of a script of src/svc/svc_shell.c are executed in order.
use qoraal.Base.{
  ℕ, zero, suc, ◌≤◌, ◌<◌, ◌≡◌, inl, inr, refl, Bool, true, false, ◌&&◌, not, some, List, [], ◌∷◌,
  ◌++◌, ◌==◌, if◌then◌else◌, Bool-cases, length, length-append, arith,
}
use qoraal.Shell.Script.{
  Script, Env, is_separator, line_size_max, line, behind_line, skip, execute, words, script_from,
}

-- Text without separators
abbrev pub is_line : List ℕ → Bool
is_line [] = true
is_line (c ∷ cs) = not (is_separator c) && is_line cs

-- A line of a command: it is not empty, and fits
abbrev pub IsCommand : List ℕ → Type 0
IsCommand l = (is_line l ≡ true) × (0 < length l) × (length l < line_size_max)

abbrev pub AllCommands : List (List ℕ) → Type 0
AllCommands [] = Unit
AllCommands (l ∷ ls) = IsCommand l × AllCommands ls

-- The text of a script: each line and its end
abbrev pub unlines : List (List ℕ) → List ℕ
unlines [] = []
unlines (l ∷ ls) = l ++ (10 ∷ unlines ls)

line-is_line :
    (n : ℕ) (l rest : List ℕ)
    → is_line l ≡ true
    → length l ≤ n
    → (line n (l ++ (10 ∷ rest)) ≡ l) × (behind_line n (l ++ (10 ∷ rest)) ≡ 10 ∷ rest)
unfolding line behind_line
line-is_line zero [] rest h b = (refl, refl)
line-is_line (suc n) [] rest h b = (refl, refl)
line-is_line zero (c ∷ l) rest h b = absurd (omega arith)
line-is_line (suc n) (c ∷ l) rest h b =
    let e : is_separator c ≡ false = ground arith in
    let r = line-is_line n l rest (ground arith) (omega arith) in rw (e, r.0, r.1) (refl, refl)

skip-unlines : (ls : List (List ℕ)) → AllCommands ls → skip (10 ∷ unlines ls) ≡ unlines ls
unfolding skip
skip-unlines [] h = refl
skip-unlines ([] ∷ ls) h = absurd (ground (arith, h.0.1))
skip-unlines ((c ∷ l) ∷ ls) h = let e : is_separator c ≡ false = ground (arith, h.0.0) in rw e refl

skip-shorter : (text : List ℕ) → length (skip text) ≤ length text
unfolding skip
skip-shorter [] = omega arith
skip-shorter (c ∷ text) = ground (arith, skip-shorter text)

behind_line-shorter : (n : ℕ) (text : List ℕ) → length (behind_line n text) ≤ length text
unfolding behind_line
behind_line-shorter zero text = omega arith
behind_line-shorter (suc n) [] = omega arith
behind_line-shorter (suc n) (c ∷ text) = ground (arith, behind_line-shorter n text)

-- A round takes at least one character.
round-shorter :
    (n c : ℕ) (text : List ℕ) → length (skip (behind_line (suc n) (c ∷ text))) < suc (length text)
unfolding skip behind_line
round-shorter n c text = elim (Bool-cases (is_separator c)) [
  | inl e ↦ rw (e, e) (omega (arith, skip-shorter text))
  | inr e ↦ rw e (omega (arith, skip-shorter (behind_line n text), behind_line-shorter n text))
]

left :
    (f : ℕ) (text : List ℕ)
    → length text < suc f
    → (length (skip (behind_line 255 text)) == 0) ≡ false
    → length (skip (behind_line 255 text)) < f
unfolding behind_line skip
left f [] h e = absurd (ground arith)
left f (c ∷ text) h e = omega (arith, round-shorter 254 c text)

module _ {World : Type 0} (env : Env World) where
  -- The lines one after the other, up to an `:exit`
  abbrev pub execute_all : Script World → List (List ℕ) → Script World
  execute_all s [] = s
  execute_all s (l ∷ ls) =
      let (s1, more) = execute env s (words env l) in if more then execute_all s1 ls else s1

  -- The loop of `svc_shell_script_run` ends within as many rounds as the text has characters, and one.
  pub script_from_ends :
      (f : ℕ) (s : Script World) (text : List ℕ)
      → length text < f
      → (s' : Script World) × (script_from env f s text ≡ some s')
  unfolding script_from
  script_from_ends zero s text h = absurd (omega arith)
  script_from_ends (suc f) s text h =
      let r = execute env s (words env (line 255 text)) in
      let rest = skip (behind_line 255 text) in
      elim (Bool-cases (r.1 && not (length rest == 0))) [
        | inr e ↦ (r.0, rw e refl)
        | inl e ↦
            let (s', run) = script_from_ends f r.0 rest (left f text h (ground arith)) in
            (s', rw e run)
      ]

  -- `svc_shell_script_run` executes the lines of a script in order, up to an `:exit`, and ends after
  -- as many rounds, if each is a command of at most 255 characters and there is at least one.
  pub script_from-unlines :
      (f : ℕ) (s : Script World) (ls : List (List ℕ))
      → AllCommands ls
      → 0 < length ls
      → length ls ≤ f
      → script_from env f s (unlines ls) ≡ some (execute_all s ls)
  unfolding script_from
  script_from-unlines zero s [] q n h = absurd (omega arith)
  script_from-unlines (suc f) s [] q n h = absurd (omega arith)
  script_from-unlines zero s (l ∷ ls) q n h = absurd (omega arith)
  script_from-unlines (suc f) s (l ∷ []) (q, qs) n h =
      let (a, b) = line-is_line 255 l [] q.0 (omega (arith, q.2)) in
      let r = execute env s (words env l) in
      elim (Bool-cases r.1) [
        | inl e ↦ rw (a, b, skip-unlines [] qs, e) refl
        | inr e ↦ rw (a, b, skip-unlines [] qs, e) refl
      ]
  script_from-unlines (suc f) s (l ∷ m ∷ ls) (q, qs) n h =
      let (a, b) = line-is_line 255 l (unlines (m ∷ ls)) q.0 (omega (arith, q.2)) in
      let r = execute env s (words env l) in
      let some_left : (length (unlines (m ∷ ls)) == 0) ≡ false =
        ground (arith, length-append m (10 ∷ unlines ls)) in
      elim (Bool-cases r.1) [
        | inl e ↦
            rw (a, b, skip-unlines (m ∷ ls) qs, e, some_left)
              (script_from-unlines f r.0 (m ∷ ls) qs (omega arith) (omega arith))
        | inr e ↦ rw (a, b, skip-unlines (m ∷ ls) qs, e) refl
      ]
