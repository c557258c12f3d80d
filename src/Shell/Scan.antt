-- ===== src/Shell/Scan.antt =====
-- Numbers on the command line, `svc_shell_scan_int` of src/svc/svc_shell.c. `strtoull` of the C library
-- is a parameter: from a text and a base, the number unless there is an error, and the text behind it.
use qoraal.Base.{
  ℕ, ◌-◌, ◌%◌, ◌^◌, Bool, true, false, ◌&&◌, ◌||◌, Option, none, some, List, [], ◌∷◌, ltb, ◌==◌,
  if◌then◌else◌, length,
}
use qoraal.Tasks.{word}

-- The value of the digits, with the range of the result
unfoldable pub scale : (negative : Bool) → ℕ → Option ℕ
scale true n = if ltb (2 ^ 31) n then none else some ((word - n) % word)
scale false n = if ltb (word - 1) n then none else some n

module _ (strtoull : List ℕ → (base : ℕ) → Option (ℕ × List ℕ)) where
  -- The digits in a base, behind their prefix
  unfoldable pub scan_digits : (negative : Bool) → (base : ℕ) → List ℕ → Option ℕ
  scan_digits negative base [] = none
  scan_digits negative base (c ∷ cs) = elim (strtoull (c ∷ cs) base) [
    | none ↦ none
    | some r ↦ if length r.1 == 0 then scale negative r.0 else none
  ]

  -- The digits behind the sign, which may have the prefix of base 2
  unfoldable pub scan_number : (negative : Bool) → List ℕ → Option ℕ
  scan_number negative (c ∷ d ∷ cs) =
      if c == 48 && (d == 98 || d == 66)
      then scan_digits negative 2 cs
      else scan_digits negative 0 (c ∷ d ∷ cs)
  scan_number negative (c ∷ []) = scan_digits negative 0 (c ∷ [])
  scan_number negative [] = none

  -- `svc_shell_scan_int`: the value as an uint32_t, or none on failure
  unfoldable pub scan_int : List ℕ → Option ℕ
  scan_int [] = none
  scan_int (c ∷ cs) =
      if c == 43 || c == 45 then scan_number (c == 45) cs else scan_number false (c ∷ cs)
