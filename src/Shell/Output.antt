-- ===== src/Shell/Output.antt =====
-- The output of bytes in pieces in src/svc/svc_shell.c. What the terminal gets is a list of texts.
use qoraal.Base.{
  ℕ, zero, suc, ◌>>=◌, ◌+◌, ◌-◌, ◌/◌, ◌%◌, not, Option, none, some, List, [], ◌∷◌, ◌++◌, ltb, leb,
  ◌==◌, if◌then◌else◌, length,
}
use qoraal.Strsub.Buffer.{take}

-- `SVC_SHELL_PRINT_BUFFER_SIZE`
abbrev pub print_buffer_size : ℕ
print_buffer_size = 488

-- What is left behind `n` elements
abbrev pub drop : ℕ → List ℕ → List ℕ
drop zero cs = cs
drop (suc n) [] = []
drop (suc n) (c ∷ cs) = drop n cs

-- The loop of `svc_shell_write`, on fuel: the pieces of a text
unfoldable pub write_from : ℕ → List ℕ → Option (List (List ℕ))
write_from zero str = none
write_from (suc f) str =
    let n = if ltb 480 (length str) then 480 else length str in
    let later = write_from f (drop n str) in
    if length (drop n str) == 0
    then some (take n str ∷ [])
    else (do rest ← later; some (take n str ∷ rest))

-- A digit of `%x`
abbrev pub hex_digit : ℕ → ℕ
hex_digit d = if ltb d 10 then 48 + d else 87 + d

-- `%02x`
abbrev pub hex : ℕ → List ℕ
hex b = hex_digit (b / 16 % 16) ∷ hex_digit (b % 16) ∷ []

-- The inner loop of `svc_shell_write_hex`: the text of a piece and the bytes that it left. A byte that
-- does not fit is printed as far as `snprintf` may, and left.
unfoldable pub hex_piece : (offset : ℕ) → List ℕ → List ℕ × List ℕ
hex_piece offset [] = ([], [])
hex_piece offset (b ∷ bs) =
    let room = print_buffer_size - 1 - offset in
    let digits = take (room - 1) (hex b) in
    let (text, left) = hex_piece (offset + 2) bs in
    if not (ltb offset (print_buffer_size - 1))
    then ([], b ∷ bs)
    else if leb (print_buffer_size - 1) (offset + 2)
    then (digits, b ∷ bs)
    else (digits ++ text, left)

-- `svc_shell_write_hex`, on fuel: the pieces
unfoldable pub write_hex : ℕ → List ℕ → Option (List (List ℕ))
write_hex zero bytes = none
write_hex (suc f) [] = some []
write_hex (suc f) (b ∷ bs) =
    let (text, left) = hex_piece 0 (b ∷ bs) in do rest ← write_hex f left; some (text ∷ rest)
