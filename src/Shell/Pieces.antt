-- ===== src/Shell/Pieces.antt =====
-- The pieces that src/svc/svc_shell.c prints make up the whole.
use qoraal.Base.{
  ℕ, zero, suc, ◌+◌, ◌-◌, ◌%◌, ◌≤◌, ◌<◌, ◌≡◌, inl, inr, refl, sym, ap, ◌∙◌, true, some, List, [],
  ◌∷◌, ◌++◌, ltb, leb, ◌==◌, if◌then◌else◌, Bool-cases, length, arith,
}
use qoraal.Strsub.Buffer.{take}
use qoraal.Shell.Output.{drop, write_from, hex, hex_piece, write_hex}

abbrev pub join : List (List ℕ) → List ℕ
join [] = []
join (p ∷ ps) = p ++ join ps

abbrev pub AllShort : ℕ → List (List ℕ) → Type 0
AllShort n [] = Unit
AllShort n (p ∷ ps) = (length p ≤ n) × AllShort n ps

take-drop : (n : ℕ) (cs : List ℕ) → take n cs ++ drop n cs ≡ cs
take-drop zero cs = refl
take-drop (suc n) [] = refl
take-drop (suc n) (c ∷ cs) = ap (λ (x : List ℕ). c ∷ x) (take-drop n cs)

take_nil : (n : ℕ) → take n [] ≡ []
take_nil zero = refl
take_nil (suc n) = refl

length-drop : (n : ℕ) (cs : List ℕ) → length (drop n cs) ≡ length cs - n
length-drop zero cs = omega arith
length-drop (suc n) [] = omega arith
length-drop (suc n) (c ∷ cs) = omega (arith, length-drop n cs)

length-take : (n : ℕ) (cs : List ℕ) → length (take n cs) ≤ n
length-take zero cs = omega arith
length-take (suc n) [] = omega arith
length-take (suc n) (c ∷ cs) = omega (arith, length-take n cs)

empty : (cs : List ℕ) → (length cs == 0) ≡ true → cs ≡ []
empty [] h = refl
empty (c ∷ cs) h = absurd (ground arith)

-- `svc_shell_write` ends, after at most one round for each character and one more: the pieces that it
-- prints make up the text, and none is longer than 480 characters.
pub write_from-join :
    (f : ℕ) (str : List ℕ)
    → length str < f
    → (ps : List (List ℕ)) × (write_from f str ≡ some ps) × (join ps ≡ str) × AllShort 480 ps
unfolding write_from
write_from-join zero str h = absurd (omega arith)
write_from-join (suc f) str h =
    let n = if ltb 480 (length str) then 480 else length str in
    let small : n ≤ 480 = ground arith in
    let t : length (take n str) ≤ 480 = omega (arith, small, length-take n str) in
    elim (Bool-cases (length (drop n str) == 0)) [
      | inl e ↦ (
        take n str ∷ [],
        rw e refl,
        sym (ap (λ (x : List ℕ). take n str ++ x) (empty (drop n str) e)) ∙ take-drop n str,
        (t, tt),
      )
      | inr e ↦
          let shorter : length (drop n str) < f = ground (arith, length-drop n str) in
          let (ps, run, whole, short) = write_from-join f (drop n str) shorter in
          (
            take n str ∷ ps,
            rw (e, run) refl,
            ap (λ (x : List ℕ). take n str ++ x) whole ∙ take-drop n str,
            (t, short),
          )
    ]

abbrev pub hexes : List ℕ → List ℕ
hexes [] = []
hexes (b ∷ bs) = hex b ++ hexes bs

hex_piece-hexes :
    (offset : ℕ) (bs : List ℕ)
    → offset % 2 ≡ 0
    → offset ≤ 486
    → ((hex_piece offset bs).0 ++ hexes (hex_piece offset bs).1 ≡ hexes bs)
      × (length (hex_piece offset bs).1 ≤ length bs)
unfolding hex_piece
hex_piece-hexes offset [] p h = (refl, omega arith)
hex_piece-hexes offset (b ∷ bs) p h = elim (Bool-cases (leb 487 (offset + 2))) [
  | inl e ↦
      let r : ltb offset 487 ≡ true = ground arith in
      let z : 487 - offset - 1 ≡ 0 = ground arith in rw (r, e, z) (refl, omega arith)
  | inr e ↦
      let r : ltb offset 487 ≡ true = ground arith in
      let m = 487 - offset - 3 in
      let z : 487 - offset - 1 ≡ suc (suc m) = ground arith in
      let (t, l) = hex_piece-hexes (offset + 2) bs (omega (arith, p)) (ground arith) in
      rw (r, e, z, take_nil m, t) (refl, omega (arith, l))
]

-- `svc_shell_write_hex` ends, after at most one round for each byte and one more, and the pieces that
-- it prints are the bytes in hexadecimal, two digits each: none is lost or printed twice where a piece
-- is full.
pub write_hex-hexes :
    (f : ℕ) (bytes : List ℕ)
    → length bytes < f
    → (ps : List (List ℕ)) × (write_hex f bytes ≡ some ps) × (join ps ≡ hexes bytes)
unfolding write_hex hex_piece
write_hex-hexes zero bytes h = absurd (omega arith)
write_hex-hexes (suc f) [] h = ([], refl, refl)
write_hex-hexes (suc f) (b ∷ bs) h =
    let r = hex_piece 0 (b ∷ bs) in
    let (whole, l) = hex_piece-hexes 0 (b ∷ bs) (omega arith) (omega arith) in
    let (ps, run, rest) =
      write_hex-hexes f r.1 (omega (arith, (hex_piece-hexes 2 bs (omega arith) (omega arith)).1)) in
    (r.0 ∷ ps, rw run refl, ap (λ (x : List ℕ). r.0 ++ x) rest ∙ whole)
