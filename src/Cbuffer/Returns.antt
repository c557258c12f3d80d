-- ===== src/Cbuffer/Returns.antt =====
-- The check of src/common/cbuffer.c returns for any contents of the memory, and what it says of them.
use qoraal.Base.{
  ℕ, zero, suc, ◌+◌, ◌^◌, ◌≡◌, ◌≤◌, ◌<◌, ◌⊎◌, inl, inr, refl, ap, ◌∙◌, Bool, true, false, Option,
  none, some, List, [], ◌∷◌, leb, ◌==◌, ==_eq, Bool-cases, length, arith,
}
use qoraal.Cbuffer.{Queue, Platform, front, back, forwards, backwards}
use qoraal.Cbuffer.Valid.{tally_valid}
use qoraal.Cbuffer.Validate.{
  validate_item, header_valid, tally, conclude, validate_forwards, validate,
}

module _ (platform : Platform) where
  -- From `i` on, `next` leads through these items, which all are valid, to its end or a null pointer.
  abbrev pub Passes : Queue → (next : ℕ → Option ℕ) → Option ℕ → List ℕ → Type 0
  Passes q next i [] = (i ≡ none) ⊎ (i ≡ some 0)
  Passes q next i (x ∷ xs) =
      (i ≡ some x) × (validate_item platform q x ≡ true) × Passes q next (next x) xs

  abbrev Tallied :
      Queue → (next : ℕ → Option ℕ) → (limit : ℕ) → Option ℕ → (count : ℕ) → Option ℕ → Type 0
  Tallied q next limit i count none = Unit {0}
  Tallied q next limit i count (some n) =
      (xs : List ℕ) × Passes q next i xs × (n ≡ count + length xs) × (n ≤ limit)

  Tallied-later :
      (q : Queue) (next : ℕ → Option ℕ) (limit x count : ℕ) (r : Option ℕ)
      → validate_item platform q x ≡ true
      → Tallied q next limit (next x) (count + 1) r
      → Tallied q next limit (some x) count r
  Tallied-later q next limit x count none v t = tt
  Tallied-later q next limit x count (some n) v (xs, p, e, l) =
      (x ∷ xs, (refl, v, p), omega (arith, e), l)

  -- The loop ends, since it counts to at most `limit`.
  tally-Tallied :
      (q : Queue) (next : ℕ → Option ℕ) (limit modulus fuel : ℕ) (i : Option ℕ) (count : ℕ)
      → count ≤ limit
      → limit < modulus
      → limit < fuel + count
      → (r : Option ℕ) × (tally platform q next limit modulus fuel i count ≡ some r)
        × Tallied q next limit i count r
  unfolding tally
  tally-Tallied q next limit modulus zero i c a b f = absurd (omega arith)
  tally-Tallied q next limit modulus (suc k) none c a b f =
      (some c, refl, ([], inl refl, omega arith, a))
  tally-Tallied q next limit modulus (suc k) (some i) c a b f = elim (Bool-cases (i == 0)) [
    | inl z ↦
        (some c, simp z refl, ([], inr (ap (λ (x : ℕ). some x) (==_eq i 0 z)), omega arith, a))
    | inr z ↦ elim (Bool-cases (leb limit c)) [
      | inl l ↦ (none, simp (z, l) refl, tt)
      | inr l ↦ elim (Bool-cases (validate_item platform q i)) [
        | inr v ↦ (none, simp (z, l, v) refl, tt)
        | inl v ↦
            let more : c < limit = ground (arith, l) in
            let (r, e, t) =
              tally-Tallied q next limit modulus k (next i) (c + 1) (omega arith) b (omega arith) in
            (
              r,
              tally_valid platform q next limit modulus k i c v more b ∙ e,
              Tallied-later q next limit i c r v t,
            )
      ]
    ]
  ]

  -- What the result of a check says: a queue that passed has as many valid items as its counter says,
  -- on the way forwards and on the way back, at most one for each word of the buffer; else no more
  -- than the counter has changed, to 0.
  abbrev pub Checked : Queue → (dwsize : ℕ) → Queue × Bool → Type 0
  Checked q dwsize (q', true) =
      (xs : List ℕ) × (ys : List ℕ) × Passes q (forwards q) (back q) xs
      × Passes q (backwards q) (front q) ys
      × (q' ≡ record q { count = length xs })
      × (length ys ≡ length xs)
      × (length xs ≤ dwsize)
  Checked q dwsize (q', false) = (q' ≡ q) ⊎ (q' ≡ record q { count = 0 })

  conclude-Checked :
      (q : Queue) (dwsize count : ℕ) (r : Option ℕ)
      → Tallied q (backwards q) dwsize (front q) 0 (some count)
      → Tallied q (forwards q) dwsize (back q) 0 r
      → Checked q dwsize (conclude q count r)
  unfolding conclude
  conclude-Checked q dwsize count none s t = inr refl
  conclude-Checked q dwsize count (some n) (ys, p, e, l) (xs, p', e', l') =
      elim (Bool-cases (n == count)) [
        | inr z ↦ simp z (inr refl)
        | inl z ↦ simp z (
          xs,
          ys,
          p',
          p,
          ap (λ (c : ℕ). record q { count = c }) (e' ∙ omega arith),
          omega (arith, ==_eq n count z, e, e'),
          omega (arith, e', l'),
        )
      ]

  forwards-Checked :
      (q : Queue) (dwsize fuel : ℕ) (r : Option ℕ)
      → dwsize < 2 ^ 16
      → dwsize < fuel
      → Tallied q (backwards q) dwsize (front q) 0 r
      → (s : Queue × Bool) × (validate_forwards platform fuel q dwsize r ≡ some s)
        × Checked q dwsize s
  unfolding validate_forwards
  forwards-Checked q dwsize fuel none b f t = ((q, false), refl, inl refl)
  forwards-Checked q dwsize fuel (some count) b f t =
      let (r, e, u) =
        tally-Tallied q (forwards q) dwsize (2 ^ 16) fuel (back q) 0 (omega arith) b
          (omega arith) in
      (conclude q count r, simp e refl, conclude-Checked q dwsize count r t u)

  -- `cqueue_validate` returns for any contents of the memory, also where the links run in a circle,
  -- if a uint16_t holds the size of the buffer and each loop is given more steps than that. A queue
  -- that passed has valid items only, both ways as many as its counter then says and at most one for
  -- each word; for one that did not, no more than the counter is changed, to 0.
  pub validate-Checked :
      (fuel : ℕ) (q : Queue) (cbuffer dwsize : ℕ)
      → dwsize < 2 ^ 16
      → dwsize < fuel
      → (s : Queue × Bool) × (validate platform fuel q cbuffer dwsize ≡ some s) × Checked q dwsize s
  unfolding validate
  validate-Checked fuel q cbuffer dwsize b f = elim (Bool-cases (header_valid q cbuffer dwsize)) [
    | inr h ↦ ((q, false), simp h refl, inl refl)
    | inl h ↦
        let big : leb (2 ^ 31) dwsize ≡ false = ground arith in
        let (r, e, t) =
          tally-Tallied q (backwards q) dwsize (2 ^ 32) fuel (front q) 0 (omega arith) (omega arith)
            (omega arith) in
        let (s, g, c) = forwards-Checked q dwsize fuel r b f t in (s, simp (h, big, e) g, c)
  ]
