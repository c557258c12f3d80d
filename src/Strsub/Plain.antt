-- ===== src/Strsub/Plain.antt =====
-- Text without tokens in src/common/strsub.c.
use qoraal.Base.{
  ℕ, zero, suc, ◌+◌, ◌-◌, ◌%◌, ◌<◌, ◌≡◌, inl, inr, refl, sym, ap, ◌∙◌, true, false, ◌&&◌, not, none,
  List, [], ◌∷◌, ◌++◌, leb, ◌==◌, ==_refl, Bool-cases, has, length, length-append, ℤ, pos, negsuc,
  ◌<ℤ?◌, arith,
}
use qoraal.Tasks.{word, update}
use qoraal.Strsub.{
  Instance, Parser, dull, last, open_token, emit, plain_or_open, in_dull, step, parse_from, parse,
}
use qoraal.Strsub.Buffer.{copy, room, put, with_cb, parse_string_to}
use qoraal.Strsub.Bounds.{room_exact, copy-outside}

-- The characters at an address.
abbrev pub read : (ℕ → ℕ) → (a n : ℕ) → List ℕ
read m a zero = []
read m a (suc n) = m a ∷ read m (a + 1) n

-- A character that ends no text, is no escape and opens no pair of tokens that has a handler.
pub record IsPlain (s : Instance) (c : ℕ) : Type 0 where
  pub nonzero : (c == 0) ≡ false
  pub no_escape : (not (s.escape == 0) && c == s.escape) ≡ false
  pub no_token : open_token s c last 0 ≡ none

read-copy : (m : ℕ → ℕ) (a : ℕ) (cs : List ℕ) → read (copy m a cs) a (length cs) ≡ cs
unfolding copy
read-copy m a [] = refl
read-copy m a (c ∷ cs) =
    rw
      (
        copy-outside (update m a c) (a + 1) cs (a + 1) (length cs) a (omega arith) (omega arith)
            (inl (omega arith)),
        ==_refl a,
        read-copy (update m a c) (a + 1) cs,
      )
      refl

copy-append :
    (m : ℕ → ℕ) (a : ℕ) (cs : List ℕ) (c : ℕ)
    → copy m a (cs ++ (c ∷ [])) ≡ update (copy m a cs) (a + length cs) c
unfolding copy
copy-append m a [] c = let e : a ≡ a + 0 = omega arith in ap (λ (b : ℕ). update m b c) e
copy-append m a (d ∷ cs) c =
    let e : a + 1 + length cs ≡ a + suc (length cs) = omega arith in
    copy-append (update m a d) (a + 1) cs c
    ∙ ap (λ (b : ℕ). update (copy (update m a d) (a + 1) cs) b c) e

-- One character is put where there is room for it and one more.
put_one :
    (dst len c offset : ℕ) (m : ℕ → ℕ)
    → len < word
    → offset + 1 < len
    → put dst len (c ∷ []) offset m ≡ (update m (dst + offset) c, pos 1)
unfolding put copy
put_one dst len c offset m w h =
    let r = room_exact len (omega arith) w in
    let e : leb (room len) offset ≡ false = ground (arith, r) in
    elim (Bool-cases (leb (room len) ((1 + offset) % word))) [
      | inl f ↦ let n : len - offset - 1 ≡ 1 = ground (arith, r) in rw (e, f, n) refl
      | inr f ↦ rw (e, f) refl
    ]

-- There is no room left for one more character.
put_none :
    (dst len c offset : ℕ) (m : ℕ → ℕ)
    → len < word
    → offset + 1 ≡ len
    → put dst len (c ∷ []) offset m ≡ (m, negsuc 0)
unfolding put
put_none dst len c offset m w h =
    let r = room_exact len (omega arith) w in
    let e : leb (room len) offset ≡ true = ground (arith, r) in rw e refl

module _ (s : Instance)
    (lookup : (cb : List ℕ → ℕ → (ℕ → ℕ) → (ℕ → ℕ) × ℤ) (handler : ℕ) (text : List ℕ) (offset : ℕ)
      → (ℕ → ℕ)
      → (ℕ → ℕ) × ℤ)
    (dst len : ℕ) where
  -- The parser between two words
  abbrev between : (ℕ → ℕ) → (offset : ℕ) → (res : ℤ) → Parser (ℕ → ℕ)
  between m offset res = record {
    sink = m;
    state = dull;
    offset = offset;
    res = res;
    text = [];
    tokens = 0;
  }

  step_plain :
      (m : ℕ → ℕ) (offset : ℕ) (res : ℤ) (c : ℕ)
      → len < word
      → offset + 1 < len
      → IsPlain s c
      → step s (with_cb s lookup (put dst len)) (between m offset res) dull c
        ≡ between (update m (dst + offset) c) (offset + 1) (pos 1)
  unfolding step in_dull plain_or_open emit
  step_plain m offset res c w h q =
      let e : (offset + 1) % word ≡ offset + 1 = omega arith in
      rw (q.no_escape, q.no_token, put_one dst len c offset m w h, e) refl

  parse_from_plain :
      (m : ℕ → ℕ) (offset : ℕ) (res : ℤ) (cs : List ℕ)
      → len < word
      → offset + length cs < len
      → (res <ℤ? pos 0) ≡ false
      → ((c : ℕ) → has c cs ≡ true → IsPlain s c)
      → (res' : ℤ) × (parse_from s (with_cb s lookup (put dst len)) (between m offset res) cs
          ≡ between (copy m (dst + offset) cs) (offset + length cs) res')
        × ((res' <ℤ? pos 0) ≡ false)
  unfolding parse_from copy
  parse_from_plain m offset res [] w h r q =
      let e : offset ≡ offset + 0 = omega arith in (res, ap (λ (o : ℕ). between m o res) e, r)
  parse_from_plain m offset res (c ∷ cs) w h r q =
      let p = q c (rw (==_refl c) refl) in
      let (res', run, r') =
        parse_from_plain (update m (dst + offset) c) (offset + 1) (pos 1) cs w (omega arith) refl
          (λ d n. q d (ground arith)) in
      let a : dst + (offset + 1) ≡ dst + offset + 1 = omega arith in
      let b : offset + 1 + length cs ≡ offset + suc (length cs) = omega arith in
      (
        res',
        rw (r, p.nonzero, step_plain m offset res c w (omega arith) p) (run ∙ rw (a, b) refl),
        r',
      )

  -- A text without tokens that fits is copied: `strsub_parse_string_to` returns its length, and at
  -- `dst` stands the text and a zero, if no character is zero, the escape, or opens a pair that has a
  -- handler, and the text is at least two characters shorter than the buffer.
  pub parse_string_to-read :
      (m : ℕ → ℕ) (text : List ℕ)
      → len < word
      → length text + 1 < len
      → ((c : ℕ) → has c text ≡ true → IsPlain s c)
      → let (m', n) = parse_string_to s lookup dst len text m in
        (n ≡ length text) × (read m' dst (length text + 1) ≡ text ++ (0 ∷ []))
  unfolding parse_string_to parse
  parse_string_to-read m text w h q =
      let (res, run, r) = parse_from_plain (update m dst 0) 0 (pos 0) text w (omega arith) refl q in
      let m' = copy (update m dst 0) (dst + 0) text in
      let a : dst + 0 ≡ dst = omega arith in
      let b : 0 + length text ≡ length text = omega arith in
      let whole : update m' (dst + (0 + length text)) 0
          ≡ copy (update m dst 0) dst (text ++ (0 ∷ [])) =
        rw (a, b) (sym (copy-append (update m dst 0) dst text 0)) in
      let size : length text + 1 ≡ length (text ++ (0 ∷ [])) =
        omega (arith, length-append text (0 ∷ [])) in
      rw (run, r, put_one dst len 0 (0 + length text) m' w (omega arith))
        (omega arith, rw (whole, size) (read-copy (update m dst 0) dst (text ++ (0 ∷ []))))

  -- A text without tokens that fills the buffer up to its last byte is not ended:
  -- `strsub_parse_string_to` returns its length, and at `dst` stands the text, but the byte behind it
  -- is as it was, if no character is zero, the escape, or opens a pair that has a handler, and the
  -- text is not empty and one character shorter than the buffer.
  pub parse_string_to-unended :
      (m : ℕ → ℕ) (text : List ℕ)
      → len < word
      → 0 < length text
      → length text + 1 ≡ len
      → ((c : ℕ) → has c text ≡ true → IsPlain s c)
      → let (m', n) = parse_string_to s lookup dst len text m in
        (n ≡ length text)
        × (read m' dst (length text) ≡ text)
        × (m' (dst + length text) ≡ m (dst + length text))
  unfolding parse_string_to parse
  parse_string_to-unended m text w g h q =
      let (res, run, r) = parse_from_plain (update m dst 0) 0 (pos 0) text w (omega arith) refl q in
      let m' = copy (update m dst 0) (dst + 0) text in
      let a : dst + 0 ≡ dst = omega arith in
      let other : ((dst + length text) == dst) ≡ false = ground arith in
      rw (run, r, put_none dst len 0 (0 + length text) m' w (omega arith))
        (
          omega arith,
          rw a (read-copy (update m dst 0) dst text),
          copy-outside (update m dst 0) (dst + 0) text dst (length text) (dst + length text)
                (omega arith) (omega arith) (inr (omega arith))
              ∙ rw other refl,
        )
