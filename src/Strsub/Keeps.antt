-- ===== src/Strsub/Keeps.antt =====
-- The parser of src/common/strsub.c touches its sink by its callbacks alone.
use qoraal.Base.{
  ℕ, suc, ◌+◌, ◌≤◌, ◌≡◌, inl, inr, refl, ◌&&◌, ◌||◌, not, Option, none, some, List, [], ◌∷◌, ◌++◌,
  ◌==◌, Bool-cases, length, length-append, pos, ◌<ℤ?◌, arith,
}
use qoraal.Strsub.{
  State, dull, esc, token, last, Instance, Callbacks, Parser, open_token, emit, replace, in_token,
  plain_or_open, in_dull, step, parse_from, parse,
}

module _ {Sink : Type 0} (s : Instance) (k : Callbacks Sink) (Good : Sink → Type 0)
    (longest : ℕ) where
  -- The callbacks keep `Good` for a text that is at most this long.
  pub record Keeps : Type 0 where
    pub cb :
        (text : List ℕ) (offset : ℕ) (m : Sink)
        → length text ≤ longest
        → Good m
        → Good (k.cb text offset m).0
    pub lookup :
        (h : ℕ) (text : List ℕ) (offset : ℕ) (m : Sink)
        → length text ≤ longest
        → Good m
        → Good (k.lookup h text offset m).0

  -- The sink is good, and the text of the word read so far and `n` more characters are not too long.
  IsGood : Parser Sink → ℕ → Type 0
  IsGood p n = Good p.sink × (2 + length p.text + n ≤ 1 + longest)

  emit-IsGood :
      (p : Parser Sink) (text : List ℕ) (n : ℕ)
      → Keeps
      → length text ≤ longest
      → IsGood p n
      → IsGood (emit s k p text) n
  unfolding emit IsGood
  emit-IsGood p text n q t (g, l) = (q.cb text p.offset p.sink t g, l)

  replace-IsGood :
      (p : Parser Sink) (hs : List ℕ) (n : ℕ)
      → Keeps
      → IsGood p n
      → IsGood (replace s k p hs).0 n × ((replace s k p hs).0.text ≡ p.text)
  unfolding replace IsGood
  replace-IsGood p [] n q g = (g, refl)
  replace-IsGood p (h ∷ hs) n q (g, l) =
      let r = k.lookup h p.text p.offset p.sink in
      let g' = q.lookup h p.text p.offset p.sink (omega arith) g in
      elim (Bool-cases (r.1 <ℤ? pos 0)) [
        | inl e ↦ rw e (replace-IsGood (record p { sink = r.0; res = r.1 }) hs n q (g', l))
        | inr e ↦ rw e ((g', l), refl)
      ]

  in_token-IsGood :
      (p : Parser Sink) (i c n : ℕ) → Keeps → IsGood p (suc n) → IsGood (in_token s k p i c) n
  unfolding in_token IsGood
  in_token-IsGood p i c n q g =
      let (g', e) = replace-IsGood p (s.handlers i) (suc n) q g in
      let r = replace s k p (s.handlers i) in
      elim (Bool-cases (c == (s.tokens i).1)) [
        | inr f ↦ rw f (g.0, omega (arith, g.1, length-append p.text (c ∷ [])))
        | inl f ↦ elim (Bool-cases r.1) [
          | inl b ↦ rw (f, b) (g'.0, omega (arith, g'.1))
          | inr b ↦
              let text = (s.tokens i).0 ∷ r.0.text ++ (c ∷ []) in
              let u =
                emit-IsGood r.0 text (suc n) q
                  (rw e (omega (arith, g.1, length-append p.text (c ∷ [])))) g' in
              rw (f, b) (u.0, omega (arith, u.1))
        ]
      ]

  plain_or_open-IsGood :
      (p : Parser Sink) (c n : ℕ) (i : Option ℕ)
      → Keeps
      → IsGood p (suc n)
      → IsGood (plain_or_open s k p c i) n
  unfolding plain_or_open IsGood
  plain_or_open-IsGood p c n (some i) q (g, l) = (g, omega (arith, l))
  plain_or_open-IsGood p c n none q g =
      let (a, l) = emit-IsGood p (c ∷ []) (suc n) q (omega (arith, g.1)) g in (a, omega (arith, l))

  step-IsGood :
      (p : Parser Sink) (st : State) (c n : ℕ)
      → Keeps
      → IsGood p (suc n)
      → IsGood (step s k p st c) n
  unfolding step in_dull IsGood
  step-IsGood p dull c n q g = elim (Bool-cases (not (s.escape == 0) && c == s.escape)) [
    | inl e ↦ rw e (g.0, omega (arith, g.1))
    | inr e ↦ rw e (plain_or_open-IsGood p c n (open_token s c last 0) q g)
  ]
  step-IsGood p esc c n q g =
      let (a, l) = emit-IsGood p (c ∷ []) (suc n) q (omega (arith, g.1)) g in (a, omega (arith, l))
  step-IsGood p (token i) c n q g = in_token-IsGood p i c n q g

  parse_from-Good :
      (p : Parser Sink) (cs : List ℕ)
      → Keeps
      → IsGood p (length cs)
      → Good (parse_from s k p cs).sink
  unfolding parse_from IsGood
  parse_from-Good p [] q g = g.0
  parse_from-Good p (c ∷ cs) q g = elim (Bool-cases ((p.res <ℤ? pos 0) || c == 0)) [
    | inl e ↦ rw e g.0
    | inr e ↦
        rw e (parse_from-Good (step s k p p.state c) cs q (step-IsGood p p.state c (length cs) q g))
  ]

  -- What the callbacks keep of the sink for a text that is at most one longer than the parsed one,
  -- `strsub_parse` keeps.
  pub parse-Good :
      (m : Sink) (text : List ℕ)
      → Keeps
      → 1 + length text ≤ longest
      → Good m
      → Good (parse s k m text).0
  unfolding parse IsGood
  parse-Good m text q l g =
      let start : Parser Sink = record {
        sink = m;
        state = dull;
        offset = 0;
        res = pos 0;
        text = [];
        tokens = 0;
      } in
      let p = parse_from s k start text in
      let b = parse_from-Good start text q (g, omega (arith, l)) in
      elim (Bool-cases (p.res <ℤ? pos 0)) [
        | inl e ↦ rw e b
        | inr e ↦ rw e (q.cb (0 ∷ []) p.offset p.sink (omega (arith, l)) b)
      ]
