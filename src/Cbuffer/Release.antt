-- ===== src/Cbuffer/Release.antt =====
-- What `cbuffer_free` does to the layout of the items and to their headers.
use mathlib.Core.Path.{subst}
use qoraal.Base.{
  ℕ, ◌+◌, ◌-◌, ◌≡◌, ◌≤◌, ◌<◌, ◌⊎◌, inl, inr, refl, sym, ◌∙◌, true, false, List, [], ◌∷◌, ◌++◌, leb,
  ◌==◌, ==_eq, Bool-cases, arith,
}
use qoraal.Cbuffer.{Buffer, Item, Platform, free, free_memory, memset, filled}
use qoraal.Cbuffer.Layout.{
  Block, All-append, Agree, Run, Run-le, Run-closed, memset-Agree, IsRest, Straight, Laid,
}

module _ (platform : Platform) where
  open platform use {header}

  -- The memory outside of the buffer.
  abbrev pub Outside : Buffer → ℕ → Type 0
  Outside b c = (c + header ≤ b.start) ⊎ (b.end ≤ c)

  -- What freeing the oldest item does: the others are laid out as before, their headers stay as they
  -- are, and so does all memory outside of the buffer.
  abbrev pub Frees : Buffer → List Block → (ℕ → Item) → Buffer → (ℕ → Item) → Type 0
  Frees b xs m b' m' =
      Laid platform b' xs
      × Agree m m' xs
      × ((c : ℕ) → Outside b c → m' c ≡ m c)
      × (b'.start ≡ b.start)
      × (b'.end ≡ b.end)

  IsRest-of_nonempty :
      (b : Buffer) (lo : ℕ) (xs : List Block) (hi : ℕ)
      → Run platform lo xs hi
      → (lo == hi) ≡ false
      → IsRest platform b xs
  IsRest-of_nonempty b lo [] hi r e = absurd (ground arith)
  IsRest-of_nonempty b lo (x ∷ xs) hi r e = tt

  -- The last run, once its first item is freed.
  free-Run :
      (b : Buffer) (lo : ℕ) (xs : List Block)
      → Run platform lo xs b.write
      → b.start ≤ lo
      → b.write ≤ b.end
      → Laid platform (free b lo) xs × ((free b lo).start ≡ b.start) × ((free b lo).end ≡ b.end)
  unfolding free
  free-Run b lo xs r s e = elim (Bool-cases (lo == b.write)) [
    | inl f ↦ rw f (
      subst (λ (ys : List Block). Laid platform (record b { read = b.start; write = b.start }) ys)
          (sym (Run-closed platform lo xs b.write r (==_eq lo b.write f)))
          (inl (omega arith, omega (arith, s, e, Run-le platform lo xs b.write r), refl, refl)),
      refl,
      refl,
    )
    | inr f ↦
        rw f
          (inl (s, e, r, IsRest-of_nonempty (record b { read = lo }) lo xs b.write r f), refl, refl)
  ]

  free-Straight :
      (b : Buffer) (a n : ℕ) (xs : List Block) (m : ℕ → Item)
      → Straight platform b ((a, n) ∷ xs)
      → Frees b xs m (free b (a + n)) (free_memory platform b (a + n) m)
  unfolding free_memory
  free-Straight b a n xs m (s, e, r, rest) =
      let le = Run-le platform (b.read + n) xs b.write r.2 in
      let go : leb b.read (a + n) ≡ true = ground arith in
      let r' : Run platform (a + n) xs b.write =
        subst (λ (c : ℕ). Run platform (c + n) xs b.write) (sym r.0) r.2 in
      let (l, s', e') = free-Run b (a + n) xs r' (omega arith) e in
      (
        l,
        rw go (
            memset-Agree platform m (a + n) xs b.write b.read (a + n - b.read) (filled platform) r'
              (inr (omega arith))),
        λ c o. rw go (elim o [ inl h ↦ ground arith | inr h ↦ ground arith ]),
        s',
        e',
      )

  Agree-trans :
      (m m' m'' : ℕ → Item) (xs : List Block) → Agree m m' xs → Agree m' m'' xs → Agree m m'' xs
  Agree-trans m m' m'' [] h k = tt
  Agree-trans m m' m'' (x ∷ xs) h k = (k.0 ∙ h.0, Agree-trans m m' m'' xs h.1 k.1)

  -- The oldest item lies in the older run.
  free_older :
      (b : Buffer) (x : Block) (ys zs : List Block) (top : ℕ) (m : ℕ → Item)
      → Run platform b.read (x ∷ ys) top
      → Run platform b.start zs b.write
      → b.start < b.write
      → b.write < b.read
      → top ≤ b.end
      → Frees b (ys ++ zs) m (free b (x.0 + x.1)) (free_memory platform b (x.0 + x.1) m)
  unfolding free free_memory
  free_older b x ys zs top m (e, h, r) r' l w t =
      let le = Run-le platform (b.read + x.1) ys top r in
      let go : leb b.read (x.0 + x.1) ≡ true = ground arith in
      let no : (x.0 + x.1 == b.write) ≡ false = ground arith in
      let run : Run platform (x.0 + x.1) ys top =
        subst (λ (c : ℕ). Run platform (c + x.1) ys top) (sym e) r in
      rw (go, no)
        (
          inr (ys, zs, top, refl, run, r', l, omega (arith, w, e), t),
          All-append
              (λ y. memset platform m b.read (x.0 + x.1 - b.read) (filled platform) y.0 ≡ m y.0) ys
              zs
              (memset-Agree platform m (x.0 + x.1) ys top b.read (x.0 + x.1 - b.read)
                (filled platform) run (inr (omega (arith, e))))
              (memset-Agree platform m b.start zs b.write b.read (x.0 + x.1 - b.read)
                (filled platform) r' (inl (omega arith))),
          λ c o. elim o [ inl q ↦ ground arith | inr q ↦ ground arith ],
          refl,
          refl,
        )

  -- The older run is used up, and the oldest item is at the start.
  free_newer :
      (b : Buffer) (x : Block) (zs : List Block) (m : ℕ → Item)
      → Run platform b.start (x ∷ zs) b.write
      → b.write < b.read
      → b.read ≤ b.end
      → Frees b zs m (free b (x.0 + x.1)) (free_memory platform b (x.0 + x.1) m)
  unfolding free_memory
  free_newer b x zs m (e, h, r) w t =
      let le = Run-le platform (b.start + x.1) zs b.write r in
      let go : leb b.read (x.0 + x.1) ≡ false = ground arith in
      let run : Run platform (x.0 + x.1) zs b.write =
        subst (λ (c : ℕ). Run platform (c + x.1) zs b.write) (sym e) r in
      let (l, s', e') = free-Run b (x.0 + x.1) zs run (omega arith) (omega arith) in
      let m1 = memset platform m b.write (b.end - b.write) (filled platform) in
      (
        l,
        rw go (
            Agree-trans m m1 (memset platform m1 b.start (x.0 + x.1 - b.start) (filled platform)) zs
              (memset-Agree platform m (x.0 + x.1) zs b.write b.write (b.end - b.write)
                (filled platform) run (inl (omega arith)))
              (memset-Agree platform m1 (x.0 + x.1) zs b.write b.start (x.0 + x.1 - b.start)
                (filled platform) run (inr (omega (arith, e))))),
        λ c o. rw go (elim o [ inl q ↦ ground arith | inr q ↦ ground arith ]),
        s',
        e',
      )

  free-Wrapped :
      (b : Buffer) (x : Block) (xs : List Block) (ys zs : List Block) (top : ℕ) (m : ℕ → Item)
      → x ∷ xs ≡ ys ++ zs
      → Run platform b.read ys top
      → Run platform b.start zs b.write
      → b.start < b.write
      → b.write < b.read
      → top ≤ b.end
      → Frees b xs m (free b (x.0 + x.1)) (free_memory platform b (x.0 + x.1) m)
  free-Wrapped b x xs [] [] top m p r r' l w t = absurd (omega arith)
  free-Wrapped b x xs [] (z ∷ zs) top m p r r' l w t =
      let (e, q) : (x ≡ z) × (xs ≡ zs) = (cc, cc) in
      subst
        (λ (us : List Block).
          Frees b us m (free b (x.0 + x.1)) (free_memory platform b (x.0 + x.1) m))
        (sym q)
        (free_newer b x zs m
          (subst (λ (u : Block). Run platform b.start (u ∷ zs) b.write) (sym e) r') w (omega arith))
  free-Wrapped b x xs (y ∷ ys) zs top m p r r' l w t =
      let e : x ≡ y = cc in
      let q : xs ≡ ys ++ zs = cc in
      subst
        (λ (us : List Block).
          Frees b us m (free b (x.0 + x.1)) (free_memory platform b (x.0 + x.1) m))
        (sym q)
        (free_older b x ys zs top m
          (subst (λ (u : Block). Run platform b.read (u ∷ ys) top) (sym e) r) r' l w t)

  -- `cbuffer_free` up to the end of the oldest item frees it.
  pub free-Frees :
      (b : Buffer) (x : Block) (xs : List Block) (m : ℕ → Item)
      → Laid platform b (x ∷ xs)
      → Frees b xs m (free b (x.0 + x.1)) (free_memory platform b (x.0 + x.1) m)
  free-Frees b x xs m (inl h) = free-Straight b x.0 x.1 xs m h
  free-Frees b x xs m (inr (ys, zs, top, p, r, r', l, w, t)) =
      free-Wrapped b x xs ys zs top m p r r' l w t
