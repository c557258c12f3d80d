-- ===== src/Cbuffer/Layout.antt =====
-- Where the items of a queue lie in its buffer: in one run from the read pointer to the write
-- pointer, or in two, the older one below the end and the newer one from the start.
use qoraal.Base.{
  ℕ, ◌+◌, ◌-◌, ◌≡◌, ◌≤◌, ◌<◌, ◌⊎◌, inl, inr, refl, sym, ◌∙◌, true, false, Option, none, some, List,
  [], ◌∷◌, ◌++◌, ltb, leb, Bool-cases, arith,
}
use mathlib.Core.List.{append_assoc}
use qoraal.Cbuffer.{Buffer, Item, Platform, alloc, memset}

-- An item, by its address and its size
abbrev pub Block : Type 0
Block = ℕ × ℕ

-- Every one of the items
abbrev pub All : (Block → Type 0) → List Block → Type 0
All P [] = Unit {0}
All P (x ∷ xs) = P x × All P xs

pub All-append : (P : Block → Type 0) (xs ys : List Block) → All P xs → All P ys → All P (xs ++ ys)
All-append P [] ys h k = k
All-append P (x ∷ xs) ys h k = (h.0, All-append P xs ys h.1 k)

-- Two memories have the same headers for these items.
abbrev pub Agree : (ℕ → Item) → (ℕ → Item) → List Block → Type 0
Agree m m' xs = All (λ x. m' x.0 ≡ m x.0) xs

-- The item shares no word with the `n` words from `p` on.
abbrev pub IsApart : (p n : ℕ) → Block → Type 0
IsApart p n x = (x.0 + x.1 ≤ p) ⊎ (p + n ≤ x.0)

module _ (platform : Platform) where
  open platform use {header}

  -- The items lie one behind the other from `lo` to `hi`, each with room for its header.
  abbrev pub Run : ℕ → List Block → ℕ → Type 0
  Run lo [] hi = lo ≡ hi
  Run lo (x ∷ xs) hi = (x.0 ≡ lo) × (header ≤ x.1) × Run (lo + x.1) xs hi

  pub Run-le : (lo : ℕ) (xs : List Block) (hi : ℕ) → Run lo xs hi → lo ≤ hi
  Run-le lo [] hi r = omega arith
  Run-le lo (x ∷ xs) hi r = omega (arith, Run-le (lo + x.1) xs hi r.2)

  -- A run from a place to itself is empty.
  pub Run-closed : (lo : ℕ) (xs : List Block) (hi : ℕ) → Run lo xs hi → lo ≡ hi → xs ≡ []
  Run-closed lo [] hi r e = refl
  Run-closed lo (x ∷ xs) hi r e =
      absurd (omega (arith, Run-le (lo + x.1) xs hi r.2, platform.header_pos))

  pub Run-append_one :
      (lo : ℕ) (xs : List Block) (hi n : ℕ)
      → Run lo xs hi
      → header ≤ n
      → Run lo (xs ++ ((hi, n) ∷ [])) (hi + n)
  Run-append_one lo [] hi n r h = (sym r, h, omega arith)
  Run-append_one lo (x ∷ xs) hi n r h = (r.0, r.1, Run-append_one (lo + x.1) xs hi n r.2 h)

  -- A run outside of some words is apart from them.
  pub Run-IsApart :
      (lo : ℕ) (xs : List Block) (hi p n : ℕ)
      → Run lo xs hi
      → (hi ≤ p) ⊎ (p + n ≤ lo)
      → All (IsApart p n) xs
  Run-IsApart lo [] hi p n r c = tt
  Run-IsApart lo (x ∷ xs) hi p n r c = (
    elim c [ inl h ↦ inl (omega (arith, Run-le (lo + x.1) xs hi r.2)) | inr h ↦ inr (omega arith) ],
    Run-IsApart (lo + x.1) xs hi p n r.2 (elim c [ inl h ↦ inl h | inr h ↦ inr (omega arith) ]),
  )

  -- `memset` does not change the headers of a run outside of its words.
  pub memset-Agree :
      (m : ℕ → Item) (lo : ℕ) (xs : List Block) (hi p n : ℕ) (v : Item)
      → Run lo xs hi
      → (hi ≤ p) ⊎ (p + n ≤ lo)
      → Agree m (memset platform m p n v) xs
  memset-Agree m lo [] hi p n v r c = tt
  memset-Agree m lo (x ∷ xs) hi p n v r c = (
    ground (arith, Run-le (lo + x.1) xs hi r.2),
    memset-Agree m (lo + x.1) xs hi p n v r.2
        (elim c [ inl h ↦ inl h | inr h ↦ inr (omega arith) ]),
  )

  -- An empty queue begins at the start of the buffer.
  abbrev pub IsRest : Buffer → List Block → Type 0
  IsRest b [] = b.read ≡ b.start
  IsRest b (x ∷ xs) = Unit {0}

  abbrev pub Straight : Buffer → List Block → Type 0
  Straight b xs = (b.start ≤ b.read) × (b.write ≤ b.end) × Run b.read xs b.write × IsRest b xs

  abbrev pub Wrapped : Buffer → List Block → Type 0
  Wrapped b xs =
      (ys : List Block) × (zs : List Block) × (top : ℕ) × (xs ≡ ys ++ zs)
      × Run b.read ys top
      × Run b.start zs b.write
      × (b.start < b.write)
      × (b.write < b.read)
      × (top ≤ b.end)

  -- The layout of the items, oldest first.
  abbrev pub Laid : Buffer → List Block → Type 0
  Laid b xs = Straight b xs ⊎ Wrapped b xs

  -- What an allocation of `n` words does: it gives words of the buffer that no item has, behind the
  -- newest item; it fails and changes nothing, and not while an empty buffer has as many words.
  abbrev pub Allocates : Buffer → List Block → ℕ → Buffer × Option ℕ → Type 0
  Allocates b xs n (b', none) = (b' ≡ b) × (xs ≡ [] → b.end < b.start + n)
  Allocates b xs n (b', some a) =
      Laid b' (xs ++ ((a, n) ∷ []))
      × (b.start ≤ a)
      × (a + n ≤ b.end)
      × All (IsApart a n) xs
      × (b'.start ≡ b.start)
      × (b'.end ≡ b.end)

  IsRest-append : (b : Buffer) (xs : List Block) (x : Block) → IsRest b (xs ++ (x ∷ []))
  IsRest-append b [] x = tt
  IsRest-append b (y ∷ xs) x = tt

  Straight-empty :
      (b : Buffer) (xs : List Block)
      → Straight b xs
      → xs ≡ []
      → (b.read ≡ b.start) × (b.read ≡ b.write)
  Straight-empty b [] (s, e, r, rest) p = (rest, r)
  Straight-empty b (x ∷ xs) h p = absurd (ground arith)

  alloc-Straight :
      (b : Buffer) (xs : List Block) (n : ℕ)
      → Straight b xs
      → header ≤ n
      → Allocates b xs n (alloc b n)
  unfolding alloc
  alloc-Straight b xs n (s, e, r, rest) h =
      let le = Run-le b.read xs b.write r in
      let go : leb b.read b.write ≡ true = ground arith in
      elim (Bool-cases (leb n (b.end - b.write))) [
        | inl f ↦
            rw (go, f)
              (
                inl (
                  s,
                  ground arith,
                  Run-append_one b.read xs b.write n r h,
                  IsRest-append (record b { write = b.write + n }) xs (b.write, n),
                ),
                omega arith,
                ground arith,
                Run-IsApart b.read xs b.write b.write n r (inl (omega arith)),
                refl,
                refl,
              )
        | inr f ↦ elim (Bool-cases (ltb n (b.read - b.start))) [
          | inl g ↦
              rw (go, f, g)
                (
                  inr (
                    xs,
                    (b.start, n) ∷ [],
                    b.write,
                    refl,
                    r,
                    (refl, h, refl),
                    omega (arith, platform.header_pos),
                    ground arith,
                    e,
                  ),
                  omega arith,
                  ground arith,
                  Run-IsApart b.read xs b.write b.start n r (inr (ground arith)),
                  refl,
                  refl,
                )
          | inr g ↦ rw (go, f, g) (refl, λ p. ground (arith, Straight-empty b xs (s, e, r, rest) p))
        ]
      ]

  append-nonempty :
      (lo : ℕ) (ys zs : List Block) (hi : ℕ) → Run lo zs hi → lo < hi → ys ++ zs ≡ [] → ⊥
  append-nonempty lo [] [] hi r l e = omega arith
  append-nonempty lo [] (z ∷ zs) hi r l e = ground arith
  append-nonempty lo (y ∷ ys) zs hi r l e = ground arith

  alloc-Wrapped :
      (b : Buffer) (xs : List Block) (n : ℕ)
      → Wrapped b xs
      → header ≤ n
      → Allocates b xs n (alloc b n)
  unfolding alloc
  alloc-Wrapped b xs n (ys, zs, top, p, r, r', l, w, t) h =
      let le = Run-le b.read ys top r in
      let go : leb b.read b.write ≡ false = ground arith in
      elim (Bool-cases (ltb n (b.read - b.write))) [
        | inl f ↦
            rw (go, f)
              (
                inr (
                  ys,
                  zs ++ ((b.write, n) ∷ []),
                  top,
                  rw p (append_assoc ys zs ((b.write, n) ∷ [])),
                  r,
                  Run-append_one b.start zs b.write n r' h,
                  omega arith,
                  ground arith,
                  t,
                ),
                omega arith,
                ground arith,
                rw p (
                    All-append (IsApart b.write n) ys zs
                      (Run-IsApart b.read ys top b.write n r (inr (ground arith)))
                      (Run-IsApart b.start zs b.write b.write n r' (inl (omega arith)))),
                refl,
                refl,
              )
        | inr f ↦
            rw (go, f) (refl, λ q. absurd (append-nonempty b.start ys zs b.write r' l (sym p ∙ q)))
      ]

  -- `cbuffer_alloc` allocates.
  pub alloc-Allocates :
      (b : Buffer) (xs : List Block) (n : ℕ) → Laid b xs → header ≤ n → Allocates b xs n (alloc b n)
  alloc-Allocates b xs n (inl h) = alloc-Straight b xs n h
  alloc-Allocates b xs n (inr h) = alloc-Wrapped b xs n h
