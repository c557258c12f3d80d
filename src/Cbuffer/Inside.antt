-- ===== src/Cbuffer/Inside.antt =====
-- The items of a laid out queue of src/common/cbuffer.c lie in its buffer, which bounds their number.
use qoraal.Base.{ℕ, ◌+◌, ◌-◌, ◌≤◌, inl, inr, List, [], ◌∷◌, length, length-append, arith}
use qoraal.Cbuffer.{Buffer, Platform}
use qoraal.Cbuffer.Layout.{Block, All, All-append, Run, Run-le, Laid}
use qoraal.Cbuffer.Refine.{All-each}

module _ (platform : Platform) where
  open platform use {header}

  -- The words of a block are from `lo` to `hi`.
  abbrev pub IsInside : (lo hi : ℕ) → Block → Type 0
  IsInside lo hi x = (lo ≤ x.0) × (x.0 + x.1 ≤ hi) × (header ≤ x.1)

  Run-IsInside :
      (lo : ℕ) (xs : List Block) (hi : ℕ) → Run platform lo xs hi → All (IsInside lo hi) xs
  Run-IsInside lo [] hi r = tt
  Run-IsInside lo (x ∷ xs) hi r = (
    (omega (arith, r.0), omega (arith, r.0, Run-le platform (lo + x.1) xs hi r.2), r.1),
    All-each (IsInside (lo + x.1) hi) (IsInside lo hi) xs
        (λ y m (l, h, n). (omega (arith, l), h, n)) (Run-IsInside (lo + x.1) xs hi r.2),
  )

  widen :
      (lo hi lo' hi' : ℕ) (xs : List Block)
      → lo' ≤ lo
      → hi ≤ hi'
      → All (IsInside lo hi) xs
      → All (IsInside lo' hi') xs
  widen lo hi lo' hi' xs l h =
      All-each (IsInside lo hi) (IsInside lo' hi') xs
        (λ y m (p, e, n). (omega (arith, l, p), omega (arith, h, e), n))

  length-Run : (lo : ℕ) (xs : List Block) (hi : ℕ) → Run platform lo xs hi → lo + length xs ≤ hi
  length-Run lo [] hi r = omega arith
  length-Run lo (x ∷ xs) hi r =
      omega (arith, r.1, platform.header_pos, length-Run (lo + x.1) xs hi r.2)

  -- The items lie in the buffer, and the two pointers as well; there are not more items than words.
  pub Laid-IsInside :
      (b : Buffer) (xs : List Block)
      → Laid platform b xs
      → All (IsInside b.start b.end) xs
        × (length xs ≤ b.end - b.start)
        × (b.start ≤ b.read)
        × (b.read ≤ b.end)
        × (b.start ≤ b.write)
        × (b.write ≤ b.end)
  Laid-IsInside b xs (inl (s, e, r, rest)) =
      let le = Run-le platform b.read xs b.write r in
      (
        widen b.read b.write b.start b.end xs s e (Run-IsInside b.read xs b.write r),
        omega (arith, length-Run b.read xs b.write r),
        s,
        omega arith,
        omega arith,
        e,
      )
  Laid-IsInside b xs (inr (ys, zs, top, p, r, r', l, w, t)) =
      let le = Run-le platform b.read ys top r in
      rw p (
        All-append (IsInside b.start b.end) ys zs
            (widen b.read top b.start b.end ys (omega arith) t (Run-IsInside b.read ys top r))
            (widen b.start b.write b.start b.end zs (omega arith) (omega arith)
              (Run-IsInside b.start zs b.write r')),
        omega (
          arith,
          length-append ys zs,
          length-Run b.read ys top r,
          length-Run b.start zs b.write r',
        ),
        omega arith,
        omega arith,
        omega arith,
        omega arith,
      )
