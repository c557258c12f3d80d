-- ===== src/Mlog/Append.antt =====
-- A message makes room for itself in the log of src/common/mlog.c.
use qoraal.Base.{
  ℕ, zero, suc, ◌+◌, ◌≤◌, ◌<◌, ◌≡◌, inl, inr, refl, sym, ap, ◌∙◌, false, Option, none, some, List,
  [], ◌∷◌, ◌++◌, ◌⊎◌, ◌==◌, Bool-cases, length, arith,
}
use mathlib.Core.Path.{subst}
use qoraal.Tasks.{word}
use qoraal.Cbuffer.{Buffer, Queue, Platform, cbuffer_magic, enqueue, dequeue, unlink, free}
use qoraal.Cbuffer.Layout.{Block}
use qoraal.Cbuffer.Refine.{IsQueue, Enqueues, enqueue-Enqueues}
use qoraal.Cbuffer.Dequeue.{dequeue-IsQueue}
use qoraal.Mlog.{evict, reserve}

module _ (platform : Platform) where
  open platform use {header}

  free_bounds :
      (b : Buffer) (read : ℕ) → ((free b read).start ≡ b.start) × ((free b read).end ≡ b.end)
  unfolding free
  free_bounds b read = elim (Bool-cases (read == b.write)) [
    | inl e ↦ rw e (refl, refl)
    | inr e ↦ rw e (refl, refl)
  ]

  unlink_bounds :
      (q : Queue) (item : ℕ)
      → ((unlink platform q item).cb.start ≡ q.cb.start)
        × ((unlink platform q item).cb.end ≡ q.cb.end)
  unfolding unlink
  unlink_bounds q item = free_bounds q.cb _

  dequeue_bounds :
      (q : Queue)
      → ((dequeue platform q).0.cb.start ≡ q.cb.start) × ((dequeue platform q).0.cb.end ≡ q.cb.end)
  unfolding dequeue
  dequeue_bounds q = elim (Bool-cases ((q.items q.self).magic == cbuffer_magic)) [
    | inr e ↦ simp e (refl, refl)
    | inl e ↦ elim (Bool-cases ((q.items q.self).next == q.self)) [
      | inl f ↦ simp (e, f) (refl, refl)
      | inr f ↦ simp (e, f) (unlink_bounds q (q.items q.self).next)
    ]
  ]

  -- The messages that make room are the oldest, at most so many, and the new item stands behind the
  -- others; or there is no item, and then the queue had more items than tries, or the buffer is too
  -- small.
  abbrev pub Reserves : (tries : ℕ) → Queue → List Block → ℕ → Queue × Option ℕ → Type 0
  Reserves tries q xs n (q', some a) =
      (ds : List Block) × (ys : List Block) × (xs ≡ ds ++ ys)
      × (length ds ≤ tries)
      × IsQueue platform q' (ys ++ ((a, n) ∷ []))
  Reserves tries q xs n (q', none) =
      (ds : List Block) × (ys : List Block) × (xs ≡ ds ++ ys)
      × (length ds ≤ suc tries)
      × IsQueue platform q' ys
      × ((tries < length xs) ⊎ (q.cb.end < q.cb.start + n))

  Reserves-Later :
      (k : ℕ) (q q' : Queue) (xs : List Block) (x : Block) (ys : List Block) (n : ℕ)
      → (r : Queue × Option ℕ) → xs ≡ x ∷ ys
      → (q'.cb.start ≡ q.cb.start) × (q'.cb.end ≡ q.cb.end)
      → Reserves k q' ys n r
      → Reserves (suc k) q xs n r
  Reserves-Later k q q' xs x ys n (p, some a) e b (ds, zs, c, l, v) =
      (x ∷ ds, zs, e ∙ ap (λ (t : List Block). x ∷ t) c, omega (arith, l), v)
  Reserves-Later k q q' xs x ys n (p, none) e b (ds, zs, c, l, v, f) = (
    x ∷ ds,
    zs,
    e ∙ ap (λ (t : List Block). x ∷ t) c,
    omega (arith, l),
    v,
    elim f [ inl g ↦ inl (rw e (omega (arith, g))) | inr g ↦ inr (omega (arith, g, b.0, b.1)) ],
  )

  size_nonzero :
      (q : Queue) (xs : List Block) (x : Block) (ys : List Block)
      → IsQueue platform q xs
      → xs ≡ x ∷ ys
      → (dequeue platform q).1 ≡ x.1
      → ((dequeue platform q).1 == 0) ≡ false
  size_nonzero q xs x ys v e n =
      let w = subst (λ (t : List Block). IsQueue platform q t) e v in
      rw n (ground (arith, w.headers.0.0, platform.header_pos))

  -- A try that found no room, behind which the queue `q` is as it was.
  evict-Reserves :
      (k len : ℕ) (q q1 : Queue) (xs : List Block) (r : Option ℕ)
      → IsQueue platform q xs
      → len + header < word
      → Enqueues platform q xs (len + header) (q1, r)
      → Reserves k q xs (len + header) (evict platform k len q1 r)
  unfolding evict
  evict-Reserves k len q q1 xs (some a) v h e = ([], xs, refl, omega arith, e.0)
  evict-Reserves zero len q q1 xs none v h (e, f) =
      subst (λ (p : Queue). Reserves zero q xs (len + header) (evict platform zero len p none))
        (sym e)
        (elim (dequeue-IsQueue platform q xs v) [
          | inl g ↦ rw g.1 ([], xs, refl, omega arith, v, inr (f g.0))
          | inr (x, ys, c, n, v') ↦ (x ∷ [], ys, c, omega arith, v', inl (rw c (omega arith)))
        ])
  evict-Reserves (suc k) len q q1 xs none v h (e, f) =
      subst
        (λ (p : Queue). Reserves (suc k) q xs (len + header) (evict platform (suc k) len p none))
        (sym e)
        (elim (dequeue-IsQueue platform q xs v) [
          | inl g ↦ rw g.1 ([], xs, refl, omega arith, v, inr (f g.0))
          | inr (x, ys, c, n, v') ↦
              let q' = (dequeue platform q).0 in
              let r = enqueue platform q' len in
              let z : ((dequeue platform q).1 == 0) ≡ false = size_nonzero q xs x ys v c n in
              rw z (
                Reserves-Later k q q' xs x ys (len + header) (evict platform k len r.0 r.1) c
                  (dequeue_bounds q)
                  (evict-Reserves k len q' r.0 ys r.1 v' h
                    (enqueue-Enqueues platform q' ys len v' h)))
        ])

  -- `_append` gets a place for its message, unless the log has more than ten messages or the buffer
  -- is too small for it: it takes off some of the oldest messages, at most ten, keeps the others, and
  -- puts the new item behind them. Where it gets none, it has taken off some of the oldest, at most
  -- eleven, and the log has more than ten messages or the buffer is too small. This holds of a
  -- well-formed queue and a length below 2 ^ 32 with the header of an item.
  pub reserve-Reserves :
      (q : Queue) (xs : List Block) (len : ℕ)
      → IsQueue platform q xs
      → len + header < word
      → Reserves 10 q xs (len + header) (reserve platform q len)
  unfolding reserve
  reserve-Reserves q xs len v h =
      let r = enqueue platform q len in
      evict-Reserves 10 len q r.0 xs r.1 v h (enqueue-Enqueues platform q xs len v h)
