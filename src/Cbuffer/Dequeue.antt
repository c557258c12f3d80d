-- ===== src/Cbuffer/Dequeue.antt =====
-- `cqueue_dequeue` of src/common/cbuffer.c takes the oldest item off the queue.
use mathlib.Core.Path.{subst}
use qoraal.Base.{
  ℕ, ◌+◌, ◌-◌, ◌%◌, ◌^◌, ◌≡◌, ◌⊎◌, inl, inr, refl, sym, ap, ◌∙◌, true, false, List, [], ◌∷◌, ◌==◌,
  ==_eq, ==_refl, if◌then◌else◌, Bool-cases, has-ne, arith,
}
use qoraal.Cbuffer.{Item, Queue, Platform, cbuffer_magic, put, free, free_memory, unlink, dequeue}
use qoraal.Cbuffer.Layout.{Block, All}
use qoraal.Cbuffer.Release.{Frees, free-Frees}
use qoraal.Cbuffer.Ring.{addresses, Chain-tail}
use qoraal.Cbuffer.Refine.{All-each, All-both, HasHeader, IsQueue}

-- A write of one link, seen from any header.
next_at :
    (m : ℕ → Item) (s k u : ℕ)
    → let m' = put m s (record (m s) { next = k }) in
      ((m' u).next ≡ (if u == s then k else (m u).next))
      × ((m' u).prev ≡ (m u).prev)
      × ((m' u).dwsize ≡ (m u).dwsize)
      × ((m' u).magic ≡ (m u).magic)
next_at m s k u = elim (Bool-cases (u == s)) [
  | inl e ↦
      let p = ap m (sym (==_eq u s e)) in
      rw e (
        refl,
        ap (λ (i : Item). i.prev) p,
        ap (λ (i : Item). i.dwsize) p,
        ap (λ (i : Item). i.magic) p,
      )
  | inr e ↦ rw e (refl, refl, refl, refl)
]

prev_at :
    (m : ℕ → Item) (s k u : ℕ)
    → let m' = put m s (record (m s) { prev = k }) in
      ((m' u).next ≡ (m u).next)
      × ((m' u).prev ≡ (if u == s then k else (m u).prev))
      × ((m' u).dwsize ≡ (m u).dwsize)
      × ((m' u).magic ≡ (m u).magic)
prev_at m s k u = elim (Bool-cases (u == s)) [
  | inl e ↦
      let p = ap m (sym (==_eq u s e)) in
      rw e (
        ap (λ (i : Item). i.next) p,
        refl,
        ap (λ (i : Item). i.dwsize) p,
        ap (λ (i : Item). i.magic) p,
      )
  | inr e ↦ rw e (refl, refl, refl, refl)
]

module _ (platform : Platform) where
  open platform use {header}

  module _ (q : Queue) (x : Block) (xs : List Block) (v : IsQueue platform q (x ∷ xs)) where
    -- The memory behind the writes of `cqueue_dequeue`: first the links, then the magic.
    abbrev relinked : ℕ → Item
    relinked =
        let m1 = put q.items q.self (record (q.items q.self) { next = (q.items x.0).next }) in
        put m1 (q.items x.0).next (record (m1 (q.items x.0).next) { prev = q.self })

    abbrev after : ℕ → Item
    after = put relinked x.0 (record (relinked x.0) { magic = 0 })

    unlinked : ℕ → Queue
    unlinked n = record q {
      items = free_memory platform q.cb (x.0 + n) after;
      cb = free q.cb (x.0 + n);
      count = (q.count + 2 ^ 16 - 1) % 2 ^ 16;
    }

    -- A header behind the two writes of links.
    relinked_at :
        (u : ℕ)
        → ((relinked u).next ≡ (if u == q.self then (q.items x.0).next else (q.items u).next))
          × ((relinked u).prev ≡ (if u == (q.items x.0).next then q.self else (q.items u).prev))
          × ((relinked u).dwsize ≡ (q.items u).dwsize)
          × ((relinked u).magic ≡ (q.items u).magic)
    relinked_at u =
        let m1 = put q.items q.self (record (q.items q.self) { next = (q.items x.0).next }) in
        let (a, b, c, d) = next_at q.items q.self (q.items x.0).next u in
        let (e, f, g, h) = prev_at m1 (q.items x.0).next q.self u in
        (e ∙ a, f ∙ ap (λ (z : ℕ). if u == (q.items x.0).next then q.self else z) b, g ∙ c, h ∙ d)

    unlink-unlinked : unlink platform q x.0 ≡ unlinked x.1
    unfolding unlink unlinked
    unlink-unlinked = ap unlinked ((relinked_at x.0).2 ∙ v.headers.0.1)

    frees :
        Frees platform q.cb xs after
          (free q.cb (x.0 + x.1))
          (free_memory platform q.cb (x.0 + x.1) after)
    frees = free-Frees platform q.cb x xs after v.laid

    other : (q.self == x.0) ≡ false
    other = ground (arith, v.distinct.0)

    -- The memory at the end is the same at the queue, and at the other items.
    end_self : (unlinked x.1).items q.self ≡ relinked q.self
    unfolding unlinked
    end_self = frees.2 q.self v.outside ∙ rw other refl

    end_old : All (λ y. (unlinked x.1).items y.0 ≡ relinked y.0) xs
    unfolding unlinked
    end_old =
        All-each _ _ xs (λ y m h. h ∙ rw (has-ne y.0 x.0 (addresses xs) m v.distinct.1.0) refl)
          frees.1

    unlinked-IsQueue : IsQueue platform (unlinked x.1) xs
    unfolding unlinked
    unlinked-IsQueue =
        let (a, b, c, d) = relinked_at q.self in
        record {
          marked = ap (λ (i : Item). i.magic) end_self ∙ d ∙ v.marked;
          ring =
              Chain-tail q.items (unlinked x.1).items x.0 xs q.self v.ring.2
                (ap (λ (i : Item). i.next) end_self ∙ a ∙ rw (==_refl q.self) refl)
                (ap (λ (i : Item). i.prev) end_self ∙ b) (ground (arith, v.distinct.0))
                v.distinct.1.1
                (All-each _ _ xs
                  (λ y m h.
                    let (a', b', c', d') = relinked_at y.0 in
                    (
                      ap (λ (i : Item). i.next) h
                          ∙ a'
                          ∙ rw (has-ne y.0 q.self (addresses xs) m (ground (arith, v.distinct.0)))
                              refl,
                      ap (λ (i : Item). i.prev) h ∙ b',
                    ))
                  end_old);
          headers =
              All-each _ _ xs
                (λ y m (h, w).
                  let (a', b', c', d') = relinked_at y.0 in
                  (
                    w.0,
                    ap (λ (i : Item). i.dwsize) h ∙ c' ∙ w.1,
                    ap (λ (i : Item). i.magic) h ∙ d' ∙ w.2,
                  ))
                (All-both _ (HasHeader platform q.items) xs end_old v.headers.1);
          distinct = (ground (arith, v.distinct.0), v.distinct.1.1);
          laid = frees.0;
          outside = elim v.outside [
            | inl o ↦ inl (omega (arith, frees.3))
            | inr o ↦ inr (omega (arith, frees.4))
          ];
          size = omega (arith, frees.3, frees.4, v.size);
          counted = omega (arith, v.counted);
        }

  -- `cqueue_dequeue` returns the size of the oldest item, takes it off and leaves the others as they
  -- are; on an empty queue it returns 0 and changes nothing.
  pub dequeue-IsQueue :
      (q : Queue) (xs : List Block)
      → IsQueue platform q xs
      → ((xs ≡ []) × (dequeue platform q ≡ (q, 0)))
        ⊎ ((x : Block) × (ys : List Block) × (xs ≡ x ∷ ys)
            × ((dequeue platform q).1 ≡ x.1)
            × IsQueue platform (dequeue platform q).0 ys)
  unfolding dequeue
  dequeue-IsQueue q [] v =
      let m : ((q.items q.self).magic == cbuffer_magic) ≡ true = ground (arith, v.marked) in
      let e : ((q.items q.self).next == q.self) ≡ true = ground (arith, v.ring) in
      inl (refl, rw (m, e) refl)
  dequeue-IsQueue q (x ∷ xs) v =
      let m : ((q.items q.self).magic == cbuffer_magic) ≡ true = ground (arith, v.marked) in
      let e : ((q.items q.self).next == q.self) ≡ false = ground (arith, v.ring.0, v.distinct.0) in
      let n = v.ring.0 in
      inr (
        x,
        xs,
        refl,
        rw (m, e, n) v.headers.0.1,
        rw (m, e, n)
            (subst (λ (r : Queue). IsQueue platform r xs) (sym (unlink-unlinked q x xs v))
              (unlinked-IsQueue q x xs v)),
      )
