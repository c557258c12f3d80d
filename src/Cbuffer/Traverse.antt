-- ===== src/Cbuffer/Traverse.antt =====
-- The two ways through the items of a queue of src/common/cbuffer.c, as lists of what they meet.
use qoraal.Base.{
  ℕ, ◌≡◌, refl, true, false, Option, none, some, List, [], ◌∷◌, ◌==◌, if◌then◌else◌, has, has-ne,
  length, ◌+◌, arith, ◌||◌,
}
use qoraal.Cbuffer.{Queue, Platform, cbuffer_magic, front, back, forwards, backwards}
use qoraal.Cbuffer.Layout.{Block}
use qoraal.Cbuffer.Ring.{addresses, Chain, has-prev}
use qoraal.Cbuffer.Refine.{IsQueue}

-- From `i` on, `next` leads through these items and ends.
abbrev pub Leads : (next : ℕ → Option ℕ) → Option ℕ → List ℕ → Type 0
Leads next i [] = i ≡ none
Leads next i (x ∷ xs) = (i ≡ some x) × Leads next (next x) xs

-- The items in the other order, before others
abbrev pub turned : List ℕ → List ℕ → List ℕ
turned [] ys = ys
turned (x ∷ xs) ys = turned xs (x ∷ ys)

pub length-turned : (xs ys : List ℕ) → length (turned xs ys) ≡ length xs + length ys
length-turned [] ys = omega arith
length-turned (x ∷ xs) ys = omega (arith, length-turned xs (x ∷ ys))

pub has-turned : (a : ℕ) (xs ys : List ℕ) → has a (turned xs ys) ≡ (has a xs || has a ys)
has-turned a [] ys = refl
has-turned a (x ∷ xs) ys = ground (arith, has-turned a xs (x ∷ ys))

-- An address of the ring: an item, or none for the queue itself
abbrev at : Queue → ℕ → Option ℕ
at q a = if a == q.self then none else some a

forwards-at : (q : Queue) (a : ℕ) → forwards q a ≡ at q (q.items a).next
unfolding forwards
forwards-at q a = refl

backwards-at : (q : Queue) (a : ℕ) → backwards q a ≡ at q (q.items a).prev
unfolding backwards
backwards-at q a = refl

forwards_from :
    (q : Queue) (p : ℕ) (xs : List Block)
    → Chain q.items p xs q.self
    → has q.self (addresses xs) ≡ false
    → Leads (forwards q) (forwards q p) (addresses xs)
forwards_from q p [] c n = rw (forwards-at q p) (ground arith)
forwards_from q p (x ∷ xs) c n =
    (rw (forwards-at q p) (ground arith), forwards_from q x.0 xs c.2 (ground arith))

backwards_from :
    (q : Queue) (p : ℕ) (xs : List Block) (r : ℕ) (ys : List ℕ)
    → Chain q.items p xs r
    → has q.self (addresses xs) ≡ false
    → Leads (backwards q) (at q p) ys
    → Leads (backwards q) (backwards q r) (turned (addresses xs) ys)
backwards_from q p [] r ys c n l = rw (backwards-at q r, c.1) l
backwards_from q p (x ∷ xs) r ys c n l =
    backwards_from q x.0 xs r (x.0 ∷ ys) c.2 (ground arith)
      (ground arith, rw (backwards-at q x.0, c.1) l)

module _ (platform : Platform) where
  -- From `cqueue_back` on, `cqueue_forwards` leads through the items, oldest first.
  pub forwards-Leads :
      (q : Queue) (xs : List Block)
      → IsQueue platform q xs
      → Leads (forwards q) (back q) (addresses xs)
  unfolding back
  forwards-Leads q [] v = ground (arith, v.marked, v.ring)
  forwards-Leads q (x ∷ xs) v = (
    ground (arith, v.marked, v.ring, v.distinct.0),
    forwards_from q x.0 xs v.ring.2 (ground (arith, v.distinct.0)),
  )

  front-backwards :
      (q : Queue) (xs : List Block) → IsQueue platform q xs → front q ≡ backwards q q.self
  unfolding front backwards
  front-backwards q [] v = ground (arith, v.marked, v.ring)
  front-backwards q (x ∷ xs) v =
      let m : ((q.items q.self).magic == cbuffer_magic) ≡ true = ground (arith, v.marked) in
      let e : ((q.items q.self).next == q.self) ≡ false = ground (arith, v.ring, v.distinct.0) in
      let o : ((q.items q.self).prev == q.self) ≡ false =
        has-ne (q.items q.self).prev q.self (x.0 ∷ addresses xs)
          (has-prev q.items x.0 xs q.self v.ring.2) v.distinct.0 in
      rw (m, e, o) refl

  -- From `cqueue_front` on, `cqueue_backwards` leads through the items, newest first.
  pub backwards-Leads :
      (q : Queue) (xs : List Block)
      → IsQueue platform q xs
      → Leads (backwards q) (front q) (turned (addresses xs) [])
  backwards-Leads q xs v =
      rw (front-backwards q xs v)
        (backwards_from q q.self xs q.self [] v.ring v.distinct.0 (ground arith))
