-- ===== src/Cbuffer/Valid.antt =====
-- A well-formed queue passes the check of src/common/cbuffer.c.
use qoraal.Base.{
  ℕ, zero, suc, ◌+◌, ◌-◌, ◌%◌, ◌^◌, ◌≡◌, ◌≤◌, ◌<◌, refl, sym, ap, ◌∙◌, Bool, true, false, ◌||◌,
  Option, none, some, List, [], ◌∷◌, ltb, leb, ◌==◌, ==_eq, Bool-cases, inl, inr, has, Distinct,
  length, arith,
}
use mathlib.Core.Path.{subst}
use native.Mathlib.Nat.{mod-eq_of_lt}
use qoraal.Cbuffer.{Item, Buffer, Queue, Platform, cbuffer_magic, front, back, forwards, backwards}
use qoraal.Cbuffer.Layout.{Block, All}
use qoraal.Cbuffer.Ring.{addresses, Chain}
use qoraal.Cbuffer.Refine.{IsQueue, HasHeader, All-each, All-both}
use qoraal.Cbuffer.Traverse.{
  has-turned, Leads, turned, length-turned, forwards-Leads, backwards-Leads,
}
use qoraal.Cbuffer.Inside.{IsInside, Laid-IsInside}
use qoraal.Cbuffer.Validate.{
  in_buffer, next_linked, prev_linked, validate_item, header_valid, tally, conclude,
  validate_forwards, validate,
}

-- An item and the two that it is linked with, which both are in `S`
abbrev IsLinked : (ℕ → Item) → (S : ℕ → Bool) → Block → Type 0
IsLinked m S x =
    ((m (m x.0).next).prev ≡ x.0)
    × ((m (m x.0).prev).next ≡ x.0)
    × (((m x.0).next == x.0) ≡ false)
    × (((m x.0).prev == x.0) ≡ false)
    × (S (m x.0).next ≡ true)
    × (S (m x.0).prev ≡ true)

-- The first link, and the last one back, lead into `S`.
Chain-ends :
    (m : ℕ → Item) (S : ℕ → Bool) (p : ℕ) (xs : List Block) (r : ℕ)
    → Chain m p xs r
    → S p ≡ true
    → S r ≡ true
    → All (λ x. S x.0 ≡ true) xs
    → (S (m p).next ≡ true) × (S (m r).prev ≡ true)
Chain-ends m S p [] r c a b h = (rw (c.0) b, rw (c.1) a)
Chain-ends m S p (x ∷ xs) r c a b h = (rw (c.0) (h.0), (Chain-ends m S x.0 xs r c.2 h.0 b h.1).1)

Chain-IsLinked :
    (m : ℕ → Item) (S : ℕ → Bool) (p : ℕ) (xs : List Block) (r : ℕ)
    → Chain m p xs r
    → Distinct (p ∷ addresses xs)
    → has r (addresses xs) ≡ false
    → S p ≡ true
    → S r ≡ true
    → All (λ x. S x.0 ≡ true) xs
    → All (IsLinked m S) xs
Chain-IsLinked m S p [] r c d n a b h = tt
Chain-IsLinked m S p (x ∷ []) r c d n a b h =
    let l : (m x.0).next ≡ r = c.2.0 in
    let k : (m x.0).prev ≡ p = c.1 in
    ((rw l (c.2.1), rw k (c.0), rw l (ground arith), rw k (ground (arith, d)), rw l b, rw k a), tt)
Chain-IsLinked m S p (x ∷ y ∷ xs) r c d n a b h =
    let l : (m x.0).next ≡ y.0 = c.2.0 in
    let k : (m x.0).prev ≡ p = c.1 in
    (
      (
        rw l (c.2.1),
        rw k (c.0),
        rw l (ground (arith, d.1)),
        rw k (ground (arith, d.0)),
        rw l (h.1.0),
        rw k a,
      ),
      Chain-IsLinked m S x.0 (y ∷ xs) r c.2 d.1 (ground arith) h.0 b h.1,
    )

All-has :
    (P : ℕ → Type 0) (a : ℕ) (xs : List Block)
    → All (λ x. P x.0) xs
    → has a (addresses xs) ≡ true
    → P a
All-has P a [] h m = absurd (ground arith)
All-has P a (x ∷ xs) h m = elim (Bool-cases (a == x.0)) [
  | inl e ↦ subst P (sym (==_eq a x.0 e)) (h.0)
  | inr e ↦ All-has P a xs h.1 (ground arith)
]

pub length-addresses : (xs : List Block) → length (addresses xs) ≡ length xs
length-addresses [] = refl
length-addresses (x ∷ xs) = omega (arith, length-addresses xs)

option_inj : {a b : ℕ} → some a ≡ some b → a ≡ b
option_inj e = ground arith

module _ (platform : Platform) where
  open platform use {header}

  pub valid-nonzero : (q : Queue) (x : ℕ) → validate_item platform q x ≡ true → (x == 0) ≡ false
  unfolding validate_item
  valid-nonzero q x v = elim (Bool-cases (x == 0)) [
    | inl e ↦
        absurd (let w : validate_item platform q x ≡ false = simp e refl in ground (arith, w, v))
    | inr e ↦ e
  ]

  -- A step of the loop
  pub tally_valid :
      (q : Queue) (next : ℕ → Option ℕ) (limit modulus fuel i count : ℕ)
      → validate_item platform q i ≡ true
      → count < limit
      → limit < modulus
      → tally platform q next limit modulus (suc fuel) (some i) count
        ≡ tally platform q next limit modulus fuel (next i) (count + 1)
  unfolding tally
  tally_valid q next limit modulus fuel i count v l b =
      let z = valid-nonzero q i v in
      let g : leb limit count ≡ false = ground arith in
      let n : (count + 1) % modulus ≡ count + 1 = mod-eq_of_lt (omega arith) in
      simp (z, g, v, n) refl

  -- The loop counts items that all are valid.
  tally-Leads :
      (q : Queue) (next : ℕ → Option ℕ) (limit modulus fuel : ℕ) (i : Option ℕ) (xs : List ℕ)
      → (count : ℕ) → Leads next i xs
      → ((x : ℕ) → has x xs ≡ true → validate_item platform q x ≡ true)
      → count + length xs ≤ limit
      → limit < modulus
      → length xs < fuel
      → tally platform q next limit modulus fuel i count ≡ some (some (count + length xs))
  unfolding tally
  tally-Leads q next limit modulus zero i xs c l v a b f = absurd (omega arith)
  tally-Leads q next limit modulus (suc k) none [] c l v a b f =
      ap (λ (n : ℕ). some (some n)) (omega arith)
  tally-Leads q next limit modulus (suc k) (some i) [] c l v a b f = absurd (ground arith)
  tally-Leads q next limit modulus (suc k) none (x ∷ xs) c l v a b f = absurd (ground arith)
  tally-Leads q next limit modulus (suc k) (some i) (x ∷ xs) c l v a b f =
      let e : i ≡ x = option_inj l.0 in
      let w : validate_item platform q i ≡ true = rw e (v x (ground arith)) in
      tally_valid q next limit modulus k i c w (omega arith) b
      ∙ tally-Leads q next limit modulus k (next i) xs (c + 1) (rw e (l.1))
          (λ y m. v y (ground arith)) (omega arith) b (omega arith)
      ∙ ap (λ (n : ℕ). some (some n)) (omega arith)

  in_buffer_inside :
      (b : Buffer) (x : Block) → IsInside platform b.start b.end x → in_buffer platform b x.0 ≡ true
  unfolding in_buffer
  in_buffer_inside b x (l, h, n) = ground (arith, l, h, n)

  -- The queue itself, or an address in its buffer
  abbrev within : Queue → ℕ → Bool
  within q a = (a == q.self) || in_buffer platform q.cb a

  next_linked_item :
      (q : Queue) (x : Block)
      → IsLinked q.items (within q) x
      → next_linked q x.0 (in_buffer platform q.cb) ≡ true
  unfolding next_linked
  next_linked_item q x l = elim (Bool-cases ((q.items x.0).next == q.self)) [
    | inl e ↦
        simp e (
          ground (arith, ap (λ (a : ℕ). (q.items a).prev) (==_eq (q.items x.0).next q.self e), l.0))
    | inr e ↦ simp e (ground (arith, l.0, l.4))
  ]

  prev_linked_item :
      (q : Queue) (x : Block)
      → IsLinked q.items (within q) x
      → prev_linked q x.0 (in_buffer platform q.cb) ≡ true
  unfolding prev_linked
  prev_linked_item q x l = elim (Bool-cases ((q.items x.0).prev == q.self)) [
    | inl e ↦
        simp e (
          ground (arith, ap (λ (a : ℕ). (q.items a).next) (==_eq (q.items x.0).prev q.self e), l.1))
    | inr e ↦ simp e (ground (arith, l.1, l.5))
  ]

  validate_item_linked :
      (q : Queue) (x : Block)
      → 0 < q.cb.start
      → HasHeader platform q.items x
      → IsInside platform q.cb.start q.cb.end x
      → IsLinked q.items (within q) x
      → validate_item platform q x.0 ≡ true
  unfolding validate_item
  validate_item_linked q x pos h i l =
      let b = in_buffer_inside q.cb x i in
      let f = next_linked_item q x l in
      let g = prev_linked_item q x l in
      let z : (x.0 == 0) ≡ false = ground (arith, pos, i.0) in
      let m : ((q.items x.0).magic == cbuffer_magic) ≡ true = ground (arith, h.2) in
      let s : (ltb (q.items x.0).dwsize header || ltb (q.cb.end - q.cb.start) (q.items x.0).dwsize)
          ≡ false =
        rw (h.1) (ground (arith, h.0, i.0, i.1)) in
      let t : ltb q.cb.end (x.0 + (q.items x.0).dwsize) ≡ false = rw (h.1) (ground (arith, i.1)) in
      simp (z, b, m, s, t, l.2, l.3, f, g) refl

  IsInside-within :
      (q : Queue) (xs : List Block)
      → All (IsInside platform q.cb.start q.cb.end) xs
      → All (λ x. within q x.0 ≡ true) xs
  IsInside-within q xs =
      All-each _ _ xs (λ x m i. let e = in_buffer_inside q.cb x i in ground (arith, e))

  module _ (q : Queue) (xs : List Block) (v : IsQueue platform q xs) (pos : 0 < q.cb.start) where
    inside : All (IsInside platform q.cb.start q.cb.end) xs
    inside = (Laid-IsInside platform q.cb xs v.laid).0

    items_valid : All (λ x. validate_item platform q x.0 ≡ true) xs
    items_valid =
        All-each _ _ xs (λ x m (h, (i, l)). validate_item_linked q x pos h i l)
          (All-both (HasHeader platform q.items) _ xs v.headers (
            All-both (IsInside platform q.cb.start q.cb.end) (IsLinked q.items (within q)) xs inside
              (Chain-IsLinked q.items (within q) q.self xs q.self v.ring v.distinct v.distinct.0
                (ground arith) (ground arith) (IsInside-within q xs inside))))

    -- Each of the items is valid.
    pub valid : (x : ℕ) → has x (addresses xs) ≡ true → validate_item platform q x ≡ true
    valid x = All-has (λ a. validate_item platform q a ≡ true) x xs items_valid

    header_valid_queue : header_valid q q.cb.start (q.cb.end - q.cb.start) ≡ true
    unfolding header_valid in_buffer
    header_valid_queue =
        let b = Laid-IsInside platform q.cb xs v.laid in
        let c =
          Chain-ends q.items (within q) q.self xs q.self v.ring (ground arith) (ground arith)
            (IsInside-within q xs inside) in
        let m : ((q.items q.self).magic == cbuffer_magic) ≡ true = ground (arith, v.marked) in
        let e : (q.cb.end == q.cb.start + (q.cb.end - q.cb.start)) ≡ true = ground (arith, b) in
        simp (m, e) (ground (arith, b, c, platform.header_pos))

    -- A well-formed queue passes `cqueue_validate`, which leaves it as it is, for the words that it was
    -- set up with: the buffer does not begin at address 0, and each loop is given more steps than the
    -- buffer has words.
    pub validate-IsQueue :
        (fuel : ℕ)
        → q.cb.end - q.cb.start < fuel
        → validate platform fuel q q.cb.start (q.cb.end - q.cb.start) ≡ some (q, true)
    unfolding validate validate_forwards conclude
    validate-IsQueue fuel f =
        let d = q.cb.end - q.cb.start in
        let n = (Laid-IsInside platform q.cb xs v.laid).1 in
        let k = length-addresses xs in
        let size : d < 2 ^ 16 = omega (arith, v.size) in
        let big : leb (2 ^ 31) d ≡ false = ground arith in
        let first : tally platform q (backwards q) d (2 ^ 32) fuel (front q) 0
            ≡ some (some (0 + length (turned (addresses xs) []))) =
          tally-Leads q (backwards q) d (2 ^ 32) fuel (front q) (turned (addresses xs) []) 0
            (backwards-Leads platform q xs v)
            (λ x h. valid x (ground (arith, has-turned x (addresses xs) [], h)))
            (omega (arith, length-turned (addresses xs) [], n, k)) (omega arith)
            (omega (arith, length-turned (addresses xs) [], n, k)) in
        let second : tally platform q (forwards q) d (2 ^ 16) fuel (back q) 0
            ≡ some (some (0 + length (addresses xs))) =
          tally-Leads q (forwards q) d (2 ^ 16) fuel (back q) (addresses xs) 0
            (forwards-Leads platform q xs v) valid (omega (arith, n, k)) size
            (omega (arith, n, k)) in
        let same : (0 + length (addresses xs) == 0 + length (turned (addresses xs) [])) ≡ true =
          ground (arith, length-turned (addresses xs) []) in
        let count : 0 + length (addresses xs) ≡ q.count =
          sym (v.counted ∙ mod-eq_of_lt (omega (arith, n, k)) ∙ omega (arith, k)) in
        simp (header_valid_queue, big, first, second, same)
          (ap (λ (c : ℕ). some (record q { count = c }, true)) count)
