-- ===== src/Cbuffer/Refine.antt =====
-- The queue of src/common/cbuffer.c is the list of its items, oldest first.
use qoraal.Base.{
  ℕ, ◌+◌, ◌%◌, ◌^◌, ◌≡◌, ◌≤◌, ◌<◌, inl, inr, refl, ap, ◌∙◌, Bool, true, false, ◌||◌, Option, none,
  some, List, [], ◌∷◌, ◌++◌, ◌==◌, ==_eq, if◌then◌else◌, Bool-cases, has, Distinct, length,
  length-append, arith,
}
use mathlib.Core.Path.{subst}
use qoraal.Tasks.{word}
use qoraal.Cbuffer.{
  Buffer, Item, Queue, Platform, cbuffer_magic, put, meets, memset, zeroed, alloc, link, place,
  enqueue,
}
use qoraal.Cbuffer.Layout.{Block, All, All-append, IsApart, Laid, Allocates, alloc-Allocates}
use qoraal.Cbuffer.Release.{Outside}
use qoraal.Cbuffer.Ring.{addresses, Chain, has-prev, Chain-append}

-- What holds of each item, with its membership, holds of all.
pub All-each :
    (P Q : Block → Type 0) (xs : List Block)
    → ((x : Block) → has x.0 (addresses xs) ≡ true → P x → Q x)
    → All P xs
    → All Q xs
All-each P Q [] f h = tt
All-each P Q (x ∷ xs) f h =
    (f x (ground arith) h.0, All-each P Q xs (λ y m. f y (ground arith)) h.1)

pub All-both :
    (P Q : Block → Type 0) (xs : List Block) → All P xs → All Q xs → All (λ x. P x × Q x) xs
All-both P Q [] h k = tt
All-both P Q (x ∷ xs) h k = ((h.0, k.0), All-both P Q xs h.1 k.1)

-- The fields of an item with another link, or the same.
relinked :
    (b : Bool) (i : Item) (a : ℕ)
    → let j : Item = if b then record i { next = a } else i in
      (j.next ≡ (if b then a else i.next))
      × (j.prev ≡ i.prev)
      × (j.dwsize ≡ i.dwsize)
      × (j.magic ≡ i.magic)
relinked true i a = (refl, refl, refl, refl)
relinked false i a = (refl, refl, refl, refl)

pub addresses-append :
    (u : ℕ) (xs : List Block) (x : Block)
    → has u (addresses (xs ++ (x ∷ []))) ≡ (has u (addresses xs) || (u == x.0))
addresses-append u [] x = ground arith
addresses-append u (y ∷ xs) x = ground (arith, addresses-append u xs x)

Distinct-append :
    (xs : List Block) (x : Block)
    → Distinct (addresses xs)
    → has x.0 (addresses xs) ≡ false
    → Distinct (addresses (xs ++ (x ∷ [])))
Distinct-append [] x d n = (refl, tt)
Distinct-append (y ∷ xs) x d n =
    (ground (arith, addresses-append y.0 xs x, d.0), Distinct-append xs x d.1 (ground arith))

module _ (platform : Platform) where
  open platform use {header}

  -- The header of an item has its size and the magic.
  abbrev pub HasHeader : (ℕ → Item) → Block → Type 0
  HasHeader m x = (header ≤ x.1) × ((m x.0).dwsize ≡ x.1) × ((m x.0).magic ≡ cbuffer_magic)

  -- The items of a queue, oldest first: they are linked both ways, laid out in the buffer, have their
  -- headers, and are counted. The queue itself lies outside of the buffer, whose size a uint16_t holds.
  pub record IsQueue (q : Queue) (xs : List Block) : Type 0 where
    pub marked : (q.items q.self).magic ≡ cbuffer_magic
    pub ring : Chain q.items q.self xs q.self
    pub headers : All (HasHeader q.items) xs
    pub distinct : Distinct (q.self ∷ addresses xs)
    pub laid : Laid platform q.cb xs
    pub outside : Outside platform q.cb q.self
    pub size : q.cb.end < q.cb.start + 2 ^ 16
    pub counted : q.count ≡ length xs % 2 ^ 16

  has-IsApart :
      (m : ℕ → Item) (a n : ℕ) (xs : List Block)
      → 0 < n
      → All (IsApart a n) xs
      → All (HasHeader m) xs
      → has a (addresses xs) ≡ false
  has-IsApart m a n [] p h k = refl
  has-IsApart m a n (x ∷ xs) p h k = elim (Bool-cases (a == x.0)) [
    | inl e ↦ absurd (elim (h.0) [
      | inl l ↦ omega (arith, ==_eq a x.0 e, platform.header_pos, k.0.0)
      | inr l ↦ omega (arith, ==_eq a x.0 e)
    ])
    | inr e ↦ ground (arith, has-IsApart m a n xs p h.1 k.1)
  ]

  module _ (q : Queue) (xs : List Block) (v : IsQueue q xs) (a n : ℕ) (lo : q.cb.start ≤ a)
      (hi : a + n ≤ q.cb.end) (pos : header ≤ n) (apart : All (IsApart a n) xs) where
    last : ℕ
    last = (q.items q.self).prev

    self-ne : (q.self == a) ≡ false
    self-ne = elim v.outside [
      | inl o ↦ ground (arith, platform.header_pos)
      | inr o ↦ ground (arith, platform.header_pos)
    ]

    self-meets : meets platform q.self a n ≡ false
    self-meets = elim v.outside [ inl o ↦ ground arith | inr o ↦ ground arith ]

    absent : has a (addresses xs) ≡ false
    absent = has-IsApart q.items a n xs (omega (arith, platform.header_pos)) apart v.headers

    last-ne : ((q.items q.self).prev == a) ≡ false
    last-ne = elim (Bool-cases ((q.items q.self).prev == a)) [
      | inl e ↦ absurd (
          ground (
            arith,
            ==_eq (q.items q.self).prev a e,
            has-prev q.items q.self xs q.self v.ring,
            self-ne,
            absent,
          ))
      | inr e ↦ e
    ]

    -- The items behind the writes of `cqueue_enqueue`, by the queue, the new item and the others.
    link_self :
        ((link platform q a n q.self).prev ≡ a)
        × ((link platform q a n q.self).next
            ≡ (if q.self == (q.items q.self).prev then a else (q.items q.self).next))
        × ((link platform q a n q.self).magic ≡ (q.items q.self).magic)
    unfolding link
    link_self = ground (arith, self-meets, self-ne, last-ne)

    link_new :
        ((link platform q a n a).next ≡ q.self)
        × ((link platform q a n a).prev ≡ (q.items q.self).prev)
        × ((link platform q a n a).dwsize ≡ n % 2 ^ 16)
        × ((link platform q a n a).magic ≡ cbuffer_magic)
    unfolding link
    link_new = ground (arith, self-ne, last-ne)

    link_old :
        (x : Block)
        → has x.0 (addresses xs) ≡ true
        → IsApart a n x
        → HasHeader q.items x
        → link platform q a n x.0 ≡ (
            if x.0 == (q.items q.self).prev then record (q.items x.0) { next = a } else q.items x.0)
    unfolding link
    link_old x m p k =
        let e : (x.0 == a) ≡ false = ground (arith, absent, ==_eq x.0 a) in
        let f : (x.0 == q.self) ≡ false = ground (arith, v.distinct.0, ==_eq x.0 q.self) in
        let g : meets platform x.0 a n ≡ false = elim p [
          | inl l ↦ ground arith
          | inr l ↦ ground arith
        ] in
        let h : Item = record (memset platform q.items a n zeroed a) {
          next = q.self;
          prev = (q.items q.self).prev;
        } in
        elim (Bool-cases (x.0 == (q.items q.self).prev)) [
          | inl b ↦
              let mid : put (memset platform q.items a n zeroed) a h (q.items q.self).prev
                  ≡ q.items x.0 =
                subst (λ (u : ℕ). put (memset platform q.items a n zeroed) a h u ≡ q.items x.0)
                  (==_eq x.0 (q.items q.self).prev b) (rw (e, g) refl) in
              rw (e, f, b) (ap (λ (i : Item). record i { next = a }) mid)
          | inr b ↦ rw (e, f, b, g) refl
        ]

    each :
        All
          (λ x. link platform q a n x.0 ≡ (
            if x.0 == (q.items q.self).prev
            then record (q.items x.0) { next = a }
            else q.items x.0))
          xs
    each =
        All-each (λ x. IsApart a n x × HasHeader q.items x) _ xs (λ x m (p, k). link_old x m p k)
          (All-both (IsApart a n) (HasHeader q.items) xs apart v.headers)

    pub place-IsQueue :
        (cb : Buffer)
        → Laid platform cb (xs ++ ((a, n) ∷ []))
        → cb.start ≡ q.cb.start
        → cb.end ≡ q.cb.end
        → IsQueue
            (record q { cb = cb; items = link platform q a n; count = (q.count + 1) % 2 ^ 16 })
            (xs ++ ((a, n) ∷ []))
    place-IsQueue cb l s e = record {
      marked = link_self.2 ∙ v.marked;
      ring =
          Chain-append q.items (link platform q a n) a n q.self xs q.self v.ring v.distinct
            link_self.1
            (All-each _ _ xs
              (λ x m h.
                let (f, g, d, k) = relinked (x.0 == (q.items q.self).prev) (q.items x.0) a in
                (ap (λ (i : Item). i.next) h ∙ f, ap (λ (i : Item). i.prev) h ∙ g))
              each)
            link_new.0 link_new.1 link_self.0;
      headers =
          All-append (HasHeader (link platform q a n)) xs ((a, n) ∷ [])
            (All-each _ _ xs
              (λ x m (h, w).
                let (f, g, d, k) = relinked (x.0 == (q.items q.self).prev) (q.items x.0) a in
                (
                  w.0,
                  ap (λ (i : Item). i.dwsize) h ∙ d ∙ w.1,
                  ap (λ (i : Item). i.magic) h ∙ k ∙ w.2,
                ))
              (All-both _ (HasHeader q.items) xs each v.headers))
            ((pos, link_new.2 ∙ omega (arith, hi, lo, v.size), link_new.3), tt);
      distinct = (
        ground (arith, addresses-append q.self xs (a, n), v.distinct.0, self-ne),
        Distinct-append xs (a, n) v.distinct.1 absent,
      );
      laid = l;
      outside = elim v.outside [ inl o ↦ inl (omega (arith, s)) | inr o ↦ inr (omega (arith, e)) ];
      size = omega (arith, s, e, v.size);
      counted = omega (arith, length-append xs ((a, n) ∷ []), v.counted);
    }

  -- What a call of `cqueue_enqueue` for `n` words in all does.
  abbrev pub Enqueues : Queue → List Block → ℕ → Queue × Option ℕ → Type 0
  Enqueues q xs n (q', none) = (q' ≡ q) × (xs ≡ [] → q.cb.end < q.cb.start + n)
  Enqueues q xs n (q', some a) =
      IsQueue q' (xs ++ ((a, n) ∷ []))
      × (q.cb.start ≤ a)
      × (a + n ≤ q.cb.end)
      × All (IsApart a n) xs

  place-Enqueues :
      (q : Queue) (xs : List Block) (n : ℕ) (r : Buffer × Option ℕ)
      → IsQueue q xs
      → header ≤ n
      → Allocates platform q.cb xs n r
      → Enqueues q xs n (place platform q n r)
  unfolding place
  place-Enqueues q xs n (cb, none) v h (e, f) = (refl, f)
  place-Enqueues q xs n (cb, some a) v h (l, lo, hi, apart, s, e) =
      (place-IsQueue q xs v a n lo hi h apart cb l s e, lo, hi, apart)

  -- `cqueue_enqueue` either puts a new item of the words asked for, and of a header, behind the
  -- others, in words of the buffer that no other item has; or it fails and changes nothing, which it
  -- does not while the queue is empty and the buffer has as many words.
  pub enqueue-Enqueues :
      (q : Queue) (xs : List Block) (dwsize : ℕ)
      → IsQueue q xs
      → dwsize + header < word
      → Enqueues q xs (dwsize + header) (enqueue platform q dwsize)
  unfolding enqueue
  enqueue-Enqueues q xs dwsize v h =
      let m : ((q.items q.self).magic == cbuffer_magic) ≡ true = ground (arith, v.marked) in
      let s : (dwsize + header) % word ≡ dwsize + header = omega (arith, h) in
      rw (m, s)
        (place-Enqueues q xs (dwsize + header) (alloc q.cb (dwsize + header)) v (omega arith)
          (alloc-Allocates platform q.cb xs (dwsize + header) v.laid (omega arith)))
