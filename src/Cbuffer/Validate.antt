-- ===== src/Cbuffer/Validate.antt =====
-- The check of a buffer that outlives a reset: `cqueue_validate_item` and `cqueue_validate` of
-- src/common/cbuffer.c. Its loops take fuel; none is a loop that has not ended. A pointer is null as
-- the number 0.
use qoraal.Base.{
  ℕ, zero, suc, ◌>>=◌, ◌+◌, ◌-◌, ◌%◌, ◌^◌, Bool, true, false, ◌&&◌, ◌||◌, not, Option, none, some,
  ltb, leb, ◌==◌, if◌then◌else◌,
}
use qoraal.Cbuffer.{Buffer, Queue, Platform, cbuffer_magic, front, back, forwards, backwards}

-- The link of an item to the next, which is the queue or lies in the buffer, and the one back.
unfoldable pub next_linked : Queue → (item : ℕ) → (inside : ℕ → Bool) → Bool
next_linked q item inside =
    let next = (q.items item).next in
    if not (next == q.self)
    then (inside next && ((q.items next).prev == item))
    else ((q.items q.self).prev == item)

-- The same to the previous item
unfoldable pub prev_linked : Queue → (item : ℕ) → (inside : ℕ → Bool) → Bool
prev_linked q item inside =
    let prev = (q.items item).prev in
    if not (prev == q.self)
    then (inside prev && ((q.items prev).next == item))
    else ((q.items q.self).next == item)

-- The checks of `cqueue_validate` on the queue itself
unfoldable pub header_valid : Queue → (cbuffer dwsize : ℕ) → Bool
header_valid q cbuffer dwsize =
    let self = q.items q.self in
    if not (self.magic == cbuffer_magic)
    then false
    else if not (q.cb.start == cbuffer)
    then false
    else if not (q.cb.end == cbuffer + dwsize)
    then false
    else if ltb q.cb.end q.cb.read || ltb q.cb.read q.cb.start
    then false
    else if ltb q.cb.end q.cb.write || ltb q.cb.write q.cb.start
    then false
    else if not (self.next == q.self) && (leb q.cb.end self.next || ltb self.next q.cb.start)
    then false
    else not (not (self.prev == q.self) && (leb q.cb.end self.prev || ltb self.prev q.cb.start))

-- The end of `cqueue_validate`, by the number of items on the way back and the one on the way
-- forwards, none if that found an invalid item
unfoldable pub conclude : Queue → (count : ℕ) → Option ℕ → Queue × Bool
conclude q count none = (record q { count = 0 }, false)
conclude q count (some n) =
    if n == count then (record q { count = n }, true) else (record q { count = 0 }, false)

module _ (platform : Platform) where
  open platform use {header}

  -- A header at `a` lies in the buffer.
  unfoldable pub in_buffer : Buffer → ℕ → Bool
  in_buffer b a = not (ltb a b.start || ltb b.end (a + header))

  -- `cqueue_validate_item`
  unfoldable pub validate_item : Queue → ℕ → Bool
  validate_item q item =
      let i = q.items item in
      if item == 0
      then false
      else if not (in_buffer q.cb item)
      then false
      else if not (i.magic == cbuffer_magic)
      then false
      else if ltb i.dwsize header || ltb (q.cb.end - q.cb.start) i.dwsize
      then false
      else if ltb q.cb.end (item + i.dwsize)
      then false
      else if (i.next == item) || (i.prev == item)
      then false
      else (next_linked q item (in_buffer q.cb) && prev_linked q item (in_buffer q.cb))

  -- A loop of `cqueue_validate` from the item `i` on with the counter `count`, which wraps at
  -- `modulus`: the number of the items, or none for an invalid one or for more than `limit`.
  unfoldable pub tally :
      Queue
      → (next : ℕ → Option ℕ) → (limit modulus fuel : ℕ) → Option ℕ
      → (count : ℕ) → Option (Option ℕ)
  tally q next limit modulus zero i count = none
  tally q next limit modulus (suc f) none count = some (some count)
  tally q next limit modulus (suc f) (some i) count =
      let rest = tally q next limit modulus f (next i) ((count + 1) % modulus) in
      if i == 0
      then some (some count)
      else if leb limit count
      then some none
      else if not (validate_item q i)
      then some none
      else rest

  -- The loop from the oldest item on, behind the one from the newest
  unfoldable pub validate_forwards :
      (fuel : ℕ) → Queue → (dwsize : ℕ) → Option ℕ → Option (Queue × Bool)
  validate_forwards fuel q dwsize none = some (q, false)
  validate_forwards fuel q dwsize (some count) = do
    n ← tally q (forwards q) dwsize (2 ^ 16) fuel (back q) 0
    some (conclude q count n)

  -- `cqueue_validate`: the queue with its counter, and the result. The first counter is an int32_t.
  unfoldable pub validate : (fuel : ℕ) → Queue → (cbuffer dwsize : ℕ) → Option (Queue × Bool)
  validate fuel q cbuffer dwsize =
      if not (header_valid q cbuffer dwsize) then some (q, false) else (do
        count ←
            tally q (backwards q) (if leb (2 ^ 31) dwsize then 0 else dwsize) (2 ^ 32) fuel
              (front q) 0
        validate_forwards fuel q dwsize count)
