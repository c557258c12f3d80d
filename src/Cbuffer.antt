-- ===== src/Cbuffer.antt =====
-- src/common/cbuffer.c and include/qoraal/common/cbuffer.h: a queue of blocks in a circular buffer of
-- 32-bit words. A pointer into the buffer is the index of its word. `CBUFFER_QUEUE_T` begins as an
-- item does, so the queue stands in the ring of items under its own address. `Platform` has what the
-- compiler decides: the size of an item's header in words and the pointer that CBUFFER_FILL makes.
-- The cache flushes, which are empty, are left out.
pub mod Layout
pub mod Release
pub mod Ring
pub mod Refine
pub mod Dequeue
pub mod Walk
pub mod Traverse
pub mod Inside
pub mod Validate
pub mod Valid
pub mod Returns
mod Tests
use qoraal.Base.{
  ℕ, ◌+◌, ◌-◌, ◌*◌, ◌%◌, ◌^◌, ◌<◌, Bool, true, false, ◌&&◌, ◌||◌, not, Option, none, some, List, [],
  ◌∷◌, ltb, leb, ◌==◌, if◌then◌else◌,
}
use qoraal.Tasks.{word, update}

-- `CBUFFER_T`
pub record Buffer : Type 0 where
  pub write : ℕ
  pub read : ℕ
  pub start : ℕ
  pub end : ℕ

-- `CBUFFER_ITEM_T`, without its data
pub record Item : Type 0 where
  pub next : ℕ
  pub prev : ℕ
  pub dwsize : ℕ
  pub magic : ℕ

-- `CBUFFER_QUEUE_T` at the address `self`; its `next`, `prev` and `magic` are those of the item
-- there. `items` is the memory, read as an item at each address.
pub record Queue : Type 0 where
  pub self : ℕ
  pub items : ℕ → Item
  pub count : ℕ
  pub cb : Buffer

-- `CBUFFER_MAGIC`
abbrev pub cbuffer_magic : ℕ
cbuffer_magic = 0x2608

pub record Platform : Type 0 where
  pub header : ℕ
  pub fill_pointer : ℕ
  pub header_pos : 0 < header

abbrev pub zeroed : Item
zeroed = record { next = 0; prev = 0; dwsize = 0; magic = 0 }

abbrev pub put : (ℕ → Item) → ℕ → Item → ℕ → Item
put m a x b = if b == a then x else m b

-- The pointers of `cbuffer_init`
unfoldable pub init : (buffer dwsize : ℕ) → Buffer
init buffer dwsize = record { write = buffer; read = buffer; start = buffer; end = buffer + dwsize }

-- The pointers of `cbuffer_alloc`
unfoldable pub alloc : Buffer → ℕ → Buffer × Option ℕ
alloc cb dwsize =
    if leb cb.read cb.write
    then (if leb dwsize (cb.end - cb.write)
        then (record cb { write = cb.write + dwsize }, some cb.write)
        else if ltb dwsize (cb.read - cb.start)
        then (record cb { write = cb.start + dwsize }, some cb.start)
        else (cb, none))
    else (if ltb dwsize (cb.read - cb.write)
        then (record cb { write = cb.write + dwsize }, some cb.write)
        else (cb, none))

-- The pointers of `cbuffer_free`
unfoldable pub free : Buffer → (read : ℕ) → Buffer
free cb read =
    if read == cb.write
    then record cb { read = cb.start; write = cb.start }
    else record cb { read = read }

module _ (platform : Platform) where
  open platform use {header, fill_pointer}

  abbrev pub filled : Item
  filled = record { next = fill_pointer; prev = fill_pointer; dwsize = 0xEEEE; magic = 0xEEEE }

  -- The header at `a` and the `n` words from `p` on share a word.
  abbrev pub meets : (a p n : ℕ) → Bool
  meets a p n = ltb a (p + n) && ltb p (a + header)

  -- `memset` of `n` words: a header that it writes to becomes `x`, also where it does so in part.
  abbrev pub memset : (ℕ → Item) → (p n : ℕ) → Item → ℕ → Item
  memset m p n x a = if meets a p n then x else m a

  -- The memory behind `cbuffer_free`
  unfoldable pub free_memory : Buffer → (read : ℕ) → (ℕ → Item) → ℕ → Item
  free_memory cb read m =
      if leb cb.read read
      then memset m cb.read (read - cb.read) filled
      else memset (memset m cb.write (cb.end - cb.write) filled) cb.start (read - cb.start) filled

  -- `cqueue_init`
  unfoldable pub queue_init : Queue → (buffer dwsize : ℕ) → Queue
  unfolding init
  queue_init q buffer dwsize = record q {
    cb = init buffer dwsize;
    items =
        put (memset q.items buffer dwsize filled) q.self
          (record (q.items q.self) { next = q.self; prev = q.self; magic = cbuffer_magic });
    count = 0;
  }

  -- The writes of `cqueue_enqueue` for the new item, in their order.
  unfoldable pub link : Queue → (item s : ℕ) → ℕ → Item
  link q item s =
      let last = (q.items q.self).prev in
      let m = memset q.items item s zeroed in
      let m1 = put m item (record (m item) { next = q.self; prev = last }) in
      let m2 = put m1 last (record (m1 last) { next = item }) in
      let m3 = put m2 q.self (record (m2 q.self) { prev = item }) in
      put m3 item (record (m3 item) { dwsize = s % 2 ^ 16; magic = cbuffer_magic })

  unfoldable pub place : Queue → (s : ℕ) → Buffer × Option ℕ → Queue × Option ℕ
  unfolding link
  place q s (cb, none) = (q, none)
  place q s (cb, some item) =
      (record q { cb = cb; items = link q item s; count = (q.count + 1) % 2 ^ 16 }, some item)

  -- `cqueue_enqueue`
  unfoldable pub enqueue : Queue → (dwsize : ℕ) → Queue × Option ℕ
  unfolding place
  enqueue q dwsize =
      if not ((q.items q.self).magic == cbuffer_magic)
      then (q, none)
      else (let s = (dwsize + header) % word in place q s (alloc q.cb s))

  -- The part of `cqueue_dequeue` for the oldest item.
  unfoldable pub unlink : Queue → (item : ℕ) → Queue
  unfolding free free_memory
  unlink q item =
      let next = (q.items item).next in
      let m1 = put q.items q.self (record (q.items q.self) { next = next }) in
      let m2 = put m1 next (record (m1 next) { prev = q.self }) in
      let s = (m2 item).dwsize in
      let m3 = put m2 item (record (m2 item) { magic = 0 }) in
      record q {
        items = free_memory q.cb (item + s) m3;
        cb = free q.cb (item + s);
        count = (q.count + 2 ^ 16 - 1) % 2 ^ 16;
      }

  -- `cqueue_dequeue`, and the size of the item
  unfoldable pub dequeue : Queue → Queue × ℕ
  dequeue q =
      let item = (q.items q.self).next in
      if not ((q.items q.self).magic == cbuffer_magic)
      then (q, 0)
      else if not (item == q.self)
      then (unlink q item, (q.items item).dwsize)
      else (q, 0)

-- `cqueue_front`: the newest item
unfoldable pub front : Queue → Option ℕ
front q =
    if not ((q.items q.self).magic == cbuffer_magic)
    then none
    else if not ((q.items q.self).next == q.self)
    then some (q.items q.self).prev
    else none

-- `cqueue_back`: the oldest item
unfoldable pub back : Queue → Option ℕ
back q =
    if not ((q.items q.self).magic == cbuffer_magic)
    then none
    else if not ((q.items q.self).next == q.self)
    then some (q.items q.self).next
    else none

-- `cqueue_forwards`
unfoldable pub forwards : Queue → ℕ → Option ℕ
forwards q item = if (q.items item).next == q.self then none else some (q.items item).next

-- `cqueue_backwards`
unfoldable pub backwards : Queue → ℕ → Option ℕ
backwards q item = if (q.items item).prev == q.self then none else some (q.items item).prev
