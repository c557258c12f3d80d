-- ===== src/Lists.antt =====
-- include/qoraal/common/lists.h and lists_inline.h: the intrusive lists. An object is its address
-- and carries its link in a `next` field; `Heap` is what those fields hold, for one `offsetof_next`.
-- A function that writes returns the new heap beside the new anchor. A walk along the links takes
-- fuel, and `none` means that it ran out. The asserts are off, as in a release build.
pub mod Seg
pub mod Stack
pub mod Linked
pub mod Fifo
mod Tests
use qoraal.Base.{◌>>=◌, ℕ, zero, suc, true, false, ◌||◌, Option, none, some, ◌==◌, if◌then◌else◌}

abbrev pub Ptr : Type 0
Ptr = ℕ

-- `NULL_LLO`
abbrev pub null : Ptr
null = 0

abbrev pub Heap : Type 0
Heap = Ptr → Ptr

-- `*LISTS_NEXT_REF(p, offsetof_next) = q`
unfoldable pub write : Heap → Ptr → Ptr → Heap
write h p q a = if a == p then q else h a

-- The search loop that `stack_remove` and `linked_remove` share: the pointers `previous` and
-- `start` with which it ends, begun at `prev` and `start`.
unfoldable pub find : ℕ → Heap → Ptr → Ptr → Ptr → Option (Ptr × Ptr)
find zero h prev start obj = none
find (suc k) h prev start obj = elim ((start == null) || (start == obj)) [
  | true ↦ some (prev, start)
  | false ↦ find k h start (h start) obj
]

-- The walk of `stack_add_tail`, and of `linked_add_tail` where it recomputes the tail: the last
-- object from `start` on, or `prev` if there is none.
unfoldable pub walk : ℕ → Heap → Ptr → Ptr → Option Ptr
walk zero h prev start = none
walk (suc k) h prev start = elim (start == null) [
  | true ↦ some prev
  | false ↦ walk k h start (h start)
]
