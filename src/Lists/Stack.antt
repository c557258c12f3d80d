-- ===== src/Lists/Stack.antt =====
-- The `stack_` functions of include/qoraal/common/lists.h and lists_inline.h.
pub mod Refine
use qoraal.Base.{◌>>=◌, ℕ, Option, some, not, ◌==◌, if◌then◌else◌}
use qoraal.Lists.{Ptr, null, Heap, write, find, walk}

-- `stack_t`
pub record Stack : Type 0 where
  pub head : Ptr

unfoldable pub init : Stack
init = record { head = null }

unfoldable pub next : Heap → Ptr → Ptr
next h obj = h obj

unfoldable pub add_head : Heap → Stack → Ptr → Heap × Stack
add_head h ll obj = (
  if not (ll.head == null) then write h obj ll.head else write h obj null,
  record ll { head = obj },
)

unfoldable pub add_next : Heap → Ptr → Ptr → Heap
add_next h obj add = write (write h add (h obj)) obj add

unfoldable pub add_tail : ℕ → Heap → Stack → Ptr → Option (Heap × Stack)
unfolding add_next add_head
add_tail k h ll add = do
  previous ← walk k h null ll.head
  if not (previous == null) then some (add_next h previous add, ll) else some (add_head h ll add)

unfoldable pub remove_head : Heap → Stack → Stack
remove_head h ll = if not (ll.head == null) then record ll { head = h ll.head } else ll

unfoldable pub remove_next : Heap → Ptr → Heap
remove_next h obj = write h obj (if not (h obj == null) then h (h obj) else null)

-- The result is the object, or null if it was not in the list.
unfoldable pub remove : ℕ → Heap → Stack → Ptr → Option (Heap × Stack × Ptr)
unfolding remove_head remove_next
remove k h ll obj = do
  (previous, start) ← find k h null ll.head obj
  if start == obj
      then (if previous == null
          then some (h, remove_head h ll, obj)
          else some (remove_next h previous, ll, obj))
      else some (h, ll, null)
