-- ===== src/Lists/Fifo.antt =====
-- The `fifo_` functions of include/qoraal/common/lists.h.
pub mod Refine
use qoraal.Base.{Bool, ◌==◌, if◌then◌else◌, not}
use qoraal.Lists.{Ptr, null, Heap, write}

-- `fifo_t`
pub record Fifo : Type 0 where
  pub head : Ptr
  pub tail : Ptr

unfoldable pub init : Fifo
init = record { head = null; tail = null }

unfoldable pub is_empty : Fifo → Bool
is_empty ll = ll.head == null

unfoldable pub queue : Heap → Fifo → Ptr → Heap × Fifo
queue h ll add =
    let h' = write h add null in
    if ll.head == null
    then (h', record { head = add; tail = add })
    else (write h' ll.tail add, record ll { tail = add })

-- The result is the object, or null if the queue was empty.
unfoldable pub dequeue : Heap → Fifo → Fifo × Ptr
dequeue h ll =
    let head : Ptr = ll.head in
    if not (head == null)
    then (let head' : Ptr = h head in
        (
          if head' == null
              then record { head = head'; tail = null }
              else record ll { head = head' },
          head,
        ))
    else (ll, head)
