-- ===== src/Lists/Linked.antt =====
-- The `linked_` functions of include/qoraal/common/lists.h and lists_inline.h.
pub mod Refine
pub mod Removal
use qoraal.Base.{◌>>=◌, ℕ, Option, some, ◌==◌, if◌then◌else◌, not}
use qoraal.Lists.{Ptr, null, Heap, write, find, walk}

-- `linked_t`
pub record Linked : Type 0 where
  pub head : Ptr
  pub tail : Ptr

unfoldable pub init : Linked
init = record { head = null; tail = null }

unfoldable pub add_head : Heap → Linked → Ptr → Heap × Linked
add_head h ll add =
    if ll.head == null
    then (write h add null, record { head = add; tail = add })
    else (write h add ll.head, record ll { head = add })

-- Both lists are returned: the one that grows, and `add`, which is left empty.
unfoldable pub add_head_list : Heap → Linked → Linked → Heap × Linked × Linked
add_head_list h ll add =
    if ll.head == null
    then (h, record { head = add.head; tail = add.tail }, record { head = null; tail = null })
    else (
      write h add.tail ll.head,
      record ll { head = add.head },
      record { head = null; tail = null },
    )

-- A list whose tail is null but whose head is not has its tail found again by a walk.
unfoldable pub add_tail : ℕ → Heap → Linked → Ptr → Option (Heap × Linked)
add_tail k h ll add =
    let h' = write h add null in
    if ll.head == null then some (h', record { head = add; tail = add }) else (do
      tail ← if ll.tail == null then walk k h' ll.tail ll.head else some ll.tail
      some (write h' tail add, record ll { tail = add }))

unfoldable pub add_next : Heap → Linked → Ptr → Ptr → Heap × Linked
add_next h ll obj add =
    let h' = write (write h add (h obj)) obj add in
    if obj == ll.tail then (write h' add null, record ll { tail = add }) else (h', ll)

unfoldable pub remove_head : Heap → Linked → Linked
remove_head h ll =
    let head : Ptr = if not (ll.head == null) then h ll.head else ll.head in
    if head == null then record { head = head; tail = null } else record ll { head = head }

unfoldable pub remove_next : Heap → Linked → Ptr → Heap × Linked
remove_next h ll obj =
    let next : Ptr = h obj in
    if not (next == null)
    then (let h' : Heap = write h obj (h next) in
        (h', if h' obj == null then record ll { tail = obj } else ll))
    else (h, ll)

-- The result is the object, or null if it was not in the list.
unfoldable pub remove : ℕ → Heap → Linked → Ptr → Option (Heap × Linked × Ptr)
unfolding remove_head remove_next
remove k h ll obj = do
  (previous, start) ← find k h null ll.head obj
  if start == obj
      then (if previous == null
          then some (h, remove_head h ll, obj)
          else (let (h', ll') = remove_next h ll previous in some (h', ll', obj)))
      else some (h, ll, null)
