-- ===== src/Lists/Tests.antt =====
-- The list functions at a chain of three objects, and the theorems about them there.
use mathlib.Core.Option
use qoraal.Base.{◌≡◌, refl, List, [], ◌∷◌, some, arith}
use qoraal.Lists.{Ptr, null, Heap, write, find}
use qoraal.Lists.Seg.{SameOutside}
use qoraal.Lists.Stack
use qoraal.Lists.Stack.{Stack}
use qoraal.Lists.Stack.Refine.{IsStack, add_head-IsStack}
use qoraal.Lists.Linked
use qoraal.Lists.Linked.{Linked}
use qoraal.Lists.Linked.Refine.{IsLinked}
use qoraal.Lists.Linked.Removal
use qoraal.Lists.Linked.Removal.{remove-IsLinked}
use qoraal.Lists.Fifo.{Fifo}
use qoraal.Lists.Fifo.Refine.{IsFifo}

-- 5 → 7 → 9
abbrev chain : Heap
chain = write (write (λ _. null) 5 7) 7 9

abbrev objects : List Ptr
objects = 5 ∷ 7 ∷ 9 ∷ []

abbrev stack : Stack
stack = record { head = 5 }

abbrev linked : Linked
linked = record { head = 5; tail = 9 }

abbrev fifo : Fifo
fifo = record { head = 5; tail = 9 }

stack-IsStack : IsStack chain stack objects
unfolding write
stack-IsStack = ground arith

linked-IsLinked : IsLinked chain linked objects
linked-IsLinked = record { chain = stack-IsStack; last = refl }

fifo-IsFifo : IsFifo chain fifo objects
fifo-IsFifo = record { chain = stack-IsStack; last = refl }

-- A middle object is unlinked and its neighbours joined.
remove_middle :
    Option.map {B = Ptr × Ptr × Ptr × Ptr}
      (λ (h, ll, obj). (ll.head, h 5, h 9, obj))
      (Stack.remove 4 chain stack 7)
    ≡ some (5, 9, 0, 7)
unfolding Stack.remove find write
remove_middle = refl

add_head-IsStack_example :
    let (h, ll) = Stack.add_head chain stack 3 in
    IsStack h ll (3 ∷ objects) × SameOutside (3 ∷ []) chain h
add_head-IsStack_example = add_head-IsStack chain stack 3 objects stack-IsStack (omega arith) refl

remove-IsLinked_example : Removal.Removed chain objects 9 (Linked.remove 4 chain linked 9)
remove-IsLinked_example =
    remove-IsLinked 4 chain linked 9 objects linked-IsLinked (omega arith) (omega arith)
