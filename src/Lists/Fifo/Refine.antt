-- ===== src/Lists/Fifo/Refine.antt =====
-- The `fifo_` functions against the queue of the objects, oldest first.
use qoraal.Base.{
  ◌≡◌, ◌≢◌, refl, sym, false, List, [], ◌∷◌, ◌++◌, arith, has, has-last_or, last_or, last_or-append,
}
use qoraal.Lists.{Ptr, null, Heap, write}
use qoraal.Lists.Seg.{Seg, SameOutside, write_here, Seg-write, Seg-append}
use qoraal.Lists.Fifo.{Fifo, queue, dequeue}

-- The anchor of `xs`: the chain from the head, and its last object.
pub record IsFifo (h : Heap) (ll : Fifo) (xs : List Ptr) : Type 0 where
  pub chain : Seg h ll.head xs
  pub last : ll.tail ≡ last_or null xs

-- `fifo_queue` puts a new object behind the others, and writes only the links of the queue's own
-- objects and of the new one.
pub queue-IsFifo :
    (h : Heap) (ll : Fifo) (add : Ptr) (xs : List Ptr)
    → IsFifo h ll xs
    → add ≢ null
    → has add xs ≡ false
    → (h' : Heap) × (ll' : Fifo) × (queue h ll add ≡ (h', ll'))
      × IsFifo h' ll' (xs ++ (add ∷ []))
      × SameOutside (add ∷ xs) h h'
unfolding queue write
queue-IsFifo h ll add [] is ne out = (
  write h add null,
  record { head = add; tail = add },
  ground (arith, is.chain),
  record { chain = (refl, ne, refl, write_here h add null); last = refl },
  ground arith,
)
queue-IsFifo h ll add (x ∷ xs) is ne out =
    let g : Heap = write h add null in
    (
      write g (last_or x xs) add,
      record ll { tail = add },
      ground (arith, is.chain, is.last),
      record {
        chain =
            Seg-append g ll.head add x xs (Seg-write h ll.head (x ∷ xs) add null is.chain out) ne
              out (write_here h add null);
        last = sym (last_or-append x add xs);
      },
      λ a o. ground (arith, has-last_or x xs),
    )

-- What a queue of objects gives up: the oldest, or null.
abbrev pub oldest : List Ptr → Ptr
oldest [] = null
oldest (x ∷ xs) = x

abbrev pub rest : List Ptr → List Ptr
rest [] = []
rest (x ∷ xs) = xs

-- `fifo_dequeue` returns the oldest object, or null from an empty queue, and leaves the others.
pub dequeue-IsFifo :
    (h : Heap) (ll : Fifo) (xs : List Ptr)
    → IsFifo h ll xs
    → let (ll', head) = dequeue h ll in (head ≡ oldest xs) × IsFifo h ll' (rest xs)
unfolding dequeue
dequeue-IsFifo h ll [] is = ground (arith, is.chain, is.last)
dequeue-IsFifo h ll (x ∷ []) is = ground (arith, is.chain, is.last)
dequeue-IsFifo h ll (x ∷ y ∷ ys) is = ground (arith, is.chain, is.last)
