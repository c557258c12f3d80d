-- ===== src/Cbuffer/Tests.antt =====
-- A queue in a buffer of 16 words, and the theorems about it there.
use qoraal.Base.{
  Option, Bool, true, false, ◌-◌, ◌≡◌, ◌⊎◌, inl, refl, none, some, List, [], ◌∷◌, arith,
}
use qoraal.Cbuffer.{
  Queue, Platform, queue_init, enqueue, dequeue, back, alloc, link, free, free_memory, unlink,
  front, forwards, backwards,
}
use qoraal.Cbuffer.Validate.{
  validate, validate_forwards, conclude, tally, validate_item, next_linked, prev_linked, in_buffer,
  header_valid,
}
use qoraal.Cbuffer.Valid.{validate-IsQueue}
use qoraal.Cbuffer.Returns.{Checked, validate-Checked}
use qoraal.Cbuffer.Layout.{Block}
use qoraal.Cbuffer.Refine.{IsQueue, Enqueues, enqueue-Enqueues}
use qoraal.Cbuffer.Dequeue.{dequeue-IsQueue}
use qoraal.Cbuffer.Walk.{queue_init-IsQueue}

-- Pointers of 32 bits
abbrev platform : Platform
platform = record { header = 3; fill_pointer = 0xEEEEEEEE; header_pos = omega arith }

-- The words 100 to 115, and the queue at 40
abbrev raw : Queue
raw = record {
  self = 40;
  items = λ a. record { next = 0; prev = 0; dwsize = 0; magic = 0 };
  count = 0;
  cb = record { write = 0; read = 0; start = 0; end = 0 };
}

abbrev ap_result : Option (Queue × Bool) → Option Bool
ap_result none = none
ap_result (some (q, b)) = some b

abbrev fresh : Queue
fresh = queue_init platform raw 100 16

fresh-IsQueue : IsQueue platform fresh []
fresh-IsQueue = queue_init-IsQueue platform raw 100 16 (omega arith) (inl (omega arith))

-- Two items fit, a third does not until the first is gone.
runs :
    ((enqueue platform fresh 4).1 ≡ some 100)
    × ((enqueue platform (enqueue platform fresh 4).0 5).1 ≡ some 107)
    × ((enqueue platform (enqueue platform (enqueue platform fresh 4).0 5).0 2).1 ≡ none)
    × ((enqueue platform
          (dequeue platform (enqueue platform (enqueue platform fresh 4).0 5).0).0
          2).1
        ≡ some 100)
unfolding queue_init enqueue dequeue alloc link free free_memory unlink
runs = (refl, refl, refl, refl)

enqueue-Enqueues_example : Enqueues platform fresh [] 7 (enqueue platform fresh 4)
enqueue-Enqueues_example = enqueue-Enqueues platform fresh [] 4 fresh-IsQueue (omega arith)

abbrev one : Queue
one = (enqueue platform fresh 4).0

one-IsQueue : IsQueue platform one ((100, 7) ∷ [])
unfolding queue_init enqueue alloc
one-IsQueue = (enqueue-Enqueues platform fresh [] 4 fresh-IsQueue (omega arith)).0

dequeue-IsQueue_example :
    (◌≡◌ {A = List Block} ((100, 7) ∷ []) [] × (dequeue platform one ≡ (one, 0)))
    ⊎ ((x : Block) × (ys : List Block) × ((100, 7) ∷ [] ≡ x ∷ ys)
        × ((dequeue platform one).1 ≡ x.1)
        × IsQueue platform (dequeue platform one).0 ys)
dequeue-IsQueue_example = dequeue-IsQueue platform one ((100, 7) ∷ []) one-IsQueue

-- One word of 16 words is taken, and the check of them passes; a link that is wrong is found.
checks :
    (validate platform 17 one 100 16 ≡ some (one, true))
    × (ap_result (validate platform 17 (record one { self = 41 }) 100 16) ≡ some false)
unfolding validate validate_forwards conclude tally validate_item next_linked prev_linked in_buffer
    header_valid front back forwards backwards queue_init enqueue alloc link
checks = (refl, refl)

validate-IsQueue_example :
    validate platform 17 one one.cb.start (one.cb.end - one.cb.start) ≡ some (one, true)
unfolding queue_init enqueue alloc
validate-IsQueue_example =
    validate-IsQueue platform one ((100, 7) ∷ []) one-IsQueue (omega arith) 17 (omega arith)

validate-Checked_example :
    (s : Queue × Bool) × (validate platform 17 one 100 16 ≡ some s) × Checked platform one 16 s
validate-Checked_example = validate-Checked platform 17 one 100 16 (omega arith) (omega arith)
