-- ===== src/Mlog/Tests.antt =====
-- A log in a buffer of 16 words, and the theorem about it there.
use qoraal.Base.{◌<◌, none, ◌==◌, if◌then◌else◌, ◌≡◌, ◌⊎◌, inl, refl, true, some, [], ◌∷◌, arith}
use qoraal.Cbuffer.{
  Queue, Platform, queue_init, enqueue, dequeue, alloc, link, free, free_memory, unlink,
}
use qoraal.Cbuffer.Refine.{IsQueue, enqueue-Enqueues}
use qoraal.Cbuffer.Walk.{queue_init-IsQueue}
use qoraal.Mlog.{
  Mlog, debug, trim, get_cqueue, print, written, evict, reserve, append_to, append, inst, set_inst,
  mlog_append, mlog_dbg,
}
use qoraal.Cbuffer.Returns.{Checked}
use qoraal.Services.Control.{meets}
use qoraal.Mlog.Setup.{Layout, words, set_up, mlog_init}
use qoraal.Mlog.Restart.{IsPlaced, set_up-Checked, mlog_init-IsQueue}
use qoraal.Mlog.Iterate.{is_kind, mlog_get}
use qoraal.Mlog.Newest.{gather_all, gather_all-IsQueue, mlog_get-IsQueue}
use qoraal.Mlog.Append.{Reserves, reserve-Reserves}

abbrev platform : Platform
platform = record { header = 3; fill_pointer = 0xEEEEEEEE; header_pos = omega arith }

abbrev raw : Queue
raw = record {
  self = 40;
  items = λ a. record { next = 0; prev = 0; dwsize = 0; magic = 0 };
  count = 0;
  cb = record { write = 0; read = 0; start = 0; end = 0 };
}

abbrev fresh : Queue
fresh = queue_init platform raw 100 16

-- A queue with an item of seven words
abbrev one : Queue
one = (enqueue platform fresh 4).0

one-IsQueue : IsQueue platform one ((100, 7) ∷ [])
unfolding queue_init enqueue alloc
one-IsQueue =
    (enqueue-Enqueues platform fresh [] 4
      (queue_init-IsQueue platform raw 100 16 (omega arith) (inl (omega arith))) (omega arith)).0

-- An item of thirteen words takes its place.
makes_room : (reserve platform one 10).1 ≡ some 100
unfolding reserve evict queue_init enqueue dequeue alloc link free free_memory unlink
makes_room = refl

reserve-Reserves_example : Reserves platform 10 one ((100, 7) ∷ []) 13 (reserve platform one 10)
reserve-Reserves_example =
    reserve-Reserves platform one ((100, 7) ∷ []) 10 one-IsQueue (omega arith)

abbrev mlog : Mlog
mlog = record {
  started = true;
  debug_queue = some fresh;
  asserts_queue = none;
  messages = λ a. record { kind = 0; id = 0; cnt = 0; date = 0; time = 0; len = 0; text = [] };
  count = 7;
}

-- "a\r\n" is logged without the end of its line.
appended :
    (mlog_dbg platform 16 mlog 1 2 3 4 (some (97 ∷ 13 ∷ 10 ∷ []))).0.messages 100
    ≡ record { kind = 1; id = 2; cnt = 7; date = 3; time = 4; len = 2; text = 97 ∷ [] }
unfolding mlog_dbg mlog_append append append_to written print trim get_cqueue inst set_inst reserve
    evict queue_init enqueue alloc link
appended = refl

-- Logs in structures of 544 bytes, with 128 words for their messages
abbrev layout : Layout 3
layout = record {
  size = 32;
  offset = 8;
  below = omega arith;
  room = omega arith;
  size_max = omega arith;
}

abbrev placed : Queue
placed = queue_init platform (record raw { self = 1000 }) 1008 128

abbrev logged : Queue
logged = (enqueue platform (enqueue platform placed 4).0 5).0

placed-IsQueue : IsQueue platform placed []
placed-IsQueue =
    queue_init-IsQueue platform (record raw { self = 1000 }) 1008 128 (omega arith)
      (inl (omega arith))

logged-IsQueue : IsQueue platform logged ((1008, 7) ∷ (1015, 8) ∷ [])
unfolding queue_init enqueue alloc
logged-IsQueue =
    (enqueue-Enqueues platform (enqueue platform placed 4).0 ((1008, 7) ∷ []) 5
      (enqueue-Enqueues platform placed [] 4 placed-IsQueue (omega arith)).0 (omega arith)).0

logged-IsPlaced : IsPlaced platform layout logged 544
unfolding queue_init enqueue alloc words
logged-IsPlaced = (omega arith, omega arith, refl, refl)

mlog_init-IsQueue_example :
    mlog_init platform layout 545 mlog logged 544 logged 544
    ≡ some (record mlog { started = true; debug_queue = some logged; asserts_queue = some logged })
mlog_init-IsQueue_example =
    mlog_init-IsQueue platform layout 545 mlog logged ((1008, 7) ∷ (1015, 8) ∷ []) 544 logged
      ((1008, 7) ∷ (1015, 8) ∷ []) 544 logged-IsQueue logged-IsPlaced logged-IsQueue logged-IsPlaced
      (omega arith) (omega arith)

logged-pos : 0 < logged.cb.start
unfolding queue_init enqueue alloc
logged-pos = omega arith

-- A log whose second message is of type 5, and the first of type 2
abbrev typed : Mlog
typed = record mlog {
  debug_queue = some logged;
  messages = λ a. record (mlog.messages a) { kind = if a == 1008 then 2 else 5 };
}

gather_all-IsQueue_example : gather_all platform 3 typed debug 4 ≡ some (1015 ∷ [])
unfolding is_kind meets get_cqueue inst
gather_all-IsQueue_example =
    gather_all-IsQueue platform typed debug logged ((1008, 7) ∷ (1015, 8) ∷ []) refl logged-IsQueue
      logged-pos 3 4 (omega arith)

-- The memory of a log that never was set up
set_up-Checked_example :
    (q' : Queue) × (set_up platform layout 545 raw 544 ≡ some q')
    × (IsQueue platform q' [] ⊎ Checked platform raw (words platform layout 544) (q', true))
unfolding words
set_up-Checked_example = set_up-Checked platform layout 545 raw 544 (omega arith) (omega arith)

mlog_get-IsQueue_example : mlog_get typed debug 1 ≡ some 1008
unfolding get_cqueue inst
mlog_get-IsQueue_example =
    mlog_get-IsQueue platform typed debug logged ((1008, 7) ∷ (1015, 8) ∷ []) refl logged-IsQueue
      logged-pos 1
