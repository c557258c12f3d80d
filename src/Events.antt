-- ===== src/Events.antt =====
-- src/svc/svc_events.c and include/qoraal/svc/svc_events.h: the dispatch of events to listeners. A
-- listener is named by the address of its structure, which holds its function and argument; the call
-- of it is the parameter `call`, which may change the module's state and so covers calls back into
-- it. The words of pending events, which the OS port's wait returns, are an argument of the thread,
-- and its watchdog handler is left out. The ghost field `calls` notes the calls of listeners.
pub mod Bits
pub mod Order
mod Tests
use qoraal.Base.{
  ℕ, zero, suc, ◌+◌, ◌-◌, ◌*◌, ◌/◌, ◌%◌, Bool, true, false, ◌||◌, Option, none, some, List, [], ◌∷◌,
  ◌++◌, ◌==◌, if◌then◌else◌, erase,
}
use qoraal.Tasks.{update}

-- `events & (1 << eid)`
unfoldable pub bit : (eid events : ℕ) → Bool
bit zero v = v % 2 == 1
bit (suc i) v = bit i (v / 2)

-- `events & ~(1 << eid)`
unfoldable pub clear : (eid events : ℕ) → ℕ
clear zero v = v - v % 2
clear (suc i) v = 2 * clear i (v / 2) + v % 2

-- The module's variables
pub record Events : Type 0 where
  pub handlers : ℕ → List ℕ
  pub stop : Bool
  pub calls : List (ℕ × ℕ)

-- `svc_events_register`
unfoldable pub register : Events → (id handler : ℕ) → Events
register s id h = record s { handlers = update s.handlers id (h ∷ erase h (s.handlers id)) }

-- `svc_events_unregister`
unfoldable pub unregister : Events → (id handler : ℕ) → Events
unregister s id h = record s { handlers = update s.handlers id (erase h (s.handlers id)) }

-- `svc_events_init`
unfoldable pub init : Events → Events
init s = record s { handlers = λ i. [] }

-- `svc_events_start`, up to the creation of the thread
unfoldable pub start : Events → Events
start s = record s { stop = false }

-- `svc_events_stop`, without the signal that wakes the thread
unfoldable pub stop_events : Events → Events
stop_events s = record s { stop = true }

module _ (call : (handler eid : ℕ) → Events → Events) where
  -- The loop over the listeners of an event
  unfoldable pub call_each : (eid : ℕ) → List ℕ → Events → Events
  call_each eid [] s = s
  call_each eid (h ∷ hs) s =
      call_each eid hs (call h eid (record s { calls = s.calls ++ ((h, eid) ∷ []) }))

  -- The loop over the pending events, from the identifier `eid` on, on fuel
  unfoldable pub dispatch : ℕ → (events eid : ℕ) → Events → Option Events
  dispatch zero events eid s = none
  dispatch (suc f) events eid s =
      let hit = dispatch f (clear eid events) (eid + 1) (call_each eid (s.handlers eid) s) in
      let miss = dispatch f events (eid + 1) s in
      if events == 0 || s.stop then some s else if bit eid events then hit else miss

  -- `svc_events_thread`, for the words that its waits return; a pass that ran out of fuel gives none.
  unfoldable pub thread : (fuel : ℕ) → List ℕ → Option Events → Option Events
  thread f words none = none
  thread f [] (some s) = some s
  thread f (events ∷ words) (some s) =
      let rest = thread f words (dispatch f events 0 s) in if s.stop then some s else rest
