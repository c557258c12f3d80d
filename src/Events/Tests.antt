-- ===== src/Events/Tests.antt =====
-- Two listeners of one event and one of another, and the theorem about them there.
use qoraal.Base.{◌≡◌, false, some, [], ◌∷◌, ◌++◌, ◌==◌, if◌then◌else◌, refl, arith}
use qoraal.Events.{Events, bit, clear, register, call_each, dispatch, thread}
use qoraal.Events.Order.{announces, dispatch-announces}

abbrev events : Events
events = record {
  handlers = λ i. if i == 1 then 20 ∷ 21 ∷ [] else if i == 4 then 22 ∷ [] else [];
  stop = false;
  calls = [];
}

-- The events 1 and 4 are pending.
called :
    dispatch (λ h eid s. s) 33 18 0 events
    ≡ some (record events { calls = (20, 1) ∷ (21, 1) ∷ (22, 4) ∷ [] })
unfolding dispatch bit clear call_each
called = refl

-- A listener that is registered again comes first.
called_later :
    thread (λ h eid s. s) 33 (2 ∷ 16 ∷ []) (some (register events 1 21))
    ≡ some (record (register events 1 21) { calls = (21, 1) ∷ (20, 1) ∷ (22, 4) ∷ [] })
unfolding thread dispatch bit clear call_each register
called_later = refl

dispatch-announces_example :
    dispatch (λ h eid s. s) 33 18 0 events
    ≡ some (record events { calls = events.calls ++ announces events.handlers 18 32 0 })
dispatch-announces_example =
    dispatch-announces (λ h eid s. s) events 18 33 (λ h eid s. refl) refl (omega arith)
      (omega arith)
