-- ===== src/Events/Order.antt =====
-- The order in which src/svc/svc_events.c calls the listeners of pending events.
use qoraal.Base.{
  ℕ, zero, suc, ◌+◌, ◌^◌, ◌≤◌, ◌<◌, ◌≡◌, inl, inr, refl, sym, ap, ◌∙◌, Bool, true, false, some,
  List, [], ◌∷◌, ◌++◌, ◌==◌, ==_eq, if◌then◌else◌, Bool-cases, arith,
}
use mathlib.Core.List.{append_assoc, append-nil}
use qoraal.Events.{Events, bit, clear, call_each, dispatch}
use qoraal.Events.Bits.{bit-clear, bit-clear_other, clear_le, no_bit, bit_zero}

-- The calls of the listeners of an event, in order.
abbrev pub rings : (eid : ℕ) → List ℕ → List (ℕ × ℕ)
rings eid [] = []
rings eid (h ∷ hs) = (h, eid) ∷ rings eid hs

-- The calls for the `n` events from `eid` on: of each that is pending, in ascending order.
abbrev pub announces : (handlers : ℕ → List ℕ) → (events n eid : ℕ) → List (ℕ × ℕ)
announces handlers events zero eid = []
announces handlers events (suc n) eid =
    (if bit eid events then rings eid (handlers eid) else [])
    ++ announces handlers events n (eid + 1)

announces_none :
    (handlers : ℕ → List ℕ) (events n eid : ℕ)
    → ((i : ℕ) → eid ≤ i → bit i events ≡ false)
    → announces handlers events n eid ≡ []
announces_none handlers events zero eid q = refl
announces_none handlers events (suc n) eid q =
    rw (q eid (omega arith)) (announces_none handlers events n (eid + 1) (λ i l. q i (omega arith)))

module _ (call : (handler eid : ℕ) → Events → Events) where
  -- Listeners that leave the module alone.
  abbrev pub IsQuiet : Type 0
  IsQuiet = (h eid : ℕ) (s : Events) → call h eid s ≡ s

  call_each-rings :
      (q : IsQuiet) (eid : ℕ) (hs : List ℕ) (s : Events)
      → call_each call eid hs s ≡ record s { calls = s.calls ++ rings eid hs }
  unfolding call_each
  call_each-rings q eid [] s = rw (append-nil s.calls) refl
  call_each-rings q eid (h ∷ hs) s =
      let s1 : Events = record s { calls = s.calls ++ ((h, eid) ∷ []) } in
      rw (q h eid s1) (
        call_each-rings q eid hs s1 ∙ rw (append_assoc s.calls ((h, eid) ∷ []) (rings eid hs)) refl)

  -- A running dispatcher
  abbrev running : (ℕ → List ℕ) → List (ℕ × ℕ) → Events
  running handlers calls = record { handlers = handlers; stop = false; calls = calls }

  dispatch_from :
      (q : IsQuiet) (n f v events eid : ℕ) (hs : ℕ → List ℕ) (cs : List (ℕ × ℕ))
      → n < f
      → ((i : ℕ) → i < eid → bit i v ≡ false)
      → ((i : ℕ) → eid ≤ i → bit i v ≡ bit i events)
      → v < 2 ^ (eid + n)
      → dispatch call f v eid (running hs cs) ≡ some (running hs (cs ++ announces hs events n eid))
  unfolding dispatch
  dispatch_from q n zero v events eid hs cs l low high b = absurd (omega arith)
  dispatch_from q zero (suc f) v events eid hs cs l low high b =
      let e : eid + 0 ≡ eid = omega arith in
      let z : v ≡ 0 = no_bit eid v (rw (sym e) b) low in rw (z, append-nil cs) refl
  dispatch_from q (suc n) (suc f) v events eid hs cs l low high b = elim (Bool-cases (v == 0)) [
    | inl z ↦
        let e : v ≡ 0 = ==_eq v 0 z in
        let none_left : announces hs events (suc n) eid ≡ [] =
          announces_none hs events (suc n) eid (λ i k. sym (high i k) ∙ rw e (bit_zero i)) in
        rw (z, none_left, append-nil cs) refl
    | inr z ↦
        let e : eid + suc n ≡ eid + 1 + n = omega arith in
        let b' : v < 2 ^ (eid + 1 + n) = rw (sym e) b in
        elim (Bool-cases (bit eid v)) [
          | inr m ↦
              let r : bit eid events ≡ false = sym (high eid (omega arith)) ∙ m in
              rw (z, m, r)
                (dispatch_from q n f v events (eid + 1) hs cs (omega arith)
                  (λ i k. elim (Bool-cases (i == eid)) [
                    | inl c ↦ rw (==_eq i eid c) m
                    | inr c ↦ low i (ground arith)
                  ])
                  (λ i k. high i (omega arith)) b')
          | inl m ↦
              let r : bit eid events ≡ true = sym (high eid (omega arith)) ∙ m in
              rw (z, m, r, call_each-rings q eid (hs eid) (running hs cs))
                (dispatch_from q n f (clear eid v) events (eid + 1) hs (cs ++ rings eid (hs eid))
                    (omega arith)
                    (λ i k. elim (Bool-cases (i == eid)) [
                      | inl c ↦ rw (==_eq i eid c) (bit-clear eid v)
                      | inr c ↦ bit-clear_other i eid v c ∙ low i (ground arith)
                    ])
                    (λ i k. bit-clear_other i eid v (ground arith) ∙ high i (omega arith))
                    (omega (arith, clear_le eid v, b'))
                  ∙ rw (append_assoc cs (rings eid (hs eid)) (announces hs events n (eid + 1)))
                      refl)
        ]
  ]

  -- A pass over a word of pending events ends after one round for each of its 32 bits and one more:
  -- the listeners of each pending event have then been called, once each, in ascending order of the
  -- events and in the order of the list of each, if the dispatcher is not being stopped and the
  -- listeners leave the module alone.
  pub dispatch-announces :
      (s : Events) (events f : ℕ)
      → IsQuiet
      → s.stop ≡ false
      → events < 2 ^ 32
      → 32 < f
      → dispatch call f events 0 s
        ≡ some (record s { calls = s.calls ++ announces s.handlers events 32 0 })
  dispatch-announces s events f q p b l =
      ap (λ (x : Bool). dispatch call f events 0 (record s { stop = x })) p
      ∙ dispatch_from q 32 f events events 0 s.handlers s.calls l (λ i k. absurd (omega arith))
          (λ i k. refl) b
      ∙ ap
          (λ (x : Bool).
            some (record s { stop = x; calls = s.calls ++ announces s.handlers events 32 0 }))
          (sym p)
