-- ===== src/Services/Stop.antt =====
-- What a stop of src/svc/svc_services.c promises to the caller that waits.
use qoraal.Base.{
  ℕ, ◌≡◌, ◌⊎◌, inl, inr, refl, sym, ◌∙◌, true, false, ltb, ◌==◌, ==_refl, Bool-cases, ℤ, ◌==ℤ◌,
  ==ℤ_eq, ◌<ℤ?◌,
}
use qoraal.Services.{
  Services, Env, stopped, stopping, starting, started, e_unexp, service_stop, ctrl_stop, eok, edit,
  set_status, set_exit, set_cb, control, complete, changed, service_status, halt_plain, halt_thread,
  halt_service, stop,
}
use qoraal.Services.Quiet.{IsQuiet}
use qoraal.Services.Account.{
  After, After-refl, After-trans, After-edit, After-control, After-changed, After-complete,
  After-service_status,
}

-- What a stop does for its caller: it is told at once, of the service by its handle if that is
-- stopped already, or waits for the service's thread, or is refused.
pub data Stops (h cb id parm : ℕ) (s s' : Services) (res : ℤ) : Type 0 where
  tells_handle :
      (res ==ℤ eok) ≡ true
      → After h cb h parm 1 s s'
      → (s.list h).status ≡ stopped
      → (s'.list h).status ≡ stopped
      → Stops h cb id parm s s' res
  tells_stop :
      After h cb id parm 1 s s' → (s'.list h).status ≡ stopped → Stops h cb id parm s s' res
  waits_stop :
      (res ==ℤ eok) ≡ true
      → After h cb id parm 0 s s'
      → (s'.list h).status ≡ stopping
      → (s'.list h).cb ≡ cb
      → (s'.list h).cb_parm ≡ parm
      → Stops h cb id parm s s' res
  refuses_stop :
      (res ==ℤ eok) ≡ false
      → After h cb id parm 0 s s'
      → ((s'.list h).status ≡ (s.list h).status) ⊎ ((s'.list h).status ≡ started)
      → Stops h cb id parm s s' res

module _ (env : Env) (q : IsQuiet env) (h cb id parm : ℕ) where
  halt_plain-Stops :
      (s : Services)
      → (cb == 0) ≡ false
      → (s.list h).service ≡ id
      → Stops h cb id parm s (halt_plain env s h cb parm).0 (halt_plain env s h cb parm).1
  unfolding halt_plain
  halt_plain-Stops s n i =
      let s1 = set_status s h stopped in
      let a1 = After-edit env q h cb id parm s (record (s.list h) { status = stopped }) refl in
      let (a2, l2) = After-control env q h cb id parm s1 ctrl_stop (s.list h).parm in
      let c = control env s1 h ctrl_stop (s.list h).parm in
      let s3 = set_exit c.0 h c.1 in
      let a3 = After-edit env q h cb id parm c.0 (record (c.0.list h) { exit_status = c.1 }) refl in
      let b3 = After-trans env q h cb id parm (After-trans env q h cb id parm a1 a2) a3 in
      let (a4, l4) = After-complete env q h cb id parm s3 (s3.list h).service n (b3.service ∙ i) in
      let (a5, l5) =
        After-changed env q h cb id parm (complete env s3 cb (s3.list h).service parm) stopped in
      tells_stop (After-trans env q h cb id parm b3 (After-trans env q h cb id parm a4 a5))
        (rw (l5, l4, l2, ==_refl h) refl)

  halt_thread-Stops :
      (s : Services)
      → Stops h cb id parm s (halt_thread env s h cb parm).0 (halt_thread env s h cb parm).1
  unfolding halt_thread
  halt_thread-Stops s =
      let s1 = set_cb s h cb parm in
      let a1 =
        After-edit env q h cb id parm s (record (s.list h) { cb = cb; cb_parm = parm }) refl in
      let (a2, l2) = After-changed env q h cb id parm s1 stopping in
      let s2 = changed env s1 h stopping in
      let (a3, l3) = After-control env q h cb id parm s2 ctrl_stop (s2.list h).parm in
      let c = control env s2 h ctrl_stop (s2.list h).parm in
      let b3 = After-trans env q h cb id parm a1 (After-trans env q h cb id parm a2 a3) in
      elim (Bool-cases (c.1 ==ℤ eok)) [
        | inl e ↦ rw e (
            waits_stop e
              (After-trans env q h cb id parm b3 (
                After-edit env q h cb id parm c.0 (record (c.0.list h) { status = stopping }) refl))
              (rw (==_refl h) refl) (rw (l3, l2, ==_refl h) refl) (rw (l3, l2, ==_refl h) refl))
        | inr e ↦
            let a4 =
              After-edit env q h cb id parm c.0 (record (c.0.list h) { status = started }) refl in
            let (a5, l5) = After-changed env q h cb id parm (set_status c.0 h started) started in
            rw e (
              refuses_stop e
                (After-trans env q h cb id parm b3 (After-trans env q h cb id parm a4 a5))
                (inr (rw (l5, ==_refl h) refl)))
      ]

  Stops-After :
      {s t r : Services} {res : ℤ}
      → After h cb id parm 0 s t
      → After h cb h parm 0 s t
      → (t.list h).status ≡ (s.list h).status
      → Stops h cb id parm t r res
      → Stops h cb id parm s r res
  Stops-After a c e (tells_handle o b g f) =
      tells_handle o (After-trans env q h cb h parm c b) (sym e ∙ g) f
  Stops-After a c e (tells_stop b f) = tells_stop (After-trans env q h cb id parm a b) f
  Stops-After a c e (waits_stop o b f m p) = waits_stop o (After-trans env q h cb id parm a b) f m p
  Stops-After a c e (refuses_stop o b (inl f)) =
      refuses_stop o (After-trans env q h cb id parm a b) (inl (f ∙ e))
  Stops-After a c e (refuses_stop o b (inr f)) =
      refuses_stop o (After-trans env q h cb id parm a b) (inr f)

  halt_service-Stops :
      (s : Services)
      → (cb == 0) ≡ false
      → (s.list h).service ≡ id
      → Stops h cb id parm s (halt_service env s h cb parm).0 (halt_service env s h cb parm).1
  unfolding halt_service
  halt_service-Stops s n i =
      let d = record (s.list h) { exit_status = env.clock s } in
      let s1 = edit s h d in
      let a = After-edit env q h cb id parm s d refl in
      let c = After-edit env q h cb h parm s d refl in
      let keeps : (s1.list h).status ≡ (s.list h).status = rw (==_refl h) refl in
      elim (Bool-cases ((s1.list h).run == 0)) [
        | inl e ↦ simp e (Stops-After a c keeps (halt_plain-Stops s1 n (a.service ∙ i)))
        | inr e ↦ simp e (Stops-After a c keeps (halt_thread-Stops s1))
      ]

  -- The stop of a service that is disabled or stopping.
  refuse_stop :
      (s : Services)
      → let s2 = set_cb s h cb parm in
        Stops h cb id parm s
          (changed env (control env s2 h ctrl_stop (s2.list h).parm).0 h stopped)
          e_unexp
  refuse_stop s =
      let s2 = set_cb s h cb parm in
      let a1 =
        After-edit env q h cb id parm s (record (s.list h) { cb = cb; cb_parm = parm }) refl in
      let (a2, l2) = After-control env q h cb id parm s2 ctrl_stop (s2.list h).parm in
      let (a3, l3) =
        After-changed env q h cb id parm (control env s2 h ctrl_stop (s2.list h).parm).0 stopped in
      refuses_stop refl (After-trans env q h cb id parm a1 (After-trans env q h cb id parm a2 a3))
        (inl (rw (l3, l2, ==_refl h) refl))

  service_stop-Stops :
      (s : Services)
      → (cb == 0) ≡ false
      → (s.list h).service ≡ id
      → Stops h cb id parm s (service_stop env s h cb parm).0 (service_stop env s h cb parm).1
  unfolding service_stop
  service_stop-Stops s n i =
      let d = record (s.list h) { cb = 0 } in
      let s0 = edit s h d in
      let a0 = After-edit env q h cb id parm s d refl in
      let (a1, l1, r) = After-service_status env q h cb id parm s0 in
      let s1 = (service_status env s0 h).0 in
      let v = (service_status env s0 h).1 in
      let b = After-trans env q h cb id parm a0 a1 in
      let (c1, m1, r1) = After-service_status env q h cb h parm s0 in
      let c = After-trans env q h cb h parm (After-edit env q h cb h parm s d refl) c1 in
      let keeps : (s1.list h).status ≡ (s.list h).status = rw (l1, ==_refl h) refl in
      let known : v ≡ (s.list h).status = r ∙ rw (==_refl h) refl in
      elim (Bool-cases ((s0.list h).ctrl == 0)) [
        | inl g ↦ rw g (refuses_stop refl a0 (inl (rw (==_refl h) refl)))
        | inr g ↦ elim (Bool-cases (v ==ℤ stopped)) [
          | inl k ↦
              let (a2, l2) = After-complete env q h cb h parm s1 h n refl in
              let was : (s.list h).status ≡ stopped = sym known ∙ ==ℤ_eq _ _ k in
              rw (g, k)
                (tells_handle refl (After-trans env q h cb h parm c a2) was (rw l2 (keeps ∙ was)))
          | inr k ↦ elim (Bool-cases (v <ℤ? starting)) [
            | inr m ↦ rw (g, k, m) (Stops-After b c keeps (halt_service-Stops s1 n (b.service ∙ i)))
            | inl m ↦ rw (g, k, m) (Stops-After b c keeps (refuse_stop s1))
          ]
        ]
      ]

  -- A stop with a caller to tell is answered in one of four ways, if the functions of services,
  -- listeners and callers do not call back and the reported status is the recorded one. It succeeds
  -- for a service that is stopped already, and the caller is told once, but of the service's handle
  -- in place of its id; the caller is told once, by the id, of a service that is now stopped; it
  -- succeeds and the caller is not told yet, but recorded with the service, which is stopping; or it
  -- fails and the caller is not told, and the service has kept its status or is started. No other
  -- service, listener or count changes.
  pub stop-Stops :
      (s : Services)
      → (cb == 0) ≡ false
      → (s.list h).service ≡ id
      → Stops h cb id parm s (stop env s h cb parm).0 (stop env s h cb parm).1
  unfolding stop
  stop-Stops s n i = elim (Bool-cases s.present) [
    | inr e ↦ simp e (refuses_stop refl (After-refl env q h cb id parm s) (inl refl))
    | inl e ↦ elim (Bool-cases (ltb h s.count)) [
      | inr f ↦ simp (e, f) (refuses_stop refl (After-refl env q h cb id parm s) (inl refl))
      | inl f ↦ simp (e, f) (service_stop-Stops s n i)
    ]
  ]
