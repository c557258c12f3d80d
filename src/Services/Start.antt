-- ===== src/Services/Start.antt =====
-- What a start of src/svc/svc_services.c promises to the caller that waits.
use qoraal.Base.{
  ℕ, ◌≡◌, ◌⊎◌, inl, inr, refl, sym, ◌∙◌, true, false, ◌&&◌, ◌||◌, not, ltb, ◌==◌, ==_refl,
  Bool-cases, ℤ, ◌==ℤ◌, ==ℤ_eq,
}
use qoraal.Services.{
  Services, Env, disabled, stopped, stopping, starting, started, resident, ctrl_start, eok, edit,
  set_status, set_exit, set_cb, control, complete, changed, service_status, launch_plain,
  launch_thread, launch, service_start, start,
}
use qoraal.Services.Quiet.{IsQuiet}
use qoraal.Services.Account.{
  After, After-refl, After-trans, After-edit, After-control, After-changed, After-complete,
  After-service_status,
}

-- What a start does for its caller: it is told at once, or waits for the service's thread, or is
-- refused.
pub data Starts (h cb id parm : ℕ) (s s' : Services) (res : ℤ) : Type 0 where
  tells_start :
      (res ==ℤ eok) ≡ true
      → After h cb id parm 1 s s'
      → (s'.list h).status ≡ started
      → Starts h cb id parm s s' res
  waits_start :
      (res ==ℤ eok) ≡ true
      → After h cb id parm 0 s s'
      → (s'.list h).status ≡ starting
      → (s'.list h).cb ≡ cb
      → (s'.list h).cb_parm ≡ parm
      → Starts h cb id parm s s' res
  refuses_start :
      (res ==ℤ eok) ≡ false
      → After h cb id parm 0 s s'
      → ((s'.list h).status ≡ (s.list h).status) ⊎ ((s'.list h).status ≡ stopped)
      → Starts h cb id parm s s' res

module _ (env : Env) (q : IsQuiet env) (h cb id parm : ℕ) where
  Starts-After :
      {s t r : Services} {res : ℤ}
      → After h cb id parm 0 s t
      → (t.list h).status ≡ (s.list h).status
      → Starts h cb id parm t r res
      → Starts h cb id parm s r res
  Starts-After a e (tells_start o b f) = tells_start o (After-trans env q h cb id parm a b) f
  Starts-After a e (waits_start o b f c p) =
      waits_start o (After-trans env q h cb id parm a b) f c p
  Starts-After a e (refuses_start o b (inl f)) =
      refuses_start o (After-trans env q h cb id parm a b) (inl (f ∙ e))
  Starts-After a e (refuses_start o b (inr f)) =
      refuses_start o (After-trans env q h cb id parm a b) (inr f)

  launch_plain-Starts :
      (s : Services)
      → (cb == 0) ≡ false
      → (s.list h).service ≡ id
      → Starts h cb id parm s (launch_plain env s h cb parm).0 (launch_plain env s h cb parm).1
  unfolding launch_plain
  launch_plain-Starts s n i =
      let s1 = set_status (set_exit s h eok) h started in
      let a1 = After-edit env q h cb id parm s (record (s.list h) { exit_status = eok }) refl in
      let a2 =
        After-edit env q h cb id parm (set_exit s h eok)
          (record ((set_exit s h eok).list h) { status = started }) refl in
      let b2 = After-trans env q h cb id parm a1 a2 in
      let (a3, l3) = After-complete env q h cb id parm s1 (s1.list h).service n (b2.service ∙ i) in
      let (a4, l4) =
        After-changed env q h cb id parm (complete env s1 cb (s1.list h).service parm) started in
      tells_start refl (After-trans env q h cb id parm (After-trans env q h cb id parm b2 a3) a4)
        (rw (l4, l3, ==_refl h) refl)

  launch_thread-Starts :
      (s : Services)
      → Starts h cb id parm s (launch_thread env s h cb parm).0 (launch_thread env s h cb parm).1
  unfolding launch_thread
  launch_thread-Starts s =
      let s1 = set_cb s h cb parm in
      let a1 =
        After-edit env q h cb id parm s (record (s.list h) { cb = cb; cb_parm = parm }) refl in
      let (a2, l2) = After-changed env q h cb id parm s1 starting in
      let s2 = changed env s1 h starting in
      let b2 = After-trans env q h cb id parm a1 a2 in
      let d = record (s2.list h) { status = stopped; active = false } in
      let a3 = After-edit env q h cb id parm s2 d refl in
      let (a4, l4) = After-changed env q h cb id parm (edit s2 h d) stopped in
      elim (Bool-cases (env.create h s2 ==ℤ eok)) [
        | inl e ↦ rw e (
            waits_start e
              (After-trans env q h cb id parm b2 (
                After-edit env q h cb id parm s2
                  (record (s2.list h) { status = starting; active = true }) refl))
              (rw (==_refl h) refl) (rw (l2, ==_refl h) refl) (rw (l2, ==_refl h) refl))
        | inr e ↦ rw e (
            refuses_start e
              (After-trans env q h cb id parm b2 (After-trans env q h cb id parm a3 a4))
              (inr (rw (l4, ==_refl h) refl)))
      ]

  launch-Starts :
      (s : Services)
      → (cb == 0) ≡ false
      → (s.list h).service ≡ id
      → Starts h cb id parm s (launch env s h cb parm).0 (launch env s h cb parm).1
  unfolding launch
  launch-Starts s n i =
      let s1 = set_exit s h (env.clock s) in
      let a1 =
        After-edit env q h cb id parm s (record (s.list h) { exit_status = env.clock s }) refl in
      let c = control env s1 h ctrl_start (s1.list h).parm in
      let (a2, l2) = After-control env q h cb id parm s1 ctrl_start (s1.list h).parm in
      let b2 = After-trans env q h cb id parm a1 a2 in
      let keeps : (c.0.list h).status ≡ (s.list h).status = rw (l2, ==_refl h) refl in
      elim (Bool-cases (c.1 ==ℤ eok)) [
        | inr e ↦
            let (a3, l3) = After-changed env q h cb id parm c.0 stopped in
            rw e (refuses_start e (After-trans env q h cb id parm b2 a3) (inl (rw l3 keeps)))
        | inl e ↦ elim (Bool-cases ((c.0.list h).run == 0)) [
          | inl f ↦ rw (e, f) (Starts-After b2 keeps (launch_plain-Starts c.0 n (b2.service ∙ i)))
          | inr f ↦ rw (e, f) (Starts-After b2 keeps (launch_thread-Starts c.0))
        ]
      ]

  service_start-Starts :
      (s : Services)
      → (cb == 0) ≡ false
      → (s.list h).service ≡ id
      → Starts h cb id parm s (service_start env s h cb parm).0 (service_start env s h cb parm).1
  unfolding service_start
  service_start-Starts s n i =
      let d = record (s.list h) { cb = 0 } in
      let s0 = edit s h d in
      let a0 = After-edit env q h cb id parm s d refl in
      let (a1, l1, r) = After-service_status env q h cb id parm s0 in
      let s1 = (service_status env s0 h).0 in
      let b1 = After-trans env q h cb id parm a0 a1 in
      let keeps : (s1.list h).status ≡ (s.list h).status = rw (l1, ==_refl h) refl in
      let known : (service_status env s0 h).1 ≡ (s.list h).status = r ∙ rw (==_refl h) refl in
      elim (Bool-cases ((s0.list h).ctrl == 0)) [
        | inl e ↦ rw e (refuses_start refl a0 (inl (rw (==_refl h) refl)))
        | inr e ↦ elim (Bool-cases ((service_status env s0 h).1 ==ℤ started)) [
          | inl f ↦
              let (a2, l2) =
                After-complete env q h cb id parm s1 (s1.list h).service n (b1.service ∙ i) in
              rw (e, f)
                (tells_start refl (After-trans env q h cb id parm b1 a2)
                  (rw l2 (keeps ∙ sym known ∙ ==ℤ_eq _ _ f)))
          | inr f ↦ elim (Bool-cases ((service_status env s0 h).1 ==ℤ stopped)) [
            | inr g ↦ rw (e, f, g) (refuses_start refl b1 (inl keeps))
            | inl g ↦ elim (Bool-cases (not ((s1.list h).run == 0) && (s1.list h).active)) [
              | inl k ↦ rw (e, f, g, k) (refuses_start refl b1 (inl keeps))
              | inr k ↦
                  rw (e, f, g, k) (Starts-After b1 keeps (launch-Starts s1 n (b1.service ∙ i)))
            ]
          ]
        ]
      ]

  -- A start with a caller to tell is answered in one of three ways, if the functions of services,
  -- listeners and callers do not call back and the reported status is the recorded one. It succeeds
  -- and the caller is told once, of a service that is started; it succeeds and the caller is not told
  -- yet, but recorded with the service, which is starting; or it fails and the caller is not told,
  -- and the service has kept its status or is stopped. No other service, listener or count changes.
  pub start-Starts :
      (s : Services)
      → (cb == 0) ≡ false
      → (s.list h).service ≡ id
      → Starts h cb id parm s (start env s h cb parm).0 (start env s h cb parm).1
  unfolding start
  start-Starts s n i =
      let (a, l, r) = After-service_status env q h cb id parm s in
      let s1 = (service_status env s h).0 in
      let keeps : (s1.list h).status ≡ (s.list h).status = rw l refl in
      let v = (service_status env s h).1 in
      elim (Bool-cases s.present) [
        | inr e ↦ simp e (refuses_start refl (After-refl env q h cb id parm s) (inl refl))
        | inl e ↦ elim (Bool-cases (ltb h s.count)) [
          | inr f ↦ simp (e, f) (refuses_start refl (After-refl env q h cb id parm s) (inl refl))
          | inl f ↦
              elim (Bool-cases
                (v ==ℤ resident || v ==ℤ starting || v ==ℤ stopping || v ==ℤ disabled)) [
                  | inl g ↦ simp (e, f, g) (refuses_start refl a (inl keeps))
                  | inr g ↦
                      simp (e, f, g)
                        (Starts-After a keeps (service_start-Starts s1 n (a.service ∙ i)))
                ]
        ]
      ]
