-- ===== src/Services/LifeCycle.antt =====
-- What becomes of a caller that waits for the thread of a service, in src/svc/svc_services.c.
use qoraal.Base.{
  ℕ, ◌≡◌, refl, sym, ap, ◌∙◌, true, false, ◌==◌, ==_refl, ℤ, pos, negsuc, ◌==ℤ◌, arith,
}
use qoraal.Services.{
  Services, Env, stopped, stopping, starting, started, eok, set_status, set_cb, complete, settle,
  thread_complete, thread_enter, start, stop,
}
use qoraal.Services.Quiet.{IsQuiet}
use qoraal.Services.Account.{After, After-trans, After-edit, After-changed, After-complete}
use qoraal.Services.Start.{tells_start, waits_start, refuses_start, start-Starts}
use qoraal.Services.Stop.{tells_handle, tells_stop, waits_stop, refuses_stop, stop-Stops}

-- The caller `cb` with `parm` is told once between the two states, the service has this status, and
-- nobody waits for it.
pub record Settled (h cb id parm : ℕ) (s s' : Services) (status : ℤ) : Type 0 where
  pub once : After h cb id parm 1 s s'
  pub reached : (s'.list h).status ≡ status
  pub no_caller : (s'.list h).cb ≡ 0

-- The statuses are told apart.
code : ℤ → ℕ
code (pos n) = n
code (negsuc n) = 100

absurd_status : {a : ℤ} {m n : ℕ} {P : Type 0} → a ≡ pos m → a ≡ pos n → (m == n) ≡ false → P
unfolding code
absurd_status {a} {m} {n} e f g = let k : m ≡ n = ap code (sym e ∙ f) in absurd (ground (arith, k))

module _ (env : Env) (q : IsQuiet env) (h cb id parm : ℕ) where
  settle-Settled :
      (s t : Services) (status : ℤ)
      → (cb == 0) ≡ false
      → (s.list h).service ≡ id
      → After h cb id parm 0 s t
      → (t.list h).cb ≡ cb
      → (t.list h).cb_parm ≡ parm
      → Settled h cb id parm s (settle env t h status) status
  unfolding settle
  settle-Settled s t status n i a c p =
      let t1 = set_status t h status in
      let a1 = After-edit env q h cb id parm t (record (t.list h) { status = status }) refl in
      let b1 = After-trans env q h cb id parm a a1 in
      let (a2, l2) = After-complete env q h cb id parm t1 (t1.list h).service n (b1.service ∙ i) in
      let t2 = complete env t1 cb (t1.list h).service parm in
      let a3 = After-edit env q h cb id parm t2 (record (t2.list h) { cb = 0; cb_parm = 0 }) refl in
      let (a4, l4) = After-changed env q h cb id parm (set_cb t2 h 0 0) status in
      let same : (t1.list h).cb ≡ cb = rw (==_refl h) c in
      let with : (t1.list h).cb_parm ≡ parm = rw (==_refl h) p in
      rw (same, with)
        (record {
          once =
              After-trans env q h cb id parm b1
                (After-trans env q h cb id parm a2 (After-trans env q h cb id parm a3 a4));
          reached = rw (l4, l2, ==_refl h) refl;
          no_caller = rw (l4, ==_refl h) refl;
        })

  -- A caller who starts a service that has a thread, and is not told at once, is told when the
  -- thread enters: between the call and the end of that, it is told once, and then the service is
  -- started and nobody waits for it. This holds if the functions of services, listeners and callers
  -- do not call back, the reported status is the recorded one, and nothing comes between.
  pub start-thread_enter :
      (s : Services)
      → (cb == 0) ≡ false
      → (s.list h).service ≡ id
      → ((start env s h cb parm).1 ==ℤ eok) ≡ true
      → ((start env s h cb parm).0.list h).status ≡ starting
      → Settled h cb id parm s (thread_enter env (start env s h cb parm).0 h) started
  unfolding thread_enter
  start-thread_enter s n i o w = elim (start-Starts env q h cb id parm s n i) [
    | tells_start r a e ↦ absurd_status e w refl
    | waits_start r a e c p ↦ settle-Settled s (start env s h cb parm).0 started n i a c p
    | refuses_start r a e ↦ absurd (ground arith)
  ]

  -- A stop that is waited for.
  stop-waits :
      (s : Services) (status : ℤ)
      → (cb == 0) ≡ false
      → (s.list h).service ≡ id
      → ((stop env s h cb parm).1 ==ℤ eok) ≡ true
      → ((stop env s h cb parm).0.list h).status ≡ stopping
      → Settled h cb id parm s (settle env (stop env s h cb parm).0 h status) status
  stop-waits s status n i o w = elim (stop-Stops env q h cb id parm s n i) [
    | tells_handle r a g e ↦ absurd_status e w refl
    | tells_stop a e ↦ absurd_status e w refl
    | waits_stop r a e c p ↦ settle-Settled s (stop env s h cb parm).0 status n i a c p
    | refuses_stop r a e ↦ absurd (ground arith)
  ]

  -- A caller who stops a service that has a thread, and is not told at once, is told when the thread
  -- has been joined: between the call and the end of that, it is told once, and then the service is
  -- stopped and nobody waits for it. This holds if the functions of services, listeners and callers
  -- do not call back, the reported status is the recorded one, and nothing comes between.
  pub stop-thread_complete :
      (s : Services)
      → (cb == 0) ≡ false
      → (s.list h).service ≡ id
      → ((stop env s h cb parm).1 ==ℤ eok) ≡ true
      → ((stop env s h cb parm).0.list h).status ≡ stopping
      → Settled h cb id parm s (thread_complete env (stop env s h cb parm).0 h) stopped
  unfolding thread_complete
  stop-thread_complete s n i o w = stop-waits s stopped n i o w

  -- A stop that comes before the thread of a starting service enters is lost: when the thread enters,
  -- the caller of the stop is told, once, but the service is then started, and nobody waits for it.
  -- This holds if the functions of services, listeners and callers do not call back, the reported
  -- status is the recorded one, and nothing comes between.
  pub stop-thread_enter :
      (s : Services)
      → (cb == 0) ≡ false
      → (s.list h).service ≡ id
      → ((stop env s h cb parm).1 ==ℤ eok) ≡ true
      → ((stop env s h cb parm).0.list h).status ≡ stopping
      → Settled h cb id parm s (thread_enter env (stop env s h cb parm).0 h) started
  unfolding thread_enter
  stop-thread_enter s n i o w = stop-waits s started n i o w
