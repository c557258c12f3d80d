-- ===== src/Services/Account.antt =====
-- What the steps of src/svc/svc_services.c leave of the state, and how often they tell a caller.
use qoraal.Base.{ℕ, ◌+◌, ◌≡◌, refl, ◌∙◌, false, List, ◌==◌, ==_refl, ℤ, arith}
use qoraal.Services.{Service, Services, Call, Env, edit, control, complete, changed, service_status}
use qoraal.Services.Quiet.{
  IsQuiet, answers, answers-controls, answers-completes, answers-tells, control_quiet,
  complete_quiet, changed_quiet, service_status_quiet,
}

-- All but the service `h` and the notes of the calls is as it was, `h` is the same service, and the
-- caller `cb` has been told `k` times of the service `id` with `parm` meanwhile.
pub record After (h cb id parm k : ℕ) (s s' : Services) : Type 0 where
  pub present : s'.present ≡ s.present
  pub count : s'.count ≡ s.count
  pub handlers : s'.handlers ≡ s.handlers
  pub service : (s'.list h).service ≡ (s.list h).service
  pub others : (u : ℕ) → (u == h) ≡ false → s'.list u ≡ s.list u
  pub told : answers cb id parm s'.calls ≡ k + answers cb id parm s.calls

module _ (env : Env) (q : IsQuiet env) (h cb id parm : ℕ) where
  pub After-refl : (s : Services) → After h cb id parm 0 s s
  After-refl s = record {
    present = refl;
    count = refl;
    handlers = refl;
    service = refl;
    others = λ u k. refl;
    told = omega arith;
  }

  pub After-trans :
      {s t r : Services} {k m : ℕ}
      → After h cb id parm k s t
      → After h cb id parm m t r
      → After h cb id parm (m + k) s r
  After-trans {s} {t} {r} {k} {m} a b = record {
    present = b.present ∙ a.present;
    count = b.count ∙ a.count;
    handlers = b.handlers ∙ a.handlers;
    service = b.service ∙ a.service;
    others = λ u n. b.others u n ∙ a.others u n;
    told = omega (arith, a.told, b.told);
  }

  pub After-edit :
      (s : Services) (d : Service)
      → d.service ≡ (s.list h).service
      → After h cb id parm 0 s (edit s h d)
  After-edit s d e = record {
    present = refl;
    count = refl;
    handlers = refl;
    service = rw (==_refl h) e;
    others = λ u k. rw k refl;
    told = omega arith;
  }

  pub After-calls :
      (s : Services) (cs : List Call) (k : ℕ)
      → answers cb id parm cs ≡ k + answers cb id parm s.calls
      → After h cb id parm k s (record s { calls = cs })
  After-calls s cs k e = record {
    present = refl;
    count = refl;
    handlers = refl;
    service = refl;
    others = λ u k. refl;
    told = e;
  }

  -- What the call of a control function leaves: all as it was.
  pub After-control :
      (s : Services) (code p : ℕ)
      → After h cb id parm 0 s (control env s h code p).0
        × ((control env s h code p).0.list ≡ s.list)
  After-control s code p =
      rw (control_quiet env q s h code p)
        (After-calls s _ 0 (omega (arith, answers-controls cb id parm h code p s.calls)), refl)

  pub After-changed :
      (s : Services) (status : ℤ)
      → After h cb id parm 0 s (changed env s h status) × ((changed env s h status).list ≡ s.list)
  After-changed s status = rw (changed_quiet env q s h status) (
    After-calls s _ 0
        (omega (arith, answers-tells cb id parm (s.list h).service status s.handlers s.calls)),
    refl,
  )

  pub After-complete :
      (s : Services) (i : ℕ)
      → (cb == 0) ≡ false
      → i ≡ id
      → After h cb id parm 1 s (complete env s cb i parm)
        × ((complete env s cb i parm).list ≡ s.list)
  After-complete s i n e =
      rw (e, complete_quiet env q s cb id parm n)
        (After-calls s _ 1 (omega (arith, answers-completes cb id parm s.calls)), refl)

  pub After-service_status :
      (s : Services)
      → After h cb id parm 0 s (service_status env s h).0
        × ((service_status env s h).0.list ≡ s.list)
        × ((service_status env s h).1 ≡ (s.list h).status)
  After-service_status s =
      let (r, (cs, e, a)) = service_status_quiet env q s h in
      rw e (After-calls s cs 0 (omega (arith, a cb id parm)), refl, r)
