-- ===== src/Services/Halt.antt =====
-- The order in which src/svc/svc_services.c halts the services.
use qoraal.Base.{
  ℕ, zero, suc, ◌≡◌, inl, inr, refl, sym, ap, ==_eq, ◌∙◌, Bool, true, false, ◌||◌, List, [], ◌∷◌,
  ◌++◌, ◌==◌, if◌then◌else◌, Bool-cases, ◌<ℤ?◌, arith, not,
}
use mathlib.Core.List.{append_assoc, append-nil}
use qoraal.Services.{Service, Services, Call, controls, Env, started, ctrl_halt, note}
use qoraal.Services.Control.{halt, halt_from, system_halt}
use qoraal.Services.Quiet.{IsQuiet, control_quiet}

-- The calls that halt the first `n` services: one for each service that is started and has a control
-- function, the last service first.
abbrev pub halts : (ℕ → Service) → (n : ℕ) → List Call
halts list zero = []
halts list (suc n) =
    if ((list n).status <ℤ? started) || ((list n).ctrl == 0)
    then halts list n
    else controls n ctrl_halt (list n).parm ∷ halts list n

-- With a list, the guard for no services need not be told apart.
if_present :
    (present empty : Bool) (x y : Services)
    → present ≡ true
    → (empty ≡ true → x ≡ y)
    → (if not present || empty then x else y) ≡ y
if_present true true x y p e = e refl
if_present true false x y p e = refl
if_present false empty x y p e = absurd (ground arith)

module _ (env : Env) (q : IsQuiet env) where
  halt_from-halts :
      (s : Services) (n : ℕ) → halt_from env s n ≡ record s { calls = s.calls ++ halts s.list n }
  unfolding halt_from halt
  halt_from-halts s zero = rw (append-nil s.calls) refl
  halt_from-halts s (suc n) = elim (Bool-cases ((s.list n).status <ℤ? started)) [
    | inl e ↦ rw e (halt_from-halts s n)
    | inr e ↦ elim (Bool-cases ((s.list n).ctrl == 0)) [
      | inl f ↦ rw (e, f) (halt_from-halts s n)
      | inr f ↦
          let c = controls n ctrl_halt (s.list n).parm in
          rw (e, f, control_quiet env q s n ctrl_halt (s.list n).parm)
            (halt_from-halts (note s c) n
              ∙ rw (append_assoc s.calls (c ∷ []) (halts s.list n)) refl)
    ]
  ]

  -- `svc_service_system_halt` calls the control function of each started service that has one, once,
  -- the last service of the list first, and of no other, and changes nothing itself, if there is a
  -- list and the functions of services do not call back.
  pub system_halt-halts :
      (s : Services)
      → s.present ≡ true
      → system_halt env s ≡ record s { calls = s.calls ++ halts s.list s.count }
  unfolding system_halt halt_from
  system_halt-halts s p =
      if_present s.present (s.count == 0) s (halt_from env s s.count) p
        (λ e. sym (ap (λ (n : ℕ). halt_from env s n) (==_eq s.count 0 e)))
      ∙ halt_from-halts s s.count
