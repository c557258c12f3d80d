-- ===== src/Services/Quiet.antt =====
-- The calls out of src/svc/svc_services.c to functions that leave the module's variables alone.
use qoraal.Base.{
  ℕ, ◌+◌, ◌≡◌, ◌⊎◌, inl, inr, refl, ◌∙◌, true, false, ◌&&◌, not, List, [], ◌∷◌, ◌++◌, ◌==◌, ==_refl,
  if◌then◌else◌, Bool-cases, ℤ, pos, ◌<ℤ?◌, arith,
}
use mathlib.Core.List.{append_assoc, append-nil}
use qoraal.Services.{
  Services, Call, controls, notifies, completes, Env, stopped, ctrl_status, note, control, complete,
  notify, changed, service_status,
}

-- The functions of services, listeners and callers do not call back into the module, and a control
-- function that answers the request for the status answers with the recorded one.
pub record IsQuiet (env : Env) : Type 0 where
  pub ctrl : (h code parm : ℕ) (s : Services) → (env.ctrl h code parm s).0 ≡ s
  pub fp : (l id : ℕ) (status : ℤ) (s : Services) → env.fp l id status s ≡ s
  pub cb : (cb id parm : ℕ) (s : Services) → env.cb cb id parm s ≡ s
  pub honest :
      (h parm : ℕ) (s : Services)
      → (((env.ctrl h ctrl_status parm s).1 <ℤ? pos 0) ≡ true)
        ⊎ ((env.ctrl h ctrl_status parm s).1 ≡ (s.list h).status)

-- The calls of the listeners, in order.
abbrev pub tells : (id : ℕ) → ℤ → List ℕ → List Call
tells id status [] = []
tells id status (l ∷ ls) = notifies l id status ∷ tells id status ls

-- The number of calls that tell the waiting caller `cb` with `parm` of a service.
abbrev pub answers : (cb id parm : ℕ) → List Call → ℕ
answers cb id parm [] = 0
answers cb id parm (controls h code p ∷ cs) = answers cb id parm cs
answers cb id parm (notifies l i status ∷ cs) = answers cb id parm cs
answers cb id parm (completes c i p ∷ cs) =
    (if (c == cb) && (i == id) && (p == parm) then 1 else 0) + answers cb id parm cs

answers-append :
    (cb id parm : ℕ) (cs ds : List Call)
    → answers cb id parm (cs ++ ds) ≡ answers cb id parm cs + answers cb id parm ds
answers-append cb id parm [] ds = omega arith
answers-append cb id parm (controls h code p ∷ cs) ds = answers-append cb id parm cs ds
answers-append cb id parm (notifies l i status ∷ cs) ds = answers-append cb id parm cs ds
answers-append cb id parm (completes c i p ∷ cs) ds =
    rw (answers-append cb id parm cs ds) (omega arith)

pub answers-controls :
    (cb id parm h code p : ℕ) (cs : List Call)
    → answers cb id parm (cs ++ (controls h code p ∷ [])) ≡ answers cb id parm cs
answers-controls cb id parm h code p cs = rw (answers-append cb id parm cs _) (omega arith)

pub answers-completes :
    (cb id parm : ℕ) (cs : List Call)
    → answers cb id parm (cs ++ (completes cb id parm ∷ [])) ≡ 1 + answers cb id parm cs
answers-completes cb id parm cs =
    rw (answers-append cb id parm cs _, ==_refl cb, ==_refl id, ==_refl parm) (omega arith)

answers-tells_none :
    (cb id parm i : ℕ) (status : ℤ) (ls : List ℕ) → answers cb id parm (tells i status ls) ≡ 0
answers-tells_none cb id parm i status [] = refl
answers-tells_none cb id parm i status (l ∷ ls) = answers-tells_none cb id parm i status ls

pub answers-tells :
    (cb id parm i : ℕ) (status : ℤ) (ls : List ℕ) (cs : List Call)
    → answers cb id parm (cs ++ tells i status ls) ≡ answers cb id parm cs
answers-tells cb id parm i status ls cs =
    rw (answers-append cb id parm cs (tells i status ls), answers-tells_none cb id parm i status ls)
      (omega arith)

module _ (env : Env) (q : IsQuiet env) where
  pub control_quiet :
      (s : Services) (h code parm : ℕ)
      → (control env s h code parm).0 ≡ note s (controls h code parm)
  unfolding control
  control_quiet s h code parm = q.ctrl h code parm (note s (controls h code parm))

  pub complete_quiet :
      (s : Services) (cb id parm : ℕ)
      → (cb == 0) ≡ false
      → complete env s cb id parm ≡ note s (completes cb id parm)
  unfolding complete
  complete_quiet s cb id parm n = rw n (q.cb cb id parm _)

  notify_quiet :
      (s : Services) (id : ℕ) (status : ℤ) (ls : List ℕ)
      → notify env s id status ls ≡ record s { calls = s.calls ++ tells id status ls }
  unfolding notify
  notify_quiet s id status [] = rw (append-nil s.calls) refl
  notify_quiet s id status (l ∷ ls) = rw (q.fp l id status (note s (notifies l id status))) (
      notify_quiet (note s (notifies l id status)) id status ls
      ∙ rw (append_assoc s.calls (notifies l id status ∷ []) (tells id status ls)) refl)

  -- Every listener is told of a change, once, in order.
  pub changed_quiet :
      (s : Services) (h : ℕ) (status : ℤ)
      → changed env s h status
        ≡ record s { calls = s.calls ++ tells (s.list h).service status s.handlers }
  unfolding changed
  changed_quiet s h status = notify_quiet s (s.list h).service status s.handlers

  control_honest :
      (s : Services) (h parm : ℕ)
      → ((control env s h ctrl_status parm).1 <ℤ? pos 0) ≡ false
      → (control env s h ctrl_status parm).1 ≡ (s.list h).status
  unfolding control
  control_honest s h parm e = elim (q.honest h parm (note s (controls h ctrl_status parm))) [
    | inl f ↦ absurd (ground arith)
    | inr f ↦ f
  ]

  -- The request for the status tells what is recorded, and leaves all but the ghost as it was.
  pub service_status_quiet :
      (s : Services) (h : ℕ)
      → ((service_status env s h).1 ≡ (s.list h).status)
        × ((cs : List Call) × ((service_status env s h).0 ≡ record s { calls = cs })
            × ((cb id parm : ℕ) → answers cb id parm cs ≡ answers cb id parm s.calls))
  unfolding service_status
  service_status_quiet s h =
      elim (Bool-cases ((stopped <ℤ? (s.list h).status) && not ((s.list h).ctrl == 0))) [
        | inr e ↦ rw e (refl, (s.calls, refl, λ cb id parm. refl))
        | inl e ↦
            let p = (s.list h).parm in
            elim (Bool-cases ((control env s h ctrl_status p).1 <ℤ? pos 0)) [
              | inl f ↦
                  rw (e, f, control_quiet s h ctrl_status p)
                    (
                      refl,
                      (
                        s.calls ++ (controls h ctrl_status p ∷ []),
                        refl,
                        λ cb id parm. answers-controls cb id parm h ctrl_status p s.calls,
                      ),
                    )
              | inr f ↦
                  rw (e, f, control_quiet s h ctrl_status p, control_honest s h p f)
                    (
                      refl,
                      (
                        s.calls ++ (controls h ctrl_status p ∷ []),
                        refl,
                        λ cb id parm. answers-controls cb id parm h ctrl_status p s.calls,
                      ),
                    )
            ]
      ]
