-- ===== src/Services/Control.antt =====
-- The operations of src/svc/svc_services.c on all services at once, the control calls, the start and
-- the stop that wait, and the listeners. Whether a wait ends in time is a parameter.
use qoraal.Base.{
  ℕ, zero, suc, ◌+◌, ◌-◌, ◌/◌, ◌%◌, Bool, true, false, ◌&&◌, ◌||◌, not, Option, none, some, [], ◌∷◌,
  ltb, ◌==◌, if◌then◌else◌, erase, ℤ, ◌==ℤ◌, ◌<ℤ?◌,
}
use qoraal.Tasks.{word}
use qoraal.Services.{
  Service, Services, Env, disabled, stopped, starting, started, ctrl_init, ctrl_halt, eok, e_noimpl,
  e_notfound, e_unexp, set_status, set_cb, control, changed, service_status, service_start, start,
  stop,
}

-- `SVC_SERVICE_INVALID_HANDLE`
abbrev pub invalid_handle : ℕ
invalid_handle = 4294967295

-- Whether two words of so many bits have a bit in common: `a & b`
unfoldable pub meets : (bits a b : ℕ) → Bool
meets zero a b = false
meets (suc n) a b = (a % 2 == 1 && b % 2 == 1) || meets n (a / 2) (b / 2)

-- `svc_service_next`
unfoldable pub next : Services → (h : ℕ) → ℕ
next s h = if s.present && ltb h ((s.count + word - 1) % word) then h + 1 else invalid_handle

-- `svc_service_register_handler`; a listener stands for its structure, its function and its argument.
unfoldable pub register_handler : Services → ℕ → Services
register_handler s l = record s { handlers = l ∷ erase l s.handlers }

-- `svc_service_unregister_handler`
unfoldable pub unregister_handler : Services → ℕ → Services
unregister_handler s l = record s { handlers = erase l s.handlers }

module _ (env : Env) where
  -- The loop of `svc_service_services_init`, on fuel
  unfoldable pub init_from : ℕ → Services → Option Services
  init_from zero s = none
  init_from (suc f) s =
      let h = s.count in
      let s1 = record s { count = h + 1 } in
      let (s2, res) = control env s1 h ctrl_init h in
      let next_ctrl = init_from f (if res ==ℤ eok then s2 else set_status s2 h disabled) in
      let next_plain = init_from f s1 in
      if (s.list h).service == 0
      then some s
      else if (s1.list h).ctrl == 0
      then next_plain
      else next_ctrl

  -- `svc_service_services_init`
  unfoldable pub services_init : ℕ → Services → (ℕ → Service) → Option Services
  services_init f s list =
      init_from f (record s { present = true; list = list; count = 0; handlers = [] })

  -- The loop of `svc_service_services_start`: `n` services are left, `h` the first of them.
  unfoldable pub start_from : Services → (flags n h : ℕ) → Services
  start_from s flags zero h = s
  start_from s flags (suc n) h =
      let s1 = if meets 32 (s.list h).flags flags then (service_start env s h 0 0).0 else s in
      start_from s1 flags n (h + 1)

  -- `svc_service_services_start`
  unfoldable pub services_start : Services → (flags : ℕ) → Services × ℤ
  services_start s flags =
      if not s.present then (s, e_unexp) else (start_from s flags s.count 0, eok)

  -- The body of the loop of `svc_service_system_halt`
  unfoldable pub halt : Services → (h : ℕ) → Services
  halt s h =
      if (s.list h).status <ℤ? started
      then s
      else if (s.list h).ctrl == 0
      then s
      else (control env s h ctrl_halt (s.list h).parm).0

  -- The loop of `svc_service_system_halt`
  unfoldable pub halt_from : Services → (n : ℕ) → Services
  halt_from s zero = s
  halt_from s (suc n) = halt_from (halt s n) n

  -- `svc_service_system_halt`
  unfoldable pub system_halt : Services → Services
  system_halt s = if not s.present || s.count == 0 then s else halt_from s s.count

  -- `svc_service_ctrl`
  unfoldable pub ctrl : Services → (h cmd parm : ℕ) → Services × ℤ
  ctrl s h cmd parm =
      if not s.present
      then (s, e_unexp)
      else if not (ltb h s.count)
      then (s, e_notfound)
      else if (s.list h).ctrl == 0
      then (s, e_noimpl)
      else (let (s1, status) = service_status env s h in
          if status <ℤ? starting
          then (s1, e_unexp)
          else (let (s2, res) = control env s1 h cmd parm in
              if res ==ℤ eok
              then (let (s3, new_status) = service_status env s2 h in
                  if new_status ==ℤ status then (s3, res) else (changed env s3 h new_status, res))
              else (s2, res)))

  -- The loop of `svc_service_ctrl_broadcast`, on fuel
  unfoldable pub broadcast_from : ℕ → Services → (h cmd parm : ℕ) → Option Services
  broadcast_from zero s h cmd parm = none
  broadcast_from (suc f) s h cmd parm =
      let s1 = (ctrl s h cmd parm).0 in
      let rest = broadcast_from f s1 (next s1 h) cmd parm in
      if h == invalid_handle then some s else rest

  -- `svc_service_ctrl_broadcast`
  unfoldable pub ctrl_broadcast : ℕ → Services → (cmd parm : ℕ) → Option Services
  ctrl_broadcast f s cmd parm = if not s.present then some s else broadcast_from f s 0 cmd parm

  module _ (restart_cb : ℕ) (wait : (sem : ℕ) → Services → Services × ℤ) where
    -- The wait of the two operations below: what others do meanwhile, then the callback is dropped.
    unfoldable pub await : Services → (h sem : ℕ) → Services
    await s h sem = set_cb (wait sem s).0 h 0 0

    -- `svc_service_start_timeout`
    unfoldable pub start_timeout : Services → (h sem : ℕ) → Services × ℤ
    start_timeout s h sem =
        if not s.present
        then (s, e_unexp)
        else if not (ltb h s.count)
        then (s, e_notfound)
        else (let (s1, status) = service_status env s h in
            if status ==ℤ stopped
            then (let (s2, res) = start env s1 h restart_cb sem in
                if res ==ℤ eok then (await s2 h sem, eok) else (s2, eok))
            else (s1, eok))

    -- `svc_service_stop_timeout`
    unfoldable pub stop_timeout : Services → (h sem : ℕ) → Services × ℤ
    stop_timeout s h sem =
        if not s.present
        then (s, e_unexp)
        else if not (ltb h s.count)
        then (s, e_notfound)
        else (let (s1, status) = service_status env s h in
            if status ==ℤ stopped
            then (s1, eok)
            else (let (s2, res) = stop env s1 h restart_cb sem in
                if res ==ℤ eok then (await s2 h sem, eok) else (s2, eok)))
