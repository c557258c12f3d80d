-- ===== src/Services.antt =====
-- src/svc/svc_services.c and include/qoraal/svc/svc_services.h: the services of an application and
-- their life cycle. A service is named by its handle, the index in the list. The calls out of the
-- module, to the services' own functions and to the listeners, are the parameter `Env`: each may
-- change the module's state, which covers calls back into it. The ghost field `calls` notes them.
-- The messages and the times that they report are left out.
pub mod Control
pub mod Listing
pub mod Quiet
pub mod Account
pub mod Start
pub mod Stop
pub mod LifeCycle
pub mod Halt
mod Tests
use qoraal.Base.{
  ℕ, zero, suc, ◌+◌, ◌-◌, Bool, true, false, ◌&&◌, ◌||◌, not, Option, none, some, List, [], ◌∷◌,
  ◌++◌, ltb, ◌==◌, if◌then◌else◌, erase, ℤ, pos, negsuc, ◌==ℤ◌, ◌<ℤ?◌,
}
use qoraal.Tasks.{update}

-- `SVC_SERVICE_STATUS_DISABLED` and the others
abbrev pub disabled : ℤ
disabled = negsuc 0

abbrev pub stopped : ℤ
stopped = pos 0

abbrev pub stopping : ℤ
stopping = pos 1

abbrev pub starting : ℤ
starting = pos 2

abbrev pub started : ℤ
started = pos 3

abbrev pub resident : ℤ
resident = pos 4

-- `SVC_SERVICE_CTRL_INIT` and the others
abbrev pub ctrl_init : ℕ
ctrl_init = 1001

abbrev pub ctrl_start : ℕ
ctrl_start = 1002

abbrev pub ctrl_stop : ℕ
ctrl_stop = 1003

abbrev pub ctrl_status : ℕ
ctrl_status = 1004

abbrev pub ctrl_halt : ℕ
ctrl_halt = 1005

-- `EOK`, `EFAIL`, `E_NOIMPL`, `E_NOTFOUND` and `E_UNEXP`
abbrev pub eok : ℤ
eok = pos 0

abbrev pub efail : ℤ
efail = negsuc 0

abbrev pub e_noimpl : ℤ
e_noimpl = negsuc 2306

abbrev pub e_notfound : ℤ
e_notfound = negsuc 2307

abbrev pub e_unexp : ℤ
e_unexp = negsuc 2309

-- `SVC_SERVICE_T`; functions by their addresses, 0 for none. `active` is whether its thread has a
-- function, `svc_threads_is_active`.
pub record Service : Type 0 where
  pub active : Bool
  pub cb : ℕ
  pub cb_parm : ℕ
  pub run : ℕ
  pub ctrl : ℕ
  pub parm : ℕ
  pub status : ℤ
  pub exit_status : ℤ
  pub service : ℕ
  pub flags : ℕ

-- A call out of the module: a control function, a listener, or a caller that waits.
pub data Call : Type 0 where
  controls : (handle code parm : ℕ) → Call
  notifies : (listener service : ℕ) (status : ℤ) → Call
  completes : (cb service parm : ℕ) → Call

-- The module's variables; `present` is whether there is a list.
pub record Services : Type 0 where
  pub present : Bool
  pub list : ℕ → Service
  pub count : ℕ
  pub handlers : List ℕ
  pub calls : List Call

-- What runs outside. `create` is `svc_threads_create` for the thread of a service, and `clock` the
-- tick counter as an int32_t.
pub record Env : Type 0 where
  pub ctrl : (handle code parm : ℕ) → Services → Services × ℤ
  pub fp : (listener service : ℕ) (status : ℤ) → Services → Services
  pub cb : (cb service parm : ℕ) → Services → Services
  pub create : (handle : ℕ) → Services → ℤ
  pub clock : Services → ℤ

abbrev pub edit : Services → ℕ → Service → Services
edit s h d = record s { list = update s.list h d }

abbrev pub note : Services → Call → Services
note s c = record s { calls = s.calls ++ (c ∷ []) }

abbrev pub set_status : Services → ℕ → ℤ → Services
set_status s h status = edit s h (record (s.list h) { status = status })

abbrev pub set_exit : Services → ℕ → ℤ → Services
set_exit s h status = edit s h (record (s.list h) { exit_status = status })

abbrev pub set_cb : Services → (h cb cb_parm : ℕ) → Services
set_cb s h cb cb_parm = edit s h (record (s.list h) { cb = cb; cb_parm = cb_parm })

module _ (env : Env) where
  -- `pservice->ctrl (code, parm)`
  unfoldable pub control : Services → (h code parm : ℕ) → Services × ℤ
  control s h code parm = env.ctrl h code parm (note s (controls h code parm))

  -- `if (cb) cb (id, parm)`
  unfoldable pub complete : Services → (cb id parm : ℕ) → Services
  complete s cb id parm = if cb == 0 then s else env.cb cb id parm (note s (completes cb id parm))

  -- The loop of `_service_changed` over the listeners.
  unfoldable pub notify : Services → (id : ℕ) → ℤ → List ℕ → Services
  notify s id status [] = s
  notify s id status (l ∷ ls) =
      notify (env.fp l id status (note s (notifies l id status))) id status ls

  -- `_service_changed`
  unfoldable pub changed : Services → (h : ℕ) → ℤ → Services
  changed s h status = notify s (s.list h).service status s.handlers

  -- `_service_status`
  unfoldable pub service_status : Services → (h : ℕ) → Services × ℤ
  service_status s h =
      let d = s.list h in
      if (stopped <ℤ? d.status) && not (d.ctrl == 0)
      then (let (s', status) = control s h ctrl_status d.parm in
          if status <ℤ? pos 0 then (s', (s'.list h).status) else (s', status))
      else (s, d.status)

  -- The status of a service is set, and the caller that waits is told, once.
  unfoldable pub settle : Services → (h : ℕ) → ℤ → Services
  settle s h status =
      let s1 = set_status s h status in
      let s2 = complete s1 (s1.list h).cb (s1.list h).service (s1.list h).cb_parm in
      changed (set_cb s2 h 0 0) h status

  -- `_service_thread_complete`, when the service's thread has been joined
  unfoldable pub thread_complete : Services → (h : ℕ) → Services
  thread_complete s h = settle s h stopped

  -- `_service_thread`, up to the call of `run`
  unfoldable pub thread_enter : Services → (h : ℕ) → Services
  thread_enter s h = settle s h started

  -- `_service_thread`, from the return of `run` on
  unfoldable pub thread_leave : Services → (h : ℕ) → ℤ → Services
  thread_leave s h status = set_exit s h status

  -- `_service_start` behind the control function, for a service without a thread
  unfoldable pub launch_plain : Services → (h cb cb_parm : ℕ) → Services × ℤ
  launch_plain s h cb cb_parm =
      let s1 = set_status (set_exit s h eok) h started in
      (changed (complete s1 cb (s1.list h).service cb_parm) h started, eok)

  -- `_service_start` behind the control function, for a service with a thread
  unfoldable pub launch_thread : Services → (h cb cb_parm : ℕ) → Services × ℤ
  launch_thread s h cb cb_parm =
      let s1 = changed (set_cb s h cb cb_parm) h starting in
      let res = env.create h s1 in
      if res ==ℤ eok
      then (edit s1 h (record (s1.list h) { status = starting; active = true }), res)
      else (
        changed (edit s1 h (record (s1.list h) { status = stopped; active = false })) h stopped,
        res,
      )

  -- `_service_start` for a service that is stopped: its control function is called.
  unfoldable pub launch : Services → (h cb cb_parm : ℕ) → Services × ℤ
  launch s h cb cb_parm =
      let s1 = set_exit s h (env.clock s) in
      let (s2, res) = control s1 h ctrl_start (s1.list h).parm in
      if not (res ==ℤ eok)
      then (changed s2 h stopped, res)
      else if (s2.list h).run == 0
      then launch_plain s2 h cb cb_parm
      else launch_thread s2 h cb cb_parm

  -- `_service_start`
  unfoldable pub service_start : Services → (h cb cb_parm : ℕ) → Services × ℤ
  service_start s h cb cb_parm =
      let s0 = edit s h (record (s.list h) { cb = 0 }) in
      if (s0.list h).ctrl == 0
      then (s0, e_noimpl)
      else (let (s1, status) = service_status s0 h in
          if status ==ℤ started
          then (complete s1 cb (s1.list h).service cb_parm, eok)
          else if not (status ==ℤ stopped)
          then (s1, e_unexp)
          else if not ((s1.list h).run == 0) && (s1.list h).active
          then (s1, efail)
          else launch s1 h cb cb_parm)

  -- `svc_service_start`
  unfoldable pub start : Services → (h cb cb_parm : ℕ) → Services × ℤ
  start s h cb cb_parm =
      if not s.present
      then (s, e_unexp)
      else if not (ltb h s.count)
      then (s, e_notfound)
      else (let (s1, status) = service_status s h in
          if status ==ℤ resident
            || status ==ℤ starting
            || status ==ℤ stopping
            || status ==ℤ disabled
          then (s1, e_unexp)
          else service_start s1 h cb cb_parm)

  -- `svc_service_stop` for a service without a thread
  unfoldable pub halt_plain : Services → (h cb cb_parm : ℕ) → Services × ℤ
  halt_plain s h cb cb_parm =
      let (s1, res) = control (set_status s h stopped) h ctrl_stop (s.list h).parm in
      let s2 = set_exit s1 h res in
      (changed (complete s2 cb (s2.list h).service cb_parm) h stopped, res)

  -- `svc_service_stop` for a service with a thread
  unfoldable pub halt_thread : Services → (h cb cb_parm : ℕ) → Services × ℤ
  halt_thread s h cb cb_parm =
      let s1 = changed (set_cb s h cb cb_parm) h stopping in
      let (s2, res) = control s1 h ctrl_stop (s1.list h).parm in
      if res ==ℤ eok
      then (set_status s2 h stopping, res)
      else (changed (set_status s2 h started) h started, res)

  -- `svc_service_stop` for a service that is starting, started or resident
  unfoldable pub halt_service : Services → (h cb cb_parm : ℕ) → Services × ℤ
  halt_service s h cb cb_parm =
      let s1 = set_exit s h (env.clock s) in
      if (s1.list h).run == 0 then halt_plain s1 h cb cb_parm else halt_thread s1 h cb cb_parm

  -- `svc_service_stop` behind its guards
  unfoldable pub service_stop : Services → (h cb cb_parm : ℕ) → Services × ℤ
  service_stop s h cb cb_parm =
      let s0 = edit s h (record (s.list h) { cb = 0 }) in
      if (s0.list h).ctrl == 0
      then (s0, e_noimpl)
      else (let (s1, status) = service_status s0 h in
          if status ==ℤ stopped
          then (complete s1 cb h cb_parm, eok)
          else if status <ℤ? starting
          then (let s2 = set_cb s1 h cb cb_parm in
              let (s3, res) = control s2 h ctrl_stop (s2.list h).parm in
              (changed s3 h stopped, e_unexp))
          else halt_service s1 h cb cb_parm)

  -- `svc_service_stop`
  unfoldable pub stop : Services → (h cb cb_parm : ℕ) → Services × ℤ
  stop s h cb cb_parm =
      if not s.present
      then (s, e_unexp)
      else if not (ltb h s.count)
      then (s, e_notfound)
      else service_stop s h cb cb_parm
