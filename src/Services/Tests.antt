-- ===== src/Services/Tests.antt =====
-- A list of two services, the second with a thread, and the theorems about it there.
use qoraal.Base.{◌+◌, ◌≡◌, true, false, [], ◌∷◌, ◌++◌, ◌==◌, if◌then◌else◌, inl, refl, pos, negsuc}
use qoraal.Services.{
  Services, Env, stopped, started, ctrl_status, control, complete, notify, changed, service_status,
  launch_thread, launch, service_start, start, halt_thread, halt_service, service_stop, stop,
  thread_enter, thread_complete, settle,
}
use qoraal.Services.Control.{system_halt}
use qoraal.Services.Quiet.{IsQuiet}
use qoraal.Services.Start.{Starts, start-Starts}
use qoraal.Services.Stop.{Stops, stop-Stops}
use qoraal.Services.LifeCycle.{Settled, start-thread_enter, stop-thread_complete}
use qoraal.Services.Halt.{halts, system_halt-halts}

-- The services' ids are their handles and 1; one listener.
abbrev services : Services
services = record {
  present = true;
  list = λ h. record {
    active = false;
    cb = 0;
    cb_parm = 0;
    run = if h == 1 then 7 else 0;
    ctrl = 5;
    parm = 0;
    status = stopped;
    exit_status = pos 0;
    service = h + 1;
    flags = 1;
  };
  count = 2;
  handlers = 8 ∷ [];
  calls = [];
}

abbrev env : Env
env = record {
  ctrl = λ h code p s. (s, if code == ctrl_status then negsuc 0 else pos 0);
  fp = λ l id status s. s;
  cb = λ c id p s. s;
  create = λ h s. pos 0;
  clock = λ s. pos 10;
}

env-IsQuiet : IsQuiet env
env-IsQuiet = record {
  ctrl = λ h code p s. refl;
  fp = λ l id status s. refl;
  cb = λ c id p s. refl;
  honest = λ h p s. inl refl;
}

-- The second service is starting, and then started.
abbrev is_starting : Services
is_starting = (start env services 1 0 0).0

abbrev is_started : Services
is_started = thread_enter env is_starting 1

start-Starts_example :
    Starts 1 9 2 44 services (start env services 1 9 44).0 (start env services 1 9 44).1
start-Starts_example = start-Starts env env-IsQuiet 1 9 2 44 services refl refl

stop-Stops_example :
    Stops 0 9 1 44 services (stop env services 0 9 44).0 (stop env services 0 9 44).1
stop-Stops_example = stop-Stops env env-IsQuiet 0 9 1 44 services refl refl

start-thread_enter_example :
    Settled 1 9 2 44 services (thread_enter env (start env services 1 9 44).0 1) started
unfolding start service_start service_status launch launch_thread control changed notify complete
start-thread_enter_example =
    start-thread_enter env env-IsQuiet 1 9 2 44 services refl refl refl refl

stop-thread_complete_example :
    Settled 1 9 2 44 is_started (thread_complete env (stop env is_started 1 9 44).0 1) stopped
unfolding start service_start service_status launch launch_thread control changed notify complete
    thread_enter settle stop service_stop halt_service halt_thread
stop-thread_complete_example =
    stop-thread_complete env env-IsQuiet 1 9 2 44 is_started refl refl refl refl

system_halt-halts_example :
    system_halt env is_started
    ≡ record is_started { calls = is_started.calls ++ halts is_started.list is_started.count }
unfolding start service_start service_status launch launch_thread control changed notify complete
    thread_enter settle
system_halt-halts_example = system_halt-halts env env-IsQuiet is_started refl
