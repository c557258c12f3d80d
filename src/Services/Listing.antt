-- ===== src/Services/Listing.antt =====
-- What src/svc/svc_services.c tells of a service by its handle. The names are text and left out.
use qoraal.Base.{ℕ, zero, suc, ◌+◌, Bool, ◌&&◌, not, ltb, ◌==◌, if◌then◌else◌, ℤ, ◌==ℤ◌}
use qoraal.Services.{
  Services, Env, disabled, stopped, stopping, starting, started, resident, e_notfound, e_unexp,
  edit, service_status,
}
use qoraal.Services.Control.{invalid_handle}

-- The loop of `svc_service_get`: `n` services are left, `h` the first of them.
unfoldable pub get_from : Services → (id n h : ℕ) → ℕ
get_from s id zero h = invalid_handle
get_from s id (suc n) h = if (s.list h).service == id then h else get_from s id n (h + 1)

-- `svc_service_get`
unfoldable pub get : Services → (id : ℕ) → ℕ
get s id = if not s.present then invalid_handle else get_from s id s.count 0

-- Whether a handle names a service: the guards of the functions below
abbrev pub is_service : Services → (h : ℕ) → Bool
is_service s h = s.present && ltb h s.count

-- `svc_service_service`
unfoldable pub service : Services → (h : ℕ) → ℕ
service s h = if is_service s h then (s.list h).service else 0

-- `svc_service_get_arg`
unfoldable pub get_arg : Services → (h : ℕ) → ℕ
get_arg s h = if is_service s h then (s.list h).parm else 0

-- `svc_service_set_arg`
unfoldable pub set_arg : Services → (h arg : ℕ) → Services × ℕ
set_arg s h arg =
    if is_service s h then (edit s h (record (s.list h) { parm = arg }), arg) else (s, 0)

-- `svc_service_get_flags`
unfoldable pub get_flags : Services → (h : ℕ) → ℕ
get_flags s h = if is_service s h then (s.list h).flags else 0

-- `svc_service_exit_status`
unfoldable pub exit_status : Services → (h : ℕ) → ℤ
exit_status s h =
    if not s.present
    then e_unexp
    else if not (ltb h s.count)
    then e_notfound
    else (s.list h).exit_status

-- The names of a status, by their places in the switch.
pub data StatusName : Type 0 where
  none_listed : StatusName
  is_disabled : StatusName
  is_stopped : StatusName
  is_starting : StatusName
  is_stopping : StatusName
  is_started : StatusName
  is_resident : StatusName
  error : StatusName

module _ (env : Env) where
  -- `svc_service_status`
  unfoldable pub status_of : Services → (h : ℕ) → Services × ℤ
  status_of s h =
      if not s.present
      then (s, e_unexp)
      else if not (ltb h s.count)
      then (s, e_notfound)
      else service_status env s h

  -- `svc_service_status_description`; `svc_service_status_name` has the same cases
  unfoldable pub status_description : Services → (h : ℕ) → Services × StatusName
  status_description s h =
      if not s.present
      then (s, none_listed)
      else if ltb h s.count
      then (let (s1, status) = service_status env s h in
          (
            s1,
            if status ==ℤ disabled
                then is_disabled
                else if status ==ℤ stopped
                then is_stopped
                else if status ==ℤ starting
                then is_starting
                else if status ==ℤ stopping
                then is_stopping
                else if status ==ℤ started
                then is_started
                else if status ==ℤ resident
                then is_resident
                else error,
          ))
      else (s, error)
