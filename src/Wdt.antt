-- ===== src/Wdt.antt =====
-- src/svc/svc_wdt.c and include/qoraal/svc/svc_wdt.h: the software watchdog. A handler is named by
-- its address; the three `_svc_wdt_handler_stack`s are the lists of their members, which
-- `Lists.Stack` implements as long as no handler stands in two of them. The bits of a handler's
-- `flags` are Booleans. The messages of the code are left out.
pub mod Callback
pub mod Age
pub mod History
mod Tests
use qoraal.Base.{
  ℕ, ◌+◌, ◌%◌, Bool, true, false, List, [], ◌∷◌, ◌==◌, ltb, if◌then◌else◌, erase, ◌&&◌, not,
}
use qoraal.Tasks.{word, update}

-- `SVC_WDT_HANDLE_T`, with the bits ACTIVE, KICKED, FLAGGED and REPORTED of its flags
pub record Handler : Type 0 where
  pub thread : ℕ
  pub id : ℕ
  pub active : Bool
  pub kicked : Bool
  pub flagged : Bool
  pub reported : Bool
  pub timeout : ℕ

-- `TIMEOUT_10_SEC`, `TIMEOUT_30_SEC`, `TIMEOUT_60_SEC` and `TIMEOUT_LAST`
abbrev pub timeout_10_sec : ℕ
timeout_10_sec = 0

abbrev pub timeout_30_sec : ℕ
timeout_30_sec = 1

abbrev pub timeout_60_sec : ℕ
timeout_60_sec = 2

abbrev pub timeout_last : ℕ
timeout_last = 3

-- The handlers and `_svc_wdt_handler_stack`.
pub record Registry : Type 0 where
  pub handlers : ℕ → Handler
  pub stacks : ℕ → List ℕ

unfoldable pub set_handler : Registry → ℕ → Handler → Registry
set_handler r u d = record r { handlers = update r.handlers u d }

-- `svc_wdt_init`
unfoldable pub init : Registry → Registry
init r = record r { stacks = λ id. if ltb id timeout_last then [] else r.stacks id }

-- What stands before `u`, or the whole list if `u` is not in it.
unfoldable pub before : ℕ → List ℕ → List ℕ
before u [] = []
before u (x ∷ xs) = if x == u then [] else x ∷ before u xs

-- `svc_wdt_register`; `thread` is the calling one. The handler is cleared first, its link included, so
-- that a handler of the list is taken out with all that stand behind it.
unfoldable pub register : Registry → (thread u id : ℕ) → Registry
unfolding set_handler before
register r thread u id =
    let r' = set_handler r u (record {
      thread = thread;
      id = 0;
      active = false;
      kicked = false;
      flagged = false;
      reported = false;
      timeout = id;
    }) in
    if ltb id timeout_last
    then record r' { stacks = update r'.stacks id (u ∷ before u (r'.stacks id)) }
    else r'

-- `svc_wdt_unregister`
unfoldable pub unregister : Registry → (u id : ℕ) → Registry
unregister r u id =
    if ltb id timeout_last
    then record r { stacks = update r.stacks id (erase u (r.stacks id)) }
    else r

-- `svc_wdt_timeout`, in seconds
unfoldable pub timeout_of : Handler → ℕ
timeout_of h =
    if h.timeout == timeout_10_sec
    then 10
    else if h.timeout == timeout_30_sec
    then 30
    else if h.timeout == timeout_60_sec
    then 60
    else 10

-- `svc_wdt_activate`
unfoldable pub activate : Registry → (thread u : ℕ) → Registry
unfolding set_handler
activate r thread u = set_handler r u (record (r.handlers u) {
  thread = thread;
  active = true;
  kicked = true;
  flagged = false;
  reported = false;
})

-- `svc_wdt_set_id`
unfoldable pub set_id : Registry → (u id : ℕ) → Registry
unfolding set_handler
set_id r u id = set_handler r u (record (r.handlers u) { id = id })

-- `svc_wdt_deactivate`
unfoldable pub deactivate : Registry → ℕ → Registry
unfolding set_handler
deactivate r u =
    set_handler r u
      (record (r.handlers u) { active = false; kicked = false; flagged = false; reported = false })

-- `svc_wdt_handler_kick`
unfoldable pub handler_kick : Registry → ℕ → Registry
unfolding set_handler
handler_kick r u =
    set_handler r u (record (r.handlers u) { kicked = true; reported = false; flagged = false })

-- The body of the loop of `svc_wdt_process`: the handler as it is left, and whether `kick` stays.
unfoldable pub visit : Handler → Handler × Bool
visit h =
    if h.active
    then if h.kicked
      then (record h { kicked = false; flagged = false; reported = false }, true)
      else if h.flagged
      then (if not h.reported then record h { reported = true } else h, false)
      else (record h { flagged = true }, true)
    else (h, true)

-- The loop of `svc_wdt_process` from the handler at the front of the list on.
unfoldable pub process_from : Registry → Bool → List ℕ → Registry × Bool
unfolding visit set_handler
process_from r kick [] = (r, kick)
process_from r kick (u ∷ us) =
    let (h, stays) = visit (r.handlers u) in
    process_from (set_handler r u h) (if stays then kick else false) us

-- `svc_wdt_process`
unfoldable pub process : Registry → ℕ → Registry × Bool
unfolding process_from
process r id = process_from r true (r.stacks id)
