-- ===== src/Logger/Post.antt =====
-- The functions of src/svc/svc_logger.c that log a message, up to the point where it is scheduled, the
-- step behind that, which counts it, and the callback, which runs it.
use qoraal.Base.{
  ℕ, zero, suc, length, ◌+◌, ◌-◌, ◌%◌, ◌^◌, Bool, false, ◌&&◌, ◌||◌, not, Option, none, some, List,
  [], ◌∷◌, ◌++◌, ltb, leb, ◌==◌, if◌then◌else◌, ℤ, pos, ◌==ℤ◌,
}
use qoraal.Services.{eok}
use qoraal.Events.{bit}
use qoraal.Strsub.Buffer.{take}
use qoraal.Tasks.{word}
use qoraal.Logger.{
  Filter, Channel, Message, Call, Logger, e_timeout, e_nomem, severity, no_timestamp, progress,
  svc_logger_would_log, hears,
}
use qoraal.Logger.Create.{taken, create_task}

-- `SVC_LOGGER_MAX_QUEUE_SIZE`
abbrev pub max_queue_size : ℕ
max_queue_size = 16

-- `_logger_debug_sending >= SVC_LOGGER_MAX_QUEUE_SIZE`, where a number from 2 ^ 31 on is negative
unfoldable pub is_full : Logger → Bool
is_full s = ltb s.sending (2 ^ 31) && leb max_queue_size s.sending

-- The message is handed to the log in memory.
unfoldable pub remember : Logger → Message → Logger
remember s m = record s { logged = m ∷ s.logged }

-- `qoraal_free` of a message
unfoldable pub release : Logger → Logger
release s = record s { blocks = s.blocks - 1 }

-- The message waits for the task pool.
unfoldable pub scheduled : Logger → Message → Logger
scheduled s m = record s { queue = s.queue ++ (m ∷ []); uncounted = s.uncounted + 1 }

-- `svc_tasks_schedule` of a message with its result, where the severity lets it through; the status is
-- that of a comparison.
unfoldable pub submit : Logger → Message → (result : ℤ) → Logger × ℤ
submit s m result =
    if ltb (severity s.filter.type) (severity m.type)
    then (release s, eok)
    else if not (result ==ℤ eok)
    then (release s, pos 1)
    else (scheduled s m, eok)

-- The part of `svc_logger_vlogx` behind the making of the message
unfoldable pub post : Logger × Option Message → (started : Bool) → (result : ℤ) → Logger × ℤ
post (s, none) started result = (s, e_nomem)
post (s, some m) started result =
    if (started && not (progress m.type))
      && leb (severity m.type) (severity s.filter_mem.type)
      && bit m.facility s.filter_mem.mask
    then submit (remember s m) m result
    else submit s m result

-- `svc_logger_vlogx`
unfoldable pub vlogx :
    Logger
    → (type facility : ℕ) → (started allocated : Bool) → (stamp : List ℕ) → Option (List ℕ)
    → (result : ℤ) → Logger × ℤ
vlogx s type facility started allocated stamp text result =
    if is_full s
    then (s, e_timeout)
    else post (create_task s type facility allocated stamp text) started result

-- `svc_logger_type_vlog`
unfoldable pub type_vlog :
    Logger
    → (type facility : ℕ) → (started allocated : Bool) → (stamp : List ℕ) → Option (List ℕ)
    → (result : ℤ) → Logger × ℤ
type_vlog s type facility started allocated stamp text result =
    if svc_logger_would_log s started type facility
    then vlogx s type facility started allocated stamp text result
    else (s, eok)

-- `svc_logger_vprintf` and `svc_logger_printf`: SVC_LOGGER_SEVERITY_REPORT
unfoldable pub vprintf :
    Logger
    → (started allocated : Bool) → (stamp : List ℕ) → Option (List ℕ)
    → (result : ℤ) → Logger × ℤ
vprintf s started allocated stamp text result = type_vlog s 4 0 started allocated stamp text result

-- `svc_logger_put` of a text: SVC_LOGGER_SEVERITY_REPORT with all three flags
unfoldable pub put :
    Logger → (str : List ℕ) → (len : ℕ) → (allocated : Bool) → (result : ℤ) → Logger × ℤ
put s str len allocated result =
    let m : Message = record {
      type = 4 + 16 + 32 + 64;
      facility = 0;
      id = s.id;
      text = take len str;
    } in
    if not allocated
    then (s, eok)
    else if not (result ==ℤ eok)
    then (release (taken s), result)
    else (scheduled (taken s) m, eok)

-- The message of `svc_logger_vlog_state`: SVC_LOGGER_SEVERITY_WARNING
unfoldable pub post_state : Logger → Message → (started : Bool) → (result : ℤ) → Logger
post_state s m started result =
    let s1 =
      if started && leb 3 (severity s.filter_mem.type)
      then remember (record s { id = (s.id + 1) % 2 ^ 16 }) (record m { id = s.id })
      else s in
    if leb 3 (severity s.filter.type)
    then (if ltb (severity s.filter.type) 4 || (length s.channels == 0 || not (result ==ℤ eok))
        then release s1
        else scheduled s1 m)
    else s1

-- `svc_logger_vlog_state` for the instance `inst`, as 16 bits of it; `text` has the stamp.
unfoldable pub vlog_state :
    Logger → (inst : ℕ) → (started allocated : Bool) → Option (List ℕ) → (result : ℤ) → Logger × ℤ
vlog_state s inst started allocated none result = (s, eok)
vlog_state s inst started allocated (some text) result =
    if leb 3 (severity s.filter.type) || (started && leb 3 (severity s.filter_mem.type))
    then (if not allocated then (s, e_nomem) else (
      post_state (record s { blocks = s.blocks + 1 })
          (record { type = 3; facility = 0; id = inst % 2 ^ 16; text = text }) started result,
      eok,
    ))
    else (s, eok)

-- The part of `svc_logger_type_mem` behind the making of the message
unfoldable pub post_mem : Logger → Message → (started : Bool) → (result : ℤ) → Logger × ℤ
post_mem s m started result =
    if started && leb (severity m.type) (severity s.filter_mem.type)
    then submit (remember s (record m { facility = 0 })) m result
    else submit s m result

-- `svc_logger_type_mem`, where `text` is the head and the dump of the memory
unfoldable pub type_mem :
    Logger
    → (type facility : ℕ) → (started allocated : Bool) → (text : List ℕ) → (result : ℤ) → Logger × ℤ
type_mem s type facility started allocated text result =
    if is_full s
    then (s, e_timeout)
    else if leb 3 (severity s.filter.type) || (started && leb 3 (severity s.filter_mem.type))
    then (if not allocated
        then (s, e_nomem)
        else post_mem (taken s)
            (record { type = type; facility = facility; id = s.id; text = text }) started result)
    else (s, eok)

-- The count of a message that was scheduled
unfoldable pub counted : Logger → Logger
counted s = record s { sending = (s.sending + 1) % word; uncounted = s.uncounted - 1 }

abbrev drop : ℕ → List ℕ → List ℕ
drop zero cs = cs
drop (suc n) [] = []
drop (suc n) (c ∷ cs) = drop n cs

abbrev opens : List ℕ → Bool
opens [] = false
opens (c ∷ cs) = c == 91

-- The text for a channel, without the stamp where its filter asks for that
unfoldable pub shown : Message → Filter → List ℕ
shown m f = if no_timestamp f.type && opens m.text then drop 12 m.text else m.text

-- A channel is called, if by some filter.
unfoldable pub call : Message → (c : ℕ) → Option Filter → List Call → List Call
call m c none rest = rest
call m c (some f) rest =
    record { to = c; type = m.type; facility = m.facility; text = shown m f } ∷ rest

-- The loop of `logger_task_callback` over the channels
unfoldable pub tell : (ℕ → Channel) → Message → List ℕ → List Call
tell channel m [] = []
tell channel m (c ∷ cs) = call m c (hears m (channel c)) (tell channel m cs)

-- `logger_task_callback`, where `run` says whether the reason is SERVICE_CALLBACK_REASON_RUN
unfoldable pub task_callback : Logger → Message → (run : Bool) → Logger
task_callback s m run =
    let s1 = if run then record s { calls = s.calls ++ tell s.channel m s.channels } else s in
    release (record s1 { sending = (s.sending + word - 1) % word })

-- The task pool calls back for the message that waits longest.
unfoldable pub run_next : Logger → List Message → (run : Bool) → Logger
run_next s [] run = s
run_next s (m ∷ ms) run = task_callback (record s { queue = ms }) m run

-- `svs_logger_severity_str`, by the place of the name
unfoldable pub severity_name : (type : ℕ) → ℕ
severity_name type = if leb 9 (severity type) then 8 else severity type
