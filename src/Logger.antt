-- ===== src/Logger.antt =====
-- src/svc/svc_logger.c and include/qoraal/svc/svc_logger.h: messages for the log in memory and for the
-- channels, which the task pool calls. A channel is named by the address of its structure; the call
-- of its function is noted in `calls`, the append to the log in memory in `logged`, and the block of
-- a message is counted in `blocks`. What the C library formats, the stamp of the time, the result of
-- the heap and that of `svc_tasks_schedule` are arguments, as is whether the log in memory is set up.
-- The mutex around the list of channels is left out.

pub mod Create
pub mod Post
pub mod Filters
pub mod Dispatch
pub mod Steps
pub mod Balance
pub mod Start
mod Tests
use qoraal.Base.{
  ℕ, zero, suc, ◌+◌, ◌-◌, ◌*◌, ◌/◌, ◌%◌, Bool, true, false, ◌&&◌, ◌||◌, not, Option, none, some,
  List, [], ◌∷◌, ◌++◌, ltb, leb, ◌==◌, if◌then◌else◌, erase, ℤ, negsuc,
}
use qoraal.Events.{bit}

-- `LOGGGER_CHANNEL_FILTER_T`
pub record Filter : Type 0 where
  pub mask : ℕ
  pub type : ℕ

-- `LOGGER_CHANNEL_T`: whether it has a function, and its two filters
pub record Channel : Type 0 where
  pub fp : Bool
  pub filter0 : Filter
  pub filter1 : Filter

-- `LOGGER_TASK_T`
pub record Message : Type 0 where
  pub type : ℕ
  pub facility : ℕ
  pub id : ℕ
  pub text : List ℕ

-- A call of a channel's function
pub record Call : Type 0 where
  pub to : ℕ
  pub type : ℕ
  pub facility : ℕ
  pub text : List ℕ

-- The module's variables, the messages that are scheduled and have not been run, and the ghost fields:
-- the blocks of the heap that are held, and the messages that were scheduled and are not yet counted.
pub record Logger : Type 0 where
  pub filter : Filter
  pub filter_mem : Filter
  pub id : ℕ
  pub sending : ℕ
  pub channels : List ℕ
  pub channel : ℕ → Channel
  pub queue : List Message
  pub blocks : ℕ
  pub uncounted : ℕ
  pub calls : List Call
  pub logged : List Message

-- `E_TIMEOUT`
abbrev pub e_timeout : ℤ
e_timeout = negsuc 2301

-- `E_NOMEM`
abbrev pub e_nomem : ℤ
e_nomem = negsuc 2303

-- `SVC_LOGGER_GET_SEVERITY`
unfoldable pub severity : (type : ℕ) → ℕ
severity type = type % 16

-- `SVC_LOGGER_FLAGS_NO_FORMATTING`
unfoldable pub no_formatting : (type : ℕ) → Bool
no_formatting type = bit 4 type

-- `SVC_LOGGER_FLAGS_NO_TIMESTAMP`
unfoldable pub no_timestamp : (type : ℕ) → Bool
no_timestamp type = bit 5 type

-- `SVC_LOGGER_FLAGS_PROGRESS`
unfoldable pub progress : (type : ℕ) → Bool
progress type = bit 6 type

-- `SVC_LOGGER_WOULD_LOG`
unfoldable pub would_log : Filter → (type facility : ℕ) → Bool
would_log filter type facility =
    leb (severity type) (severity filter.type) && (facility == 0 || bit facility filter.mask)

-- `svc_logger_would_log`
unfoldable pub svc_logger_would_log : Logger → (started : Bool) → (type facility : ℕ) → Bool
svc_logger_would_log s started type facility =
    would_log s.filter type facility
    || (started && (not (progress s.filter_mem.type) && would_log s.filter_mem type facility))

-- `a | b` of so many bits
unfoldable pub joined : (bits a b : ℕ) → ℕ
joined zero a b = 0
joined (suc n) a b = (if a % 2 == 1 || b % 2 == 1 then 1 else 0) + 2 * joined n (a / 2) (b / 2)

-- A filter of a channel in the loop of `severity_channel_available`
unfoldable pub merge : Filter → Filter → Filter
merge f g = if g.mask == 0 then f else record {
  type = if ltb f.type (severity g.type) then severity g.type else f.type;
  mask = joined 64 f.mask g.mask;
}

-- The loop of `severity_channel_available`
unfoldable pub gathered : (ℕ → Channel) → List ℕ → Filter → Filter
gathered channel [] f = f
gathered channel (c ∷ cs) f =
    gathered channel cs (merge (merge f (channel c).filter0) (channel c).filter1)

-- `severity_channel_available`
unfoldable pub severity_channel_available : Logger → Logger
severity_channel_available s = record s {
  filter = gathered s.channel s.channels (record { mask = 0; type = 0 });
}

-- `svc_logger_set_mem_filter`
unfoldable pub svc_logger_set_mem_filter : Logger → Filter → Logger
svc_logger_set_mem_filter s f = record s { filter_mem = f }

-- `svc_logger_channel_add`
unfoldable pub svc_logger_channel_add : Logger → (channel : ℕ) → Logger
svc_logger_channel_add s c =
    severity_channel_available (record s { channels = s.channels ++ (c ∷ []) })

-- `svc_logger_channel_remove`
unfoldable pub svc_logger_channel_remove : Logger → (channel : ℕ) → Logger
svc_logger_channel_remove s c =
    severity_channel_available (record s { channels = erase c s.channels })

-- `(mask & filter.mask)` for the mask of a facility, which is all ones for the facility 0
unfoldable pub has_facility : (facility mask : ℕ) → Bool
has_facility facility mask = if facility == 0 then not (mask == 0) else bit facility mask

-- A filter of a channel lets the message through.
unfoldable pub passes : Message → Filter → Bool
passes m f =
    leb (severity m.type) (severity f.type)
    && has_facility m.facility f.mask
    && (not (progress m.type) || progress f.type)

-- The filter by which a channel is called, if it is
unfoldable pub hears : Message → Channel → Option Filter
hears m c =
    if not c.fp
    then none
    else if passes m c.filter0
    then some c.filter0
    else if passes m c.filter1
    then some c.filter1
    else none
