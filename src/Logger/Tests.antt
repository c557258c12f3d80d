-- ===== src/Logger/Tests.antt =====
-- A logger with a channel for warnings and worse of the facility 2, and the theorems about it there.
use qoraal.Base.{◌-◌, ◌^◌, ◌≡◌, refl, true, false, some, [], ◌∷◌, length, arith}
use qoraal.Services.{eok}
use qoraal.Events.{bit}
use qoraal.Logger.{
  Filter, Message, Logger, severity, progress, no_formatting, no_timestamp, would_log,
  svc_logger_would_log, joined, merge, gathered, severity_channel_available, svc_logger_channel_add,
  has_facility, passes, hears,
}
use qoraal.Logger.Create.{cut, trimmed, stamped, taken, create_task}
use qoraal.Logger.Post.{
  is_full, remember, release, scheduled, submit, post, vlogx, type_vlog, vlog_state, counted,
}
use qoraal.Logger.Filters.{severity_channel_available-hears}
use qoraal.Logger.Dispatch.{Reaches, type_vlog-Reaches}

abbrev warnings : Filter
warnings = record { mask = 4; type = 3 }

abbrev nothing : Filter
nothing = record { mask = 0; type = 0 }

abbrev raw : Logger
raw = record {
  filter = nothing;
  filter_mem = record { mask = 2 ^ 64 - 1; type = 5 };
  id = 0;
  sending = 0;
  channels = [];
  channel = λ c. record { fp = true; filter0 = nothing; filter1 = warnings };
  queue = [];
  blocks = 0;
  uncounted = 0;
  calls = [];
  logged = [];
}

abbrev logger : Logger
logger = svc_logger_channel_add raw 50

-- An error of the facility 2 is logged in memory, and the channel is called with its text without the
-- end of the line; a report is not for the channel.
runs :
    ((type_vlog logger 2 2 true true (91 ∷ []) (some (97 ∷ 13 ∷ 10 ∷ [])) eok).0.queue
      ≡ record { type = 2; facility = 2; id = 0; text = 91 ∷ 97 ∷ [] } ∷ [])
    × ((type_vlog logger 4 2 true true (91 ∷ []) (some (97 ∷ [])) eok).0.queue ≡ [])
    × (length (type_vlog logger 4 2 true true (91 ∷ []) (some (97 ∷ [])) eok).0.logged ≡ 1)
unfolding svc_logger_channel_add severity_channel_available gathered merge joined type_vlog
    svc_logger_would_log would_log severity bit vlogx is_full create_task taken stamped
    no_formatting no_timestamp trimmed cut post progress remember submit scheduled release
runs = (refl, refl, refl)

abbrev error : Message
error = record { type = 2; facility = 2; id = 0; text = [] }

error_heard : hears error (raw.channel 50) ≡ some warnings
unfolding hears passes severity has_facility bit progress
error_heard = refl

severity_channel_available-hears_example :
    would_log (severity_channel_available (record raw { channels = 50 ∷ [] })).filter 2 2 ≡ true
severity_channel_available-hears_example =
    severity_channel_available-hears (record raw { channels = 50 ∷ [] }) error 50 warnings
      (omega arith) refl error_heard

not_full : is_full logger ≡ false
unfolding is_full svc_logger_channel_add severity_channel_available
not_full = refl

is_current : logger.filter ≡ (severity_channel_available logger).filter
unfolding svc_logger_channel_add severity_channel_available
is_current = refl

type_vlog-Reaches_example :
    Reaches logger 2 2 50 (type_vlog logger 2 2 true true (91 ∷ []) (some (97 ∷ [])) eok)
unfolding svc_logger_channel_add severity_channel_available
type_vlog-Reaches_example =
    type_vlog-Reaches logger 2 2 true (91 ∷ []) (97 ∷ []) 50 warnings (omega arith) not_full
      is_current refl (refl, tt) error_heard

-- A message for the log in memory alone has kept its block; then a channel is added.
abbrev kept : Logger
kept = svc_logger_channel_add (vlog_state raw 1 true true (some (97 ∷ [])) eok).0 50

-- One more message waits and is counted.
abbrev sent : Logger
sent = counted (type_vlog kept 2 2 true true (91 ∷ []) (some (97 ∷ [])) eok).0
