-- ===== src/Logger/Start.antt =====
-- `svc_logger_init` of src/svc/svc_logger.c, with the logs in memory that it sets up (src/common/mlog.c).
use qoraal.Base.{ℕ, ◌>>=◌, ◌-◌, ◌*◌, ◌||◌, Option, some, [], ltb, if◌then◌else◌}
use qoraal.Cbuffer.{Queue, Platform}
use qoraal.Mlog.{Mlog}
use qoraal.Mlog.Setup.{Layout, mlog_started, mlog_init}
use qoraal.Logger.{Logger}

module _ (platform : Platform) (layout : Layout platform.header) where
  -- The memory for the logs has `size` bytes: `log` stands at its begin, `assert_log` 512 bytes before
  -- its end.
  unfoldable pub svc_logger_init :
      (fuel : ℕ) → Logger → Mlog → (log assert_log : Queue) → (size : ℕ) → Option (Logger × Mlog)
  svc_logger_init fuel l s log assert_log size =
      if mlog_started s || ltb size (4 * 1024) then some (record l { channels = [] }, s) else (do
        s' ← mlog_init platform layout fuel s log (size - 512) assert_log 512
        some (record l { channels = [] }, s'))
