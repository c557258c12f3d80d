-- ===== src/Mlog/Setup.antt =====
-- The set-up of the logs of src/common/mlog.c, in memory that may hold the logs of an earlier run.
use qoraal.Base.{
  ℕ, ◌>>=◌, ◌+◌, ◌-◌, ◌*◌, ◌/◌, ◌≤◌, Bool, true, false, ◌&&◌, not, Option, none, some, leb, ◌==◌,
  if◌then◌else◌, ℤ,
}
use qoraal.Services.{eok, e_unexp}
use qoraal.Cbuffer.{Queue, Platform, queue_init}
use qoraal.Cbuffer.Validate.{validate}
use qoraal.Mlog.{Mlog, Log, debug, asserts, inst, set_inst}

-- `MLOG_LOGS_BUFFERSIZE_MIN`
abbrev pub buffersize_min : ℕ
buffersize_min = 512

-- What the compiler decides of `MLOG_INST_T`: its size in bytes, and the words before its buffer.
pub record Layout (header : ℕ) : Type 0 where
  pub size : ℕ
  pub offset : ℕ
  pub below : 4 * offset ≤ size
  pub room : header ≤ offset
  pub size_max : size ≤ buffersize_min

-- `mlog_started`
unfoldable pub mlog_started : Mlog → Bool
mlog_started s = s.started

module _ (platform : Platform) (layout : Layout platform.header) where
  open layout use {size, offset}

  -- The words of a log's buffer
  unfoldable pub words : (bytes : ℕ) → ℕ
  words bytes = (bytes - size) / 4

  unfoldable pub emptied : Queue → (bytes : ℕ) → Queue
  unfolding words
  emptied q bytes = queue_init platform q (q.self + offset) (words bytes)

  unfoldable pub recovered : (bytes : ℕ) → Queue × Bool → Queue
  unfolding emptied
  recovered bytes (q, true) = q
  recovered bytes (q, false) = emptied q bytes

  -- A log of `mlog_init`, in the memory where `q` stands
  unfoldable pub set_up : (fuel : ℕ) → (q : Queue) → (bytes : ℕ) → Option Queue
  unfolding recovered words
  set_up fuel q bytes = do
    r ← validate platform fuel q (q.self + offset) (words bytes)
    some (recovered bytes r)

  -- A log of `mlog_init`, if there is a buffer for it that is large enough
  unfoldable pub init_log : (fuel : ℕ) → Mlog → Log → (q : Queue) → (bytes : ℕ) → Option Mlog
  unfolding set_up set_inst
  init_log fuel s log q bytes =
      if not (q.self == 0) && leb buffersize_min bytes
      then (do q' ← set_up fuel q bytes; some (set_inst s log (some q')))
      else some s

  -- `mlog_init`
  unfoldable pub mlog_init :
      (fuel : ℕ)
      → Mlog
      → (log : Queue) → (log_size : ℕ) → (assert_log : Queue) → (assert_size : ℕ) → Option Mlog
  unfolding init_log
  mlog_init fuel s log log_size assert_log assert_size = do
    s1 ← init_log fuel s debug log log_size
    s2 ← init_log fuel s1 asserts assert_log assert_size
    some (record s2 { started = true })

  unfoldable pub reset_log : Mlog → Log → Option Queue → (bytes : ℕ) → Mlog
  unfolding set_inst emptied
  reset_log s log none bytes = s
  reset_log s log (some q) bytes = set_inst s log (some (emptied q bytes))

  -- `mlog_reset` of a log that was set up in so many bytes
  unfoldable pub mlog_reset : Mlog → Log → (bytes : ℕ) → Mlog × ℤ
  unfolding reset_log inst
  mlog_reset s log bytes =
      if not s.started then (s, e_unexp) else (reset_log s log (inst s log) bytes, eok)
