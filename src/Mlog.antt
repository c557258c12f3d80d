-- ===== src/Mlog.antt =====
-- src/common/mlog.c: the log in memory, a queue of messages in a circular buffer (`Cbuffer`). Old
-- messages make room for new ones. The text that the C library formats, the date and the time are
-- arguments. The queue of a log is there once the log has been initialised; its structure and that
-- of the log stand at one address. The mutex is left out but where a function returns with it.
pub mod Append
pub mod Setup
pub mod Restart
pub mod Iterate
pub mod Newest
mod Tests
use qoraal.Base.{
  ℕ, zero, suc, ◌+◌, ◌-◌, ◌*◌, ◌/◌, ◌%◌, ◌^◌, Bool, true, false, ◌&&◌, ◌||◌, not, Option, none,
  some, List, [], ◌∷◌, ltb, ◌==◌, if◌then◌else◌, length, ℤ,
}
use qoraal.Services.{eok, e_unexp}
use qoraal.Strsub.Buffer.{take}
use qoraal.Tasks.{update}
use qoraal.Cbuffer.{Queue, Platform, enqueue, dequeue}

-- `QORAAL_LOG_MSG_T`; its text without the zero at the end
pub record Message : Type 0 where
  pub kind : ℕ
  pub id : ℕ
  pub cnt : ℕ
  pub date : ℕ
  pub time : ℕ
  pub len : ℕ
  pub text : List ℕ

-- `MLOG_TYPE_T`
pub data Log : Type 0 where
  debug : Log
  asserts : Log

-- The module's variables: the queues of the two logs, and what stands in the items of these, by their
-- addresses.
pub record Mlog : Type 0 where
  pub started : Bool
  pub debug_queue : Option Queue
  pub asserts_queue : Option Queue
  pub messages : ℕ → Message
  pub count : ℕ

-- `MLOG_LOGS_MSG_SIZE_MAX`
abbrev pub msg_size_max : ℕ
msg_size_max = 256

-- The end of a line is cut off a text.
unfoldable pub trim : List ℕ → List ℕ
trim [] = []
trim (c ∷ cs) =
    let rest = trim cs in if length rest == 0 && (c == 13 || c == 10) then [] else c ∷ rest

-- `_mlog_inst`
unfoldable pub inst : Mlog → Log → Option Queue
inst s debug = s.debug_queue
inst s asserts = s.asserts_queue

unfoldable pub set_inst : Mlog → Log → Option Queue → Mlog
set_inst s debug q = record s { debug_queue = q }
set_inst s asserts q = record s { asserts_queue = q }

-- `get_cqueue`
unfoldable pub get_cqueue : Mlog → Log → Option Queue
unfolding inst
get_cqueue s log = if s.started then inst s log else none

-- The formatted text as far as the buffer holds it; none is a failure to format it.
unfoldable pub print : Option (List ℕ) → List ℕ
print none = []
print (some text) = take (msg_size_max - 1) text

-- The message is written to the item that the queue gave, if any.
unfoldable pub written : Log → Queue × Option ℕ → Mlog → Message → Mlog
unfolding set_inst
written log (q, none) s m = set_inst s log (some q)
written log (q, some item) s m =
    set_inst (record s { messages = update s.messages item m; count = (s.count + 1) % 2 ^ 16 }) log
      (some q)

module _ (platform : Platform) where
  -- The loop of `_append` that makes room: `cnt` more tries after the one that gave the item or none.
  unfoldable pub evict : (cnt : ℕ) → (len : ℕ) → Queue → Option ℕ → Queue × Option ℕ
  evict cnt len q (some item) = (q, some item)
  evict zero len q none = ((dequeue platform q).0, none)
  evict (suc k) len q none =
      let (q', n) = dequeue platform q in
      let (q'', r) = enqueue platform q' len in
      let more = evict k len q'' r in if n == 0 then (q', none) else more

  -- The item that `_append` gets from the queue
  unfoldable pub reserve : Queue → (len : ℕ) → Queue × Option ℕ
  reserve q len = let (q', r) = enqueue platform q len in evict 10 len q' r

  -- The part of `_append` behind the look-up of the queue
  unfoldable pub append_to : Log → Mlog → Queue → (len : ℕ) → Message → Mlog
  append_to log s q len m = written log (reserve q len) s m

  -- `_append`, where a message without text takes `head` bytes
  unfoldable pub append :
      (head : ℕ) → Mlog → Log → (kind id date time : ℕ) → Option (List ℕ) → Mlog × ℤ
  append head s log kind id date time formatted =
      let text = print formatted in
      let cut = trim text in
      let m : Message = record {
        kind = kind;
        id = id;
        cnt = s.count;
        date = date;
        time = time;
        len = length cut + 1;
        text = cut;
      } in
      elim (get_cqueue s log) [
        | none ↦ (s, e_unexp)
        | some q ↦ (append_to log s q ((head + length text + 1 + 4) / 4) m, eok)
      ]

  -- `mlog_append`
  unfoldable pub mlog_append :
      (head : ℕ) → Mlog → Log → (kind id date time : ℕ) → Option (List ℕ) → Mlog × ℤ
  unfolding append
  mlog_append head s log kind id date time formatted =
      if not s.started then (s, e_unexp) else append head s log kind id date time formatted

  -- `mlog_dbg` and `mlog_vdbg`
  unfoldable pub mlog_dbg : (head : ℕ) → Mlog → (kind id date time : ℕ) → Option (List ℕ) → Mlog × ℤ
  unfolding mlog_append
  mlog_dbg head s kind id date time formatted = mlog_append head s debug kind id date time formatted

  -- `mlog_log`: the facility and the severity are the two bytes of the message's type.
  unfoldable pub mlog_log :
      (head : ℕ) → Mlog → (facility severity date time : ℕ) → Option (List ℕ) → Mlog × ℤ
  unfolding mlog_append
  mlog_log head s facility severity date time formatted =
      mlog_append head s debug (severity % 2 ^ 8 + 2 ^ 8 * (facility % 2 ^ 8)) 0 date time formatted

  -- `mlog_assert`
  unfoldable pub mlog_assert : (head : ℕ) → Mlog → (date time : ℕ) → Option (List ℕ) → Mlog × ℤ
  unfolding append
  mlog_assert head s date time formatted = append head s asserts 0 0 date time formatted
