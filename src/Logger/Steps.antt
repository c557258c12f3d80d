-- ===== src/Logger/Steps.antt =====
-- The counter and the blocks of the messages of src/svc/svc_logger.c, in any order of the steps of the
-- threads that log and of the task pool: a thread may be held up between the scheduling of a message
-- and the count of it.
use qoraal.Base.{ℕ, ◌+◌, ◌≡◌, ◌<◌, refl, ap, Bool, Option, List, [], length, ℤ, arith}
use qoraal.Logger.{
  Filter, Message, Logger, svc_logger_channel_add, svc_logger_channel_remove,
  svc_logger_set_mem_filter, severity_channel_available,
}
use qoraal.Logger.Post.{type_vlog, put, vlog_state, type_mem, counted, run_next}
use qoraal.Logger.Balance.{
  Balances, leaked, type_vlog-Balances, put-Balances, type_mem-Balances, vlog_state-Balances,
  counted-Balances, run_next-Balances,
}

-- The states that the module gets into: from one without messages, by its functions in any order, with
-- whatever the heap, the task pool and the C library return; with the number of the messages of
-- `svc_logger_vlog_state` so far that were for the log in memory alone.
pub data Reach : ℕ → Logger → Type 0 where
  starts : (s : Logger) → s.queue ≡ [] → s.sending ≡ 0 → s.blocks ≡ 0 → s.uncounted ≡ 0 → Reach 0 s
  logs :
      {n : ℕ} (s : Logger) (type facility : ℕ) (started allocated : Bool) (stamp : List ℕ)
      (text : Option (List ℕ)) (result : ℤ)
      → Reach n s
      → Reach n (type_vlog s type facility started allocated stamp text result).0
  puts :
      {n : ℕ} (s : Logger) (str : List ℕ) (len : ℕ) (allocated : Bool) (result : ℤ)
      → Reach n s
      → Reach n (put s str len allocated result).0
  dumps :
      {n : ℕ} (s : Logger) (type facility : ℕ) (started allocated : Bool) (text : List ℕ)
      (result : ℤ)
      → Reach n s
      → Reach n (type_mem s type facility started allocated text result).0
  states :
      {n : ℕ} (s : Logger) (inst : ℕ) (started allocated : Bool) (text : Option (List ℕ))
      (result : ℤ)
      → Reach n s
      → Reach
          (n + leaked s started allocated text)
          (vlog_state s inst started allocated text result).0
  counts : {n : ℕ} (s : Logger) → 0 < s.uncounted → Reach n s → Reach n (counted s)
  runs : {n : ℕ} (s : Logger) (run : Bool) → Reach n s → Reach n (run_next s s.queue run)
  adds : {n : ℕ} (s : Logger) (channel : ℕ) → Reach n s → Reach n (svc_logger_channel_add s channel)
  removes :
      {n : ℕ} (s : Logger) (channel : ℕ) → Reach n s → Reach n (svc_logger_channel_remove s channel)
  filters : {n : ℕ} (s : Logger) (f : Filter) → Reach n s → Reach n (svc_logger_set_mem_filter s f)

pub Reach-Balances : {n : ℕ} → (s : Logger) → Reach n s → Balances n s
unfolding svc_logger_channel_add svc_logger_channel_remove severity_channel_available
    svc_logger_set_mem_filter
Reach-Balances s (starts t q n b u) =
    let l : length t.queue ≡ 0 = ap (λ (x : List Message). length x) q in
    (rw (n, u, l) refl, omega (arith, b, l), omega (arith, n))
Reach-Balances s (logs t type facility started allocated stamp text result r) =
    type_vlog-Balances _ t type facility started allocated stamp text result (Reach-Balances t r)
Reach-Balances s (puts t str len allocated result r) =
    put-Balances _ t str len allocated result (Reach-Balances t r)
Reach-Balances s (dumps t type facility started allocated text result r) =
    type_mem-Balances _ t type facility started allocated text result (Reach-Balances t r)
Reach-Balances s (states t inst started allocated text result r) =
    vlog_state-Balances _ t inst started allocated text result (Reach-Balances t r)
Reach-Balances s (counts t u r) = counted-Balances _ t u (Reach-Balances t r)
Reach-Balances s (runs t run r) = run_next-Balances _ t t.queue run refl (Reach-Balances t r)
Reach-Balances s (adds t channel r) = Reach-Balances t r
Reach-Balances s (removes t channel r) = Reach-Balances t r
Reach-Balances s (filters t f r) = Reach-Balances t r
