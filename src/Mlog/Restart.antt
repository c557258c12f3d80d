-- ===== src/Mlog/Restart.antt =====
-- The logs of src/common/mlog.c across a restart.
use qoraal.Base.{
  ℕ, ◌+◌, ◌-◌, ◌/◌, ◌^◌, ◌≡◌, ◌≤◌, ◌<◌, ◌⊎◌, inl, inr, refl, Bool, true, false, some, List, [], leb,
  ◌==◌, arith,
}
use mathlib.Core.Path.{subst}
use qoraal.Cbuffer.{Queue, Platform}
use qoraal.Cbuffer.Layout.{Block}
use qoraal.Cbuffer.Refine.{IsQueue}
use qoraal.Cbuffer.Walk.{queue_init-IsQueue}
use qoraal.Cbuffer.Validate.{validate}
use qoraal.Cbuffer.Valid.{validate-IsQueue}
use qoraal.Cbuffer.Returns.{Checked, validate-Checked}
use qoraal.Mlog.{Mlog, Log, debug, asserts, set_inst}
use qoraal.Mlog.Setup.{
  Layout, buffersize_min, words, emptied, recovered, set_up, init_log, mlog_init,
}

module _ (platform : Platform) (layout : Layout platform.header) where
  open layout use {size, offset}

  -- The queue of a log in a structure of so many bytes, which is not at address 0
  abbrev pub IsPlaced : Queue → (bytes : ℕ) → Type 0
  IsPlaced q bytes =
      (0 < q.self)
      × (buffersize_min ≤ bytes)
      × (q.cb.start ≡ q.self + offset)
      × (q.cb.end ≡ q.self + offset + words platform layout bytes)

  -- A well-formed log is kept.
  pub set_up-IsQueue :
      (fuel : ℕ) (q : Queue) (xs : List Block) (bytes : ℕ)
      → IsQueue platform q xs
      → IsPlaced q bytes
      → bytes < fuel
      → set_up platform layout fuel q bytes ≡ some q
  unfolding set_up recovered words
  set_up-IsQueue fuel q xs bytes v p f =
      let e : validate platform fuel q (q.self + offset) ((bytes - size) / 4) ≡ some (q, true) =
        subst (λ (a : ℕ). validate platform fuel q a ((bytes - size) / 4) ≡ some (q, true)) (p.2)
          (subst (λ (n : ℕ). validate platform fuel q q.cb.start n ≡ some (q, true))
            (omega (arith, p))
            (validate-IsQueue platform q xs v (omega (arith, p)) fuel (omega (arith, p)))) in
      simp e refl

  init_log-IsQueue :
      (fuel : ℕ) (s : Mlog) (log : Log) (q : Queue) (xs : List Block) (bytes : ℕ)
      → IsQueue platform q xs
      → IsPlaced q bytes
      → bytes < fuel
      → init_log platform layout fuel s log q bytes ≡ some (set_inst s log (some q))
  unfolding init_log
  init_log-IsQueue fuel s log q xs bytes v p f =
      let z : (q.self == 0) ≡ false = ground (arith, p.0) in
      let l : leb buffersize_min bytes ≡ true = ground (arith, p.1) in
      simp (z, l, set_up-IsQueue fuel q xs bytes v p f) refl

  -- `mlog_init` keeps the logs of an earlier run: where both structures hold a well-formed queue in
  -- the words of its buffer, and have at least the least size, it sets both logs up with these queues
  -- as they are. The loops are given more steps than the structures have bytes.
  pub mlog_init-IsQueue :
      (fuel : ℕ) (s : Mlog) (q : Queue) (xs : List Block) (n : ℕ) (q' : Queue) (ys : List Block)
      → (m : ℕ) → IsQueue platform q xs
      → IsPlaced q n
      → IsQueue platform q' ys
      → IsPlaced q' m
      → n < fuel
      → m < fuel
      → mlog_init platform layout fuel s q n q' m
        ≡ some (record s { started = true; debug_queue = some q; asserts_queue = some q' })
  unfolding mlog_init set_inst
  mlog_init-IsQueue fuel s q xs n q' ys m v p v' p' f f' =
      simp
        (
          init_log-IsQueue fuel s debug q xs n v p f,
          init_log-IsQueue fuel (record s { debug_queue = some q }) asserts q' ys m v' p' f',
        )
        refl

  emptied-IsQueue :
      (q : Queue) (bytes : ℕ)
      → words platform layout bytes < 2 ^ 16
      → IsQueue platform (emptied platform layout q bytes) []
  unfolding emptied
  emptied-IsQueue q bytes h =
      queue_init-IsQueue platform q (q.self + offset) (words platform layout bytes) h
        (inl (omega (arith, layout.room)))

  recovered-Checked :
      (q : Queue) (bytes : ℕ) (r : Queue × Bool)
      → words platform layout bytes < 2 ^ 16
      → Checked platform q (words platform layout bytes) r
      → IsQueue platform (recovered platform layout bytes r) []
        ⊎ Checked platform q (words platform layout bytes) (recovered platform layout bytes r, true)
  unfolding recovered
  recovered-Checked q bytes (q', true) h c = inr c
  recovered-Checked q bytes (q', false) h c = inl (emptied-IsQueue q' bytes h)

  -- Whatever the memory holds, the set-up of a log by `mlog_init` returns, and the log then is an empty
  -- queue, or one that passed the check of `cqueue_validate`. This holds of a buffer whose words a
  -- uint16_t counts, with more steps than these for the loops.
  pub set_up-Checked :
      (fuel : ℕ) (q : Queue) (bytes : ℕ)
      → words platform layout bytes < 2 ^ 16
      → words platform layout bytes < fuel
      → (q' : Queue) × (set_up platform layout fuel q bytes ≡ some q')
        × (IsQueue platform q' [] ⊎ Checked platform q (words platform layout bytes) (q', true))
  unfolding set_up
  set_up-Checked fuel q bytes h f =
      let (r, e, c) =
        validate-Checked platform fuel q (q.self + offset) (words platform layout bytes) h f in
      (recovered platform layout bytes r, simp e refl, recovered-Checked q bytes r h c)
