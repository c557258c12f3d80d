-- ===== src/Logger/Balance.antt =====
-- The counter and the blocks of the messages of src/svc/svc_logger.c, under each function of the module.
use qoraal.Base.{
  ℕ, ◌+◌, ◌%◌, ◌^◌, ◌≡◌, ◌<◌, ap, ◌∙◌, Bool, true, false, ◌&&◌, ◌||◌, not, Option, none, some, List,
  [], ◌∷◌, ltb, leb, ◌==◌, Bool-cases, inl, inr, length, length-append, ℤ, ◌==ℤ◌, if◌then◌else◌,
  arith,
}
use qoraal.Services.{eok}
use qoraal.Events.{bit}
use qoraal.Tasks.{word}
use qoraal.Logger.{Message, Logger, severity, progress, svc_logger_would_log}
use qoraal.Logger.Create.{taken, create_task}
use qoraal.Logger.Post.{
  is_full, remember, release, scheduled, submit, post, vlogx, type_vlog, put, post_state,
  vlog_state, post_mem, type_mem, counted, task_callback, run_next,
}

-- `k` blocks belong to no message that waits; the messages that wait are counted, but those that are
-- not yet.
abbrev pub Balances : (k : ℕ) → Logger → Type 0
Balances k s =
    ((s.sending + s.uncounted) % word ≡ length s.queue % word)
    × (s.blocks ≡ length s.queue + k)
    × (s.sending < word)

release-Balances : (k : ℕ) (s : Logger) → Balances (k + 1) s → Balances k (release s)
unfolding release
release-Balances k s (a, b, c) = (a, omega (arith, b), c)

taken-Balances : (k : ℕ) (s : Logger) → Balances k s → Balances (k + 1) (taken s)
unfolding taken
taken-Balances k s (a, b, c) = (a, omega (arith, b), c)

scheduled-Balances :
    (k : ℕ) (s : Logger) (m : Message) → Balances (k + 1) s → Balances k (scheduled s m)
unfolding scheduled
scheduled-Balances k s m (a, b, c) = (
  omega (arith, a, length-append s.queue (m ∷ [])),
  omega (arith, b, length-append s.queue (m ∷ [])),
  c,
)

-- The blocks that a call of `svc_logger_vlog_state` keeps for good: the one of a message that the log in
-- memory takes and the module's filter does not.
abbrev pub leaked : Logger → (started allocated : Bool) → Option (List ℕ) → ℕ
leaked s started allocated none = 0
leaked s started false (some text) = 0
leaked s started true (some text) =
    if leb 3 (severity s.filter.type)
    then 0
    else if started && leb 3 (severity s.filter_mem.type)
    then 1
    else 0

module _ (k : ℕ) where
  submit-Balances :
      (s : Logger) (m : Message) (result : ℤ)
      → Balances (k + 1) s
      → Balances k (submit s m result).0
  unfolding submit
  submit-Balances s m result h =
      elim (Bool-cases (ltb (severity s.filter.type) (severity m.type))) [
        | inl e ↦ simp e (release-Balances k s h)
        | inr e ↦ elim (Bool-cases (result ==ℤ eok)) [
          | inl f ↦ simp (e, f) (scheduled-Balances k s m h)
          | inr f ↦ simp (e, f) (release-Balances k s h)
        ]
      ]

  post-Balances :
      (s : Logger) (m : Message) (started : Bool) (result : ℤ)
      → Balances (k + 1) s
      → Balances k (post (s, some m) started result).0
  unfolding post remember
  post-Balances s m started result h =
      elim (Bool-cases (
        started
        && not (progress m.type)
        && leb (severity m.type) (severity s.filter_mem.type)
        && bit m.facility s.filter_mem.mask)) [
          | inl e ↦ simp e (submit-Balances (remember s m) m result h)
          | inr e ↦ simp e (submit-Balances s m result h)
        ]

  post-create_task :
      (s : Logger) (type facility : ℕ) (started allocated : Bool) (stamp : List ℕ)
      → (text : Option (List ℕ)) (result : ℤ) → Balances k s
      → Balances k (post (create_task s type facility allocated stamp text) started result).0
  unfolding create_task post
  post-create_task s type facility started allocated stamp none result h = h
  post-create_task s type facility started false stamp (some text) result h = h
  post-create_task s type facility started true stamp (some text) result h =
      post-Balances (taken s) _ started result (taken-Balances k s h)

  pub type_vlog-Balances :
      (s : Logger) (type facility : ℕ) (started allocated : Bool) (stamp : List ℕ)
      → (text : Option (List ℕ)) (result : ℤ) → Balances k s
      → Balances k (type_vlog s type facility started allocated stamp text result).0
  unfolding type_vlog vlogx
  type_vlog-Balances s type facility started allocated stamp text result h =
      elim (Bool-cases (svc_logger_would_log s started type facility)) [
        | inr e ↦ simp e h
        | inl e ↦ elim (Bool-cases (is_full s)) [
          | inl f ↦ simp (e, f) h
          | inr f ↦
              simp (e, f) (post-create_task s type facility started allocated stamp text result h)
        ]
      ]

  pub put-Balances :
      (s : Logger) (str : List ℕ) (len : ℕ) (allocated : Bool) (result : ℤ)
      → Balances k s
      → Balances k (put s str len allocated result).0
  unfolding put
  put-Balances s str len false result h = h
  put-Balances s str len true result h = elim (Bool-cases (result ==ℤ eok)) [
    | inl e ↦ simp e (scheduled-Balances k (taken s) _ (taken-Balances k s h))
    | inr e ↦ simp e (release-Balances k (taken s) (taken-Balances k s h))
  ]

  post_mem-Balances :
      (s : Logger) (m : Message) (started : Bool) (result : ℤ)
      → Balances (k + 1) s
      → Balances k (post_mem s m started result).0
  unfolding post_mem remember
  post_mem-Balances s m started result h =
      elim (Bool-cases (started && leb (severity m.type) (severity s.filter_mem.type))) [
        | inl e ↦ simp e (submit-Balances (remember s (record m { facility = 0 })) m result h)
        | inr e ↦ simp e (submit-Balances s m result h)
      ]

  pub type_mem-Balances :
      (s : Logger) (type facility : ℕ) (started allocated : Bool) (text : List ℕ) (result : ℤ)
      → Balances k s
      → Balances k (type_mem s type facility started allocated text result).0
  unfolding type_mem
  type_mem-Balances s type facility started allocated text result h =
      elim (Bool-cases (is_full s)) [
        | inl f ↦ simp f h
        | inr f ↦
            elim (Bool-cases
              (leb 3 (severity s.filter.type) || (started && leb 3 (severity s.filter_mem.type)))) [
                | inr e ↦ simp (f, e) h
                | inl e ↦ elim (Bool-cases allocated) [
                  | inr g ↦ simp (f, e, g) h
                  | inl g ↦
                      simp (f, e, g)
                        (post_mem-Balances (taken s) _ started result (taken-Balances k s h))
                ]
              ]
      ]

  -- The state's message, where the module's filter lets a warning through
  post_state-Balances :
      (s : Logger) (m : Message) (started : Bool) (result : ℤ)
      → leb 3 (severity s.filter.type) ≡ true
      → Balances (k + 1) s
      → Balances k (post_state s m started result)
  unfolding post_state remember
  post_state-Balances s m started result w h =
      elim (Bool-cases (started && leb 3 (severity s.filter_mem.type))) [
        | inl e ↦
            elim (Bool-cases (
              ltb (severity s.filter.type) 4 || (length s.channels == 0 || not (result ==ℤ eok)))) [
                | inl f ↦ simp (e, w, f) (release-Balances k _ h)
                | inr f ↦ simp (e, w, f) (scheduled-Balances k _ m h)
              ]
        | inr e ↦
            elim (Bool-cases (
              ltb (severity s.filter.type) 4 || (length s.channels == 0 || not (result ==ℤ eok)))) [
                | inl f ↦ simp (e, w, f) (release-Balances k s h)
                | inr f ↦ simp (e, w, f) (scheduled-Balances k s m h)
              ]
      ]

  -- The state's message for the log in memory alone
  post_state-kept :
      (s : Logger) (m : Message) (started : Bool) (result : ℤ)
      → (started && leb 3 (severity s.filter_mem.type)) ≡ true
      → leb 3 (severity s.filter.type) ≡ false
      → Balances (k + 1) s
      → Balances (k + 1) (post_state s m started result)
  unfolding post_state remember
  post_state-kept s m started result e w h = simp (e, w) h

  none_more : (s : Logger) → Balances k s → Balances (k + 0) s
  none_more s (a, b, c) = (a, omega (arith, b), c)

  pub vlog_state-Balances :
      (s : Logger) (inst : ℕ) (started allocated : Bool) (text : Option (List ℕ)) (result : ℤ)
      → Balances k s
      → Balances
          (k + leaked s started allocated text)
          (vlog_state s inst started allocated text result).0
  unfolding vlog_state
  vlog_state-Balances s inst started allocated none result h = none_more s h
  vlog_state-Balances s inst started false (some text) result h =
      elim (Bool-cases
        (leb 3 (severity s.filter.type) || (started && leb 3 (severity s.filter_mem.type)))) [
          | inl w ↦ simp w (none_more s h)
          | inr w ↦ simp w (none_more s h)
        ]
  vlog_state-Balances s inst started true (some text) result h =
      let s' = record s { blocks = s.blocks + 1 } in
      let m : Message = record { type = 3; facility = 0; id = inst % 2 ^ 16; text = text } in
      let h' : Balances (k + 1) s' = (h.0, omega (arith, h.1), h.2) in
      elim (Bool-cases (leb 3 (severity s.filter.type))) [
        | inl w ↦ simp w (
            none_more (post_state s' m started result)
              (post_state-Balances s' m started result w h'))
        | inr w ↦ elim (Bool-cases (started && leb 3 (severity s.filter_mem.type))) [
          | inl e ↦ simp (w, e) (post_state-kept s' m started result e w h')
          | inr e ↦ simp (w, e) (none_more s h)
        ]
      ]

  pub counted-Balances : (s : Logger) → 0 < s.uncounted → Balances k s → Balances k (counted s)
  unfolding counted
  counted-Balances s u (a, b, c) = (omega (arith, a), b, omega arith)

  task_callback-Balances :
      (s : Logger) (m : Message) (ms : List Message) (run : Bool)
      → s.queue ≡ m ∷ ms
      → Balances k s
      → Balances k (task_callback (record s { queue = ms }) m run)
  unfolding task_callback release
  task_callback-Balances s m ms true e (a, b, c) =
      let l : length s.queue ≡ length ms + 1 =
        ap (λ (x : List Message). length x) e ∙ omega arith in
      (omega (arith, a, l, c), omega (arith, b, l), omega arith)
  task_callback-Balances s m ms false e (a, b, c) =
      let l : length s.queue ≡ length ms + 1 =
        ap (λ (x : List Message). length x) e ∙ omega arith in
      (omega (arith, a, l, c), omega (arith, b, l), omega arith)

  pub run_next-Balances :
      (s : Logger) (ms : List Message) (run : Bool)
      → s.queue ≡ ms
      → Balances k s
      → Balances k (run_next s ms run)
  unfolding run_next
  run_next-Balances s [] run e h = h
  run_next-Balances s (m ∷ ms) run e h = task_callback-Balances s m ms run e h
