-- ===== src/Logger/Dispatch.antt =====
-- The way of a message through src/svc/svc_logger.c to the channels that it is for.
use qoraal.Base.{
  ℕ, ◌+◌, ◌≡◌, ◌<◌, inl, inr, refl, sym, ap, ◌∙◌, Bool, true, false, ◌&&◌, not, Option, none, some,
  List, [], ◌∷◌, ◌++◌, leb, ltb, ◌==◌, ==_eq, if◌then◌else◌, Bool-cases, has, Distinct, ℤ, arith,
}
use mathlib.Core.Path.{subst}
use qoraal.Services.{eok}
use qoraal.Events.{bit}
use qoraal.Logger.{
  Filter, Channel, Message, Call, Logger, severity, progress, would_log, svc_logger_would_log,
  severity_channel_available, passes, hears, no_formatting,
}
use qoraal.Logger.Create.{trimmed, stamped, taken, create_task}
use qoraal.Logger.Post.{
  is_full, remember, scheduled, submit, post, vlogx, type_vlog, call, tell, task_callback, release,
}
use qoraal.Logger.Filters.{severity_channel_available-hears}

-- The number of the calls of a channel
abbrev pub told : ℕ → List Call → ℕ
told c [] = 0
told c (x ∷ xs) = (if c == x.to then 1 else 0) + told c xs

told-call :
    (m : Message) (c d : ℕ) (o : Option Filter) (rest : List Call)
    → (c == d) ≡ false
    → told c (call m d o rest) ≡ told c rest
unfolding call
told-call m c d none rest e = refl
told-call m c d (some f) rest e = simp e (omega arith)

told-tell_other :
    (channel : ℕ → Channel) (m : Message) (c : ℕ) (cs : List ℕ)
    → has c cs ≡ false
    → told c (tell channel m cs) ≡ 0
unfolding tell
told-tell_other channel m c [] h = refl
told-tell_other channel m c (d ∷ cs) h =
    told-call m c d (hears m (channel d)) (tell channel m cs) (ground arith)
    ∙ told-tell_other channel m c cs (ground arith)

told-call_same :
    (m : Message) (c : ℕ) (f : Filter) (rest : List Call)
    → told c rest ≡ 0
    → told c (call m c (some f) rest) ≡ 1
unfolding call
told-call_same m c f rest e = ground (arith, e)

told-tell_once :
    (channel : ℕ → Channel) (m : Message) (c : ℕ) (f : Filter) (cs : List ℕ)
    → has c cs ≡ true
    → Distinct cs
    → hears m (channel c) ≡ some f
    → told c (tell channel m cs) ≡ 1
unfolding tell
told-tell_once channel m c f [] h d e = absurd (ground arith)
told-tell_once channel m c f (x ∷ cs) h d e = elim (Bool-cases (c == x)) [
  | inr n ↦
      told-call m c x (hears m (channel x)) (tell channel m cs) n
      ∙ told-tell_once channel m c f cs (ground arith) d.1 e
  | inl n ↦
      subst
        (λ (y : ℕ).
          has y cs ≡ false → told c (call m y (hears m (channel y)) (tell channel m cs)) ≡ 1)
        (==_eq c x n)
        (λ o. rw e (told-call_same m c f (tell channel m cs) (told-tell_other channel m c cs o)))
        (d.0)
]

-- The message that `logger_create_task` makes has the type and the facility asked for.
trimmed-type : (m : Message) → ((trimmed m).type ≡ m.type) × ((trimmed m).facility ≡ m.facility)
unfolding trimmed
trimmed-type m = ground arith

hears-agree :
    (m m' : Message) (c : Channel)
    → m'.type ≡ m.type
    → m'.facility ≡ m.facility
    → hears m' c ≡ hears m c
unfolding hears passes
hears-agree m m' c e g = rw (e, g) refl

told-append : (c : ℕ) (xs ys : List Call) → told c (xs ++ ys) ≡ told c xs + told c ys
told-append c [] ys = omega arith
told-append c (x ∷ xs) ys = omega (arith, told-append c xs ys)

-- The callback calls a channel that the message is for.
task_callback-told :
    (s : Logger) (m : Message) (c : ℕ) (f : Filter)
    → has c s.channels ≡ true
    → Distinct s.channels
    → hears m (s.channel c) ≡ some f
    → told c (task_callback s m true).calls ≡ told c s.calls + 1
unfolding task_callback release
task_callback-told s m c f h d e =
    told-append c s.calls (tell s.channel m s.channels)
    ∙ omega (arith, told-tell_once s.channel m c f s.channels h d e)

create_task-makes :
    (s : Logger) (type facility : ℕ) (stamp text : List ℕ)
    → (m : Message) × (create_task s type facility true stamp (some text) ≡ (taken s, some m))
      × (m.type ≡ type)
      × (m.facility ≡ facility)
unfolding create_task
create_task-makes s type facility stamp text =
    let m0 : Message = record {
      type = type;
      facility = facility;
      id = s.id;
      text = stamped type stamp text;
    } in
    elim (Bool-cases (no_formatting type)) [
      | inl e ↦ (m0, simp e refl, refl, refl)
      | inr e ↦ (trimmed m0, simp e refl, (trimmed-type m0).0, (trimmed-type m0).1)
    ]

-- What holds of a message that goes through: it waits, and nothing else but the ghost fields changes.
abbrev Goes : Logger → Message → Logger × ℤ → Type 0
Goes s m (s', r) =
    (r ≡ eok)
    × (s'.queue ≡ s.queue ++ (m ∷ []))
    × (s'.channels ≡ s.channels)
    × (s'.channel ≡ s.channel)
    × (s'.calls ≡ s.calls)

submit-Goes :
    (s : Logger) (m : Message)
    → leb (severity m.type) (severity s.filter.type) ≡ true
    → Goes s m (submit s m eok)
unfolding submit scheduled
submit-Goes s m h =
    let e : ltb (severity s.filter.type) (severity m.type) ≡ false = ground (arith, h) in
    simp e (refl, refl, refl, refl, refl)

post-Goes :
    (s : Logger) (m : Message) (started : Bool)
    → leb (severity m.type) (severity s.filter.type) ≡ true
    → Goes s m (post (s, some m) started eok)
unfolding post remember
post-Goes s m started h =
    elim (Bool-cases (
      started
      && not (progress m.type)
      && leb (severity m.type) (severity s.filter_mem.type)
      && bit m.facility s.filter_mem.mask)) [
        | inl e ↦ simp e (submit-Goes (remember s m) m h)
        | inr e ↦ simp e (submit-Goes s m h)
      ]

-- What becomes of a message: it waits behind the others, and when its callback runs, the channel `c`
-- is called once.
abbrev pub Reaches : Logger → (type facility c : ℕ) → Logger × ℤ → Type 0
Reaches s type facility c r =
    (m : Message) × (m.type ≡ type)
    × (m.facility ≡ facility)
    × (r.1 ≡ eok)
    × (r.0.queue ≡ s.queue ++ (m ∷ []))
    × (told c (task_callback r.0 m true).calls ≡ told c s.calls + 1)

Goes-Reaches :
    (s s' : Logger) (m : Message) (c : ℕ) (f : Filter) (r : Logger × ℤ)
    → s'.queue ≡ s.queue
    → s'.channels ≡ s.channels
    → s'.channel ≡ s.channel
    → s'.calls ≡ s.calls
    → has c s.channels ≡ true
    → Distinct s.channels
    → hears m (s.channel c) ≡ some f
    → Goes s' m r
    → Reaches s m.type m.facility c r
Goes-Reaches s s' m c f (t, e) q l k w i d h (a, b, g, j, n) =
    let cs : t.channels ≡ s.channels = g ∙ l in
    let ch : t.channel ≡ s.channel = j ∙ k in
    (
      m,
      refl,
      refl,
      a,
      b ∙ ap (λ (x : List Message). x ++ (m ∷ [])) q,
      task_callback-told t m c f (rw cs i) (rw cs d) (rw ch h)
          ∙ ap (λ (x : List Call). told c x + 1) (n ∙ w),
    )

would_log-severity :
    (f : Filter) (type facility : ℕ)
    → would_log f type facility ≡ true
    → leb (severity type) (severity f.type) ≡ true
unfolding would_log
would_log-severity f type facility h = ground (arith, h)

module _ (s : Logger) (type facility : ℕ) (started : Bool) (stamp text : List ℕ) (c : ℕ)
    (f : Filter) where
  retype :
      (m : Message) (r : Logger × ℤ)
      → m.type ≡ type
      → m.facility ≡ facility
      → Reaches s m.type m.facility c r
      → Reaches s type facility c r
  retype m r t u (x, a, b, e, q, n) = (x, a ∙ t, b ∙ u, e, q, n)

  -- A message that a channel is for reaches it: `svc_logger_type_vlog` puts it behind the messages that
  -- wait, and when its callback runs the channel is called once. This holds of a channel registered
  -- once that has a filter for messages of this type and facility (below 64), if the module's filter
  -- is the one that the channels make, fewer than SVC_LOGGER_MAX_QUEUE_SIZE messages wait, the heap has
  -- room, the text can be formatted and the task pool takes the message.
  pub type_vlog-Reaches :
      facility < 64
      → is_full s ≡ false
      → s.filter ≡ (severity_channel_available s).filter
      → has c s.channels ≡ true
      → Distinct s.channels
      → hears (record { type = type; facility = facility; id = 0; text = [] }) (s.channel c)
        ≡ some f
      → Reaches s type facility c (type_vlog s type facility started true stamp (some text) eok)
  unfolding type_vlog vlogx taken svc_logger_would_log
  type_vlog-Reaches b n g i d h =
      let m0 : Message = record { type = type; facility = facility; id = 0; text = [] } in
      let w : would_log s.filter type facility ≡ true =
        subst (λ (x : Filter). would_log x type facility ≡ true) (sym g)
          (severity_channel_available-hears s m0 c f b i h) in
      let (m, e, t, u) = create_task-makes s type facility stamp text in
      let step : type_vlog s type facility started true stamp (some text) eok
          ≡ post (taken s, some m) started eok =
        simp (w, n, e) refl in
      let l : leb (severity m.type) (severity s.filter.type) ≡ true =
        rw t (would_log-severity s.filter type facility w) in
      rw step (
        retype m (post (taken s, some m) started eok) t u (
          Goes-Reaches s (taken s) m c f (post (taken s, some m) started eok) refl refl refl refl i
            d (hears-agree m0 m (s.channel c) t u ∙ h) (post-Goes (taken s) m started l)))
