-- ===== src/Wdt/Callback/OnTime.antt =====
-- When the watchdog's task kicks the hardware.
use native.Mathlib.Nat.{div-lt_iff_lt-mul, div-eq_of_lt}
use qoraal.Base.{
  ℕ, ◌+◌, ◌/◌, ◌%◌, ◌≡◌, ◌≤◌, ◌<◌, inl, inr, refl, ◌∙◌, Bool, true, false, ◌&&◌, ◌||◌, not, none,
  some, List, [], ◌∷◌, ◌==◌, ==_eq, if◌then◌else◌, Bool-cases, has, arith,
}
use qoraal.Tasks.{Env, word, reason_run}
use qoraal.Wdt.{Registry, process}
use qoraal.Wdt.Age.{Age, any_starved, process_from-HasAge}
use qoraal.Wdt.History.{Log, note, checks, Tells, checks-Tells, step}
use qoraal.Wdt.Callback.{Wdt, Platform, check, kick, arm, finish, run_checks, task_cb}

-- A group is due for a check: its last check failed, or its share of the window is over.
abbrev pub is_due : Bool → (counter interval window : ℕ) → Bool
is_due last counter interval window = not last || (counter % (window / interval) == 0)

any_starved-ext :
    (a b : ℕ → Age) (us : List ℕ)
    → ((u : ℕ) → has u us ≡ true → a u ≡ b u)
    → any_starved a us ≡ any_starved b us
any_starved-ext a b [] f = refl
any_starved-ext a b (u ∷ us) f =
    ground (arith, f u (ground arith), any_starved-ext a b us (λ v m. f v (ground arith)))

-- A group has its check at every run at least, as long as the interval fits into its window.
share-pos :
    (interval window : ℕ) → 0 < interval → interval ≤ window → (window / interval == 0) ≡ false
share-pos interval window p q =
    let f = (div-lt_iff_lt-mul {k = interval} {x = window} {y = 1} p).0 in
    elim (Bool-cases (window / interval == 0)) [
      | inl e ↦ absurd (omega (arith, q, f (omega (arith, ==_eq (window / interval) 0 e))))
      | inr e ↦ e
    ]

module _ (group : ℕ → ℕ) where
  -- The log after a group is checked, if it is due.
  abbrev pub noted : Log → Bool → ℕ → Log
  noted l due id = if due then note group l (checks id) else l

  -- A check of one group shows no starved handler in another.
  any_starved-noted :
      (l : Log) (r r' : Registry) (due : Bool) (id other : ℕ)
      → Tells group l r
      → r'.stacks ≡ r.stacks
      → (id == other) ≡ false
      → any_starved (noted l due id).age (r'.stacks other) ≡ any_starved l.age (r.stacks other)
  any_starved-noted l r r' due id other t z n = rw z (
      any_starved-ext ((noted l due id).age) l.age (r.stacks other)
        (λ u m. ground (arith, t.members u other)))

  process-Tells :
      (l : Log) (r : Registry) (id : ℕ)
      → Tells group l r
      → Tells group (note group l (checks id)) (process r id).0
        × ((process r id).1 ≡ not (any_starved l.age (r.stacks id)))
        × ((process r id).0.stacks ≡ r.stacks)
  unfolding process step
  process-Tells l r id t =
      let (w, k, s) = process_from-HasAge r true (r.stacks id) l.age (t.distinct id) t.ages in
      (checks-Tells group l r id t, ground (arith, k), s)

  check-Tells :
      (l : Log) (r : Registry) (last : Bool) (counter interval window id : ℕ)
      → Tells group l r
      → 0 < interval
      → interval ≤ window
      → let due = is_due last counter interval window in
        (r' : Registry) × (check r last counter interval window id
          ≡ some (r', not due || not (any_starved l.age (r.stacks id))))
        × Tells group (noted l due id) r'
        × (r'.stacks ≡ r.stacks)
  unfolding check
  check-Tells l r last counter interval window id t p q =
      let (t', k, z) = process-Tells l r id t in
      let n = share-pos interval window p q in
      elim (Bool-cases last) [
        | inl e ↦ elim (Bool-cases (counter % (window / interval) == 0)) [
          | inl d ↦ rw (e, d, n) ((process r id).0, ground (arith, k), t', z)
          | inr d ↦ rw (e, d, n) (r, ground arith, t, refl)
        ]
        | inr e ↦ rw e ((process r id).0, ground (arith, k), t', z)
      ]

  module _ (env : Env) (platform : Platform) where
    finish-kicks :
        (s : Wdt)
        → ((finish env platform s).registry ≡ s.registry)
          × ((finish env platform s).kicks
              ≡ (if s.kick10 && s.kick30 && s.kick60 then s.kicks + 1 else s.kicks))
    unfolding finish kick arm
    finish-kicks s = elim (Bool-cases (s.kick10 && s.kick30 && s.kick60)) [
      | inl e ↦ elim (Bool-cases (platform.wdt_kick s.kicks % word == 0)) [
        | inl z ↦ rw (e, z) (refl, refl)
        | inr z ↦ rw (e, z) (refl, refl)
      ]
      | inr e ↦ elim (Bool-cases (s.interval == 0)) [
        | inl z ↦ rw (e, z) (refl, refl)
        | inr z ↦ rw (e, z) (refl, refl)
      ]
    ]

    -- While the interval is from 1 to 30 seconds, a run of the watchdog's task always ends, and kicks
    -- the hardware exactly if no handler of the ten second group is starved, nor one of the other two
    -- groups that is due; it notes a pass over the groups that it checks.
    pub task_cb-OnTime :
        (l : Log) (s : Wdt)
        → Tells group l s.registry
        → 0 < s.interval
        → s.interval ≤ 30
        → let counter = (s.counter + 1) % word in
          let due30 = is_due s.kick30 counter s.interval 30 in
          let due60 = is_due s.kick60 counter s.interval 60 in
          let calm : ℕ → Bool = λ id. not (any_starved l.age (s.registry.stacks id)) in
          (s' : Wdt) × (task_cb env platform s reason_run ≡ some s')
          × Tells group (noted (noted (note group l (checks 0)) due30 1) due60 2) s'.registry
          × (s'.kicks ≡ (
              if calm 0 && (not due30 || calm 1) && (not due60 || calm 2)
              then s.kicks + 1
              else s.kicks))
    unfolding task_cb run_checks
    task_cb-OnTime l s t p q =
        let counter = (s.counter + 1) % word in
        let due30 = is_due s.kick30 counter s.interval 30 in
        let due60 = is_due s.kick60 counter s.interval 60 in
        let l1 = note group l (checks 0) in
        let l2 = noted l1 due30 1 in
        let (t1, k1, z1) = process-Tells l s.registry 0 t in
        let r1 = (process s.registry 0).0 in
        let (r2, e2, t2, z2) = check-Tells l1 r1 s.kick30 counter s.interval 30 1 t1 p q in
        let (r3, e3, t3, z3) =
          check-Tells l2 r2 s.kick60 counter s.interval 60 2 t2 p (omega (arith, q)) in
        let s' : Wdt = record s {
          registry = r3;
          counter = counter;
          kick10 = (process s.registry 0).1;
          kick30 = not due30 || not (any_starved l1.age (r1.stacks 1));
          kick60 = not due60 || not (any_starved l2.age (r2.stacks 2));
        } in
        let (f, g) = finish-kicks s' in
        let a1 = any_starved-noted l s.registry r1 true 0 1 t z1 refl in
        let a2 =
          any_starved-noted l1 r1 r2 due30 1 2 t1 z2 refl
          ∙ any_starved-noted l s.registry r1 true 0 2 t z1 refl in
        (finish env platform s', rw (e2, e3) refl, rw f t3, g ∙ rw (k1, a1, a2) refl)

check-Divides :
    (r : Registry) (last : Bool) (counter interval window id : ℕ)
    → window < interval
    → last ≡ true
    → check r last counter interval window id ≡ none
unfolding check
check-Divides r last counter interval window id h k =
    let z = div-eq_of_lt {n = window} {m = interval} h in
    elim (Bool-cases (interval == 0)) [ inl e ↦ rw (k, e) refl | inr e ↦ rw (k, e, z) refl ]

-- With an interval above 30 seconds a run of the watchdog's task in which the thirty second group
-- did not fail its last check divides by zero.
pub task_cb-Divides :
    (env : Env) (platform : Platform) (s : Wdt)
    → 30 < s.interval
    → s.kick30 ≡ true
    → task_cb env platform s reason_run ≡ none
unfolding task_cb run_checks
task_cb-Divides env platform s h k =
    rw
      (check-Divides (process s.registry 0).0 s.kick30 ((s.counter + 1) % word) s.interval 30 1 h k)
      refl
