-- ===== src/Tasks/Moves.antt =====
-- The moves that the operations are made of, and what each does to the well-formedness.
use native.Mathlib.Decide.{ℕ_discrete}
use qoraal.Base.{
  ℕ, ◌+◌, ◌-◌, ◌%◌, ◌≡◌, ◌≢◌, Bool, true, false, ◌||◌, ◌&&◌, List, [], ◌∷◌, ◌++◌, inl, inr, length,
  has, erase, arith, Distinct, has-append, has-erase, Distinct-erase, Distinct-append_one,
  length-erase, length-append, Bool-cases, if◌then◌else◌, ◌==◌,
}
use qoraal.Tasks.{Pool, word, update, Task, status_of, queue_of, set_task, task_to_ready}
use qoraal.Tasks.Invariant.{IsValidExcept, also, total-update, queue_of-lt}

-- A task whose status is not queued is in no list.
pub IsValidExcept-of_not_queued :
    (out : ℕ → Bool) (s : Pool) (t : ℕ)
    → IsValidExcept out s
    → status_of (s.tasks t) ≢ 1
    → IsValidExcept (also t out) s
IsValidExcept-of_not_queued out s t v n = record {
  pool = v.pool;
  free_scheduled = λ u o. ground (arith, v.scheduled_queued t, v.free_scheduled u);
  free_ready = λ u q o. ground (arith, v.ready_queued t q, v.free_ready u q);
  linked = λ u o. v.linked u (ground arith);
  scheduled_queued = v.scheduled_queued;
  ready_queued = v.ready_queued;
  apart = v.apart;
  scheduled_distinct = v.scheduled_distinct;
  ready_distinct = v.ready_distinct;
  list_counted = v.list_counted;
  ready_counted = v.ready_counted;
}

-- What is in no list may change in any way.
pub set_task-IsValidExcept :
    (out : ℕ → Bool) (s : Pool) (t : ℕ) (d : Task)
    → IsValidExcept (also t out) s
    → IsValidExcept (also t out) (set_task s t d)
unfolding set_task
set_task-IsValidExcept out s t d v = record {
  pool = v.pool;
  free_scheduled = v.free_scheduled;
  free_ready = v.free_ready;
  linked = λ u o. ground (arith, v.linked u o);
  scheduled_queued = λ u m. ground (arith, v.scheduled_queued u m, v.free_scheduled u);
  ready_queued = λ u q m. ground (arith, v.ready_queued u q m, v.free_ready u q);
  apart = v.apart;
  scheduled_distinct = v.scheduled_distinct;
  ready_distinct = v.ready_distinct;
  list_counted = v.list_counted;
  ready_counted = v.ready_counted;
}

-- In no list and not queued is well-formed.
pub IsValidExcept-of_complete :
    (out : ℕ → Bool) (s : Pool) (t : ℕ)
    → IsValidExcept (also t out) s
    → status_of (s.tasks t) ≢ 1
    → IsValidExcept out s
IsValidExcept-of_complete out s t v n = record {
  pool = v.pool;
  free_scheduled = λ u o. v.free_scheduled u (ground arith);
  free_ready = λ u q o. v.free_ready u q (ground arith);
  linked = λ u o e. elim (ℕ_discrete u t) [
    | yes p ↦ absurd (n (rw p at e))
    | no ne ↦ v.linked u (ground arith) e
  ];
  scheduled_queued = v.scheduled_queued;
  ready_queued = v.ready_queued;
  apart = v.apart;
  scheduled_distinct = v.scheduled_distinct;
  ready_distinct = v.ready_distinct;
  list_counted = v.list_counted;
  ready_counted = v.ready_counted;
}

has-ready :
    (f : ℕ → List ℕ) (q t u p : ℕ)
    → has u (update f q (f q ++ (t ∷ [])) p) ≡ (has u (f p) || ((p == q) && (u == t)))
has-ready f q t u p = ground (arith, has-append u (f q) (t ∷ []))

Distinct-update :
    (f : ℕ → List ℕ) (q : ℕ) (xs : List ℕ)
    → ((p : ℕ) → Distinct (f p))
    → Distinct xs
    → (p : ℕ) → Distinct (update f q xs p)
Distinct-update f q xs all d p = elim (Bool-cases (p == q)) [
  | inl e ↦ rw e d
  | inr e ↦ rw e (all p)
]

-- A queued task that is in no list may join its ready queue.
pub task_to_ready-IsValidExcept :
    (out : ℕ → Bool) (s : Pool) (t : ℕ)
    → IsValidExcept (also t out) s
    → status_of (s.tasks t) ≡ 1
    → out t ≡ false
    → IsValidExcept out (task_to_ready s t)
unfolding task_to_ready
task_to_ready-IsValidExcept out s t v e mine =
    let q = queue_of s (s.tasks t) in
    let f = s.ready in
    record {
      pool = v.pool;
      free_scheduled = λ u o. v.free_scheduled u (ground arith);
      free_ready = λ u p o. ground (arith, has-ready f q t u p, v.free_ready u p);
      linked = λ u o e'. elim (ℕ_discrete u t) [
        | yes p ↦ rw p (ground (arith, has-ready f q t t q))
        | no ne ↦
            ground (arith, v.linked u (ground arith) e', has-ready f q t u (queue_of s (s.tasks u)))
      ];
      scheduled_queued = v.scheduled_queued;
      ready_queued = λ u p m. ground (arith, has-ready f q t u p, v.ready_queued u p, e);
      apart = λ u p m. ground (arith, has-ready f q t u p, v.apart u p m, v.free_scheduled u);
      scheduled_distinct = v.scheduled_distinct;
      ready_distinct =
          Distinct-update f q (f q ++ (t ∷ [])) v.ready_distinct
            (Distinct-append_one t (f q) (v.ready_distinct q) (v.free_ready t q (ground arith)));
      list_counted = v.list_counted;
      ready_counted = omega (
        arith,
        v.ready_counted,
        total-update f q (f q ++ (t ∷ [])) s.pool_count (queue_of-lt s (s.tasks t) v.pool),
        length-append (f q) (t ∷ []),
      );
    }

-- The scheduled list and its counter become others.
abbrev pub relist : Pool → List ℕ → ℕ → Pool
relist s xs n = record s { scheduled = xs; list_count = n }

-- A queued task that is in no list may join the scheduled list.
pub relist-IsValidExcept :
    (out : ℕ → Bool) (s : Pool) (t : ℕ) (xs : List ℕ)
    → IsValidExcept (also t out) s
    → status_of (s.tasks t) ≡ 1
    → out t ≡ false
    → ((u : ℕ) → has u xs ≡ (u == t || has u s.scheduled))
    → Distinct xs
    → length xs ≡ length s.scheduled + 1
    → IsValidExcept out (relist s xs ((s.list_count + 1) % word))
relist-IsValidExcept out s t xs v e mine same d len = record {
  pool = v.pool;
  free_scheduled = λ u o. ground (arith, same u, v.free_scheduled u);
  free_ready = λ u p o. v.free_ready u p (ground arith);
  linked = λ u o e'. elim (ℕ_discrete u t) [
    | yes p ↦ rw p (ground (arith, same t))
    | no ne ↦ ground (arith, v.linked u (ground arith) e', same u)
  ];
  scheduled_queued = λ u m. ground (arith, same u, v.scheduled_queued u, e);
  ready_queued = v.ready_queued;
  apart = λ u p m. ground (arith, same u, v.apart u p, v.free_ready u p);
  scheduled_distinct = d;
  ready_distinct = v.ready_distinct;
  list_counted = omega (arith, v.list_counted);
  ready_counted = v.ready_counted;
}

-- A scheduled task may leave its list.
pub unlist-IsValidExcept :
    (out : ℕ → Bool) (s : Pool) (t : ℕ)
    → IsValidExcept out s
    → has t s.scheduled ≡ true
    → IsValidExcept (also t out) (relist s (erase t s.scheduled) ((s.list_count + word - 1) % word))
unlist-IsValidExcept out s t v m =
    let gone = λ (u : ℕ). has-erase u t s.scheduled v.scheduled_distinct in
    record {
      pool = v.pool;
      free_scheduled = λ u o. ground (arith, gone u, v.free_scheduled u);
      free_ready = λ u q o. ground (arith, v.apart t q m, v.free_ready u q);
      linked = λ u o e. ground (arith, v.linked u, gone u);
      scheduled_queued = λ u m'. ground (arith, gone u, v.scheduled_queued u);
      ready_queued = v.ready_queued;
      apart = λ u q m'. ground (arith, gone u, v.apart u q);
      scheduled_distinct = Distinct-erase t s.scheduled v.scheduled_distinct;
      ready_distinct = v.ready_distinct;
      list_counted = omega (arith, v.list_counted, length-erase t s.scheduled m);
      ready_counted = v.ready_counted;
    }

-- A ready queue and the counter become others.
abbrev pub requeue : Pool → ℕ → List ℕ → ℕ → Pool
requeue s q xs n = record s { ready = update s.ready q xs; ready_count = n }

has-requeue :
    (f : ℕ → List ℕ) (q t u p : ℕ)
    → ((p' : ℕ) → Distinct (f p'))
    → has u (update f q (erase t (f q)) p) ≡ (if (p == q) && (u == t) then false else has u (f p))
has-requeue f q t u p d = ground (arith, has-erase u t (f q) (d q))

-- A ready task may leave its queue.
pub requeue-IsValidExcept :
    (out : ℕ → Bool) (s : Pool) (t q : ℕ)
    → IsValidExcept out s
    → has t (s.ready q) ≡ true
    → IsValidExcept
        (also t out)
        (requeue s q (erase t (s.ready q)) ((s.ready_count + word - 1) % word))
requeue-IsValidExcept out s t q v m =
    let f = s.ready in
    let gone = λ (u p : ℕ). has-requeue f q t u p v.ready_distinct in
    let home = v.ready_queued t q m in
    record {
      pool = v.pool;
      free_scheduled = λ u o. ground (arith, v.apart t q, v.free_scheduled u);
      free_ready = λ u p o. ground (arith, gone u p, v.ready_queued t p, home, v.free_ready u p);
      linked = λ u o e. ground (arith, v.linked u, gone u (queue_of s (s.tasks u)));
      scheduled_queued = v.scheduled_queued;
      ready_queued = λ u p m'. ground (arith, gone u p, v.ready_queued u p);
      apart = λ u p m'. ground (arith, gone u p, v.apart u p m');
      scheduled_distinct = v.scheduled_distinct;
      ready_distinct =
          Distinct-update f q (erase t (f q)) v.ready_distinct
            (Distinct-erase t (f q) (v.ready_distinct q));
      list_counted = v.list_counted;
      ready_counted = omega (
        arith,
        v.ready_counted,
        total-update f q (erase t (f q)) s.pool_count
            (rw home.1 (queue_of-lt s (s.tasks t) v.pool)),
        length-erase t (f q) m,
      );
    }
