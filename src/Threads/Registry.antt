-- ===== src/Threads/Registry.antt =====
-- What the registry of src/svc/svc_threads.c keeps.
use qoraal.Base.{
  ℕ, ◌%◌, ◌≡◌, inl, inr, refl, sym, ap, true, false, some, List, [], ◌∷◌, ◌++◌, ◌==◌, ==_eq,
  ==_refl, if◌then◌else◌, Bool-cases, has, erase, Distinct, has-erase, has-append, Distinct-erase,
  Distinct-append_one, length, length-append, length-erase, ◌==ℤ◌, arith,
}
use mathlib.Core.Path.{subst}
use qoraal.Tasks.{word}
use qoraal.Threads.{
  Thread, Threads, Os, eok, set_thread, find_current, retire, terminate, is_active, create,
}

-- A registered thread stands in one of the lists, once, and the count is that of the running ones.
pub record IsRegistry (s : Threads) : Type 0 where
  pub running_distinct : Distinct s.list
  pub ended_distinct : Distinct s.complete
  pub apart : (t : ℕ) → has t s.list ≡ true → has t s.complete ≡ false
  pub counted : s.count ≡ length s.list % word

-- The handles of the threads tell them apart.
abbrev pub IsCurrent : Threads → (t current : ℕ) → Type 0
IsCurrent s t current =
    (has t s.list ≡ true)
    × ((u : ℕ) → has u s.list ≡ true → (current == (s.threads u).thread) ≡ (u == t))

find_current-eq-some :
    (threads : ℕ → Thread) (t current : ℕ) (ts : List ℕ)
    → has t ts ≡ true
    → ((u : ℕ) → has u ts ≡ true → (current == (threads u).thread) ≡ (u == t))
    → find_current threads current ts ≡ some t
unfolding find_current
find_current-eq-some threads t current [] m h = absurd (ground arith)
find_current-eq-some threads t current (u ∷ ts) m h = elim (Bool-cases (u == t)) [
  | inl e ↦ rw (h u (ground arith), e) (ap (λ (v : ℕ). some v) (==_eq u t e))
  | inr e ↦
      rw (h u (ground arith), e)
        (find_current-eq-some threads t current ts (ground arith) (λ v n. h v (ground arith)))
]

-- `svc_threads_terminate` moves the thread that calls it, and no other, to the ended ones.
pub terminate-IsRegistry :
    (s : Threads) (t current : ℕ)
    → IsRegistry s
    → IsCurrent s t current
    → IsRegistry (terminate s current)
      × ((terminate s current).list ≡ erase t s.list)
      × ((terminate s current).complete ≡ t ∷ s.complete)
      × ((u : ℕ) → is_active (terminate s current) u ≡ is_active s u)
unfolding terminate is_active retire
terminate-IsRegistry s t current v (m, h) =
    rw (find_current-eq-some s.threads t current s.list m h) (
      record {
        running_distinct = Distinct-erase t s.list v.running_distinct;
        ended_distinct = (v.apart t m, v.ended_distinct);
        apart = λ u n. ground (arith, has-erase u t s.list v.running_distinct, v.apart u);
        counted = omega (arith, length-erase t s.list m, v.counted);
      },
      refl,
      refl,
      λ u. refl,
    )

module _ (os : Os) where
  -- `svc_threads_create` registers a thread that is in neither list, and makes it active, exactly if
  -- the OS creates it.
  pub create-IsRegistry :
      (s : Threads) (t complete stack_size prio pf arg : ℕ)
      → IsRegistry s
      → has t s.list ≡ false
      → has t s.complete ≡ false
      → (pf == 0) ≡ false
      → let (s', res) = create os s t complete stack_size prio pf arg in
        IsRegistry s'
        × (s'.list ≡ (if res ==ℤ eok then s.list ++ (t ∷ []) else s.list))
        × (is_active s' t ≡ (res ==ℤ eok))
        × ((u : ℕ) → (u == t) ≡ false → is_active s' u ≡ is_active s u)
  unfolding create is_active set_thread
  create-IsRegistry s t complete stack_size prio pf arg v m n p =
      let s1 = set_thread s t (record (s.threads t) { arg = arg; complete = complete; pf = pf }) in
      elim (Bool-cases ((os.create t stack_size prio s1).0 ==ℤ eok)) [
        | inl e ↦ rw e (
          record {
            running_distinct = Distinct-append_one t s.list v.running_distinct m;
            ended_distinct = v.ended_distinct;
            apart = λ u k. elim (Bool-cases (u == t)) [
              | inl f ↦ subst (λ (w : ℕ). has w s.complete ≡ false) (sym (==_eq u t f)) n
              | inr f ↦ v.apart u (ground (arith, has-append u s.list (t ∷ [])))
            ];
            counted = omega (arith, length-append s.list (t ∷ []), v.counted);
          },
          rw e refl,
          rw (e, ==_refl t) (ground arith),
          λ u k. rw k refl,
        )
        | inr e ↦ rw e (
          record {
            running_distinct = v.running_distinct;
            ended_distinct = v.ended_distinct;
            apart = v.apart;
            counted = v.counted;
          },
          rw e refl,
          rw (e, ==_refl t) refl,
          λ u k. rw k refl,
        )
      ]
