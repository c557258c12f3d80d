-- ===== src/Mlock/Exclusion.antt =====
-- At most one thread is in the lock of src/os_mlock.c.
use qoraal.Base.{
  ◌^◌, ℕ, ◌+◌, ◌-◌, ◌%◌, ◌≡◌, ◌<◌, ◌≤◌, refl, true, false, List, [], ◌∷◌, ◌==◌, ==_eq,
  if◌then◌else◌, Bool-cases, inl, inr, has, length, length-erase, arith,
}
use qoraal.Tasks.{word}
use qoraal.Mlock.{Thread, System, init, again, raise, wait, own, unlock, signal}

-- The states that the lock gets into, by the steps of any threads in any order. Only its owner unlocks
-- it, and it locks it fewer than 2 ^ 31 times more than that, as an int counts.
pub data Reach : System → Type 0 where
  inits : (thread : ℕ → Thread) (prio : ℕ) → Reach (init thread prio)
  locks : (s : System) (t : ℕ) → 0 < t → s.lock.cnt + 1 < 2 ^ 31 → Reach s → Reach (again s t).0
  raises : (s : System) (t : ℕ) → Reach s → Reach (raise s t)
  waits : (s : System) (t : ℕ) → 0 < t → 0 < s.lock.s → Reach s → Reach (wait s t)
  owns : (s : System) (t : ℕ) → 0 < t → has t s.passing ≡ true → Reach s → Reach (own s t)
  unlocks : (s : System) (t : ℕ) → 0 < t → s.lock.owner ≡ t → Reach s → Reach (unlock s t)
  signals : (s : System) (t : ℕ) → has t s.leaving ≡ true → Reach s → Reach (signal s t)

-- The semaphore's one unit is there, with a thread that passes or leaves, or with the owner.
abbrev pub held : System → ℕ
held s = if s.lock.owner == 0 then 0 else 1

abbrev Exclusive : System → Type 0
Exclusive s =
    (s.lock.s + length s.passing + length s.leaving + held s ≡ 1)
    × (s.lock.cnt < word)
    × ((if s.lock.owner == 0 then 0 else 1) ≤ s.lock.cnt)

length-has : (t : ℕ) (xs : List ℕ) → has t xs ≡ true → 0 < length xs
length-has t [] h = absurd (ground arith)
length-has t (x ∷ xs) h = omega arith

again-Exclusive :
    (s : System) (t : ℕ) → s.lock.cnt + 1 < 2 ^ 31 → Exclusive s → Exclusive (again s t).0
unfolding again
again-Exclusive s t l (a, b, c) = elim (Bool-cases (s.lock.owner == t)) [
  | inl e ↦ simp e (a, omega arith, omega (arith, c, l))
  | inr e ↦ simp e (a, b, c)
]

own-Exclusive :
    (s : System) (t : ℕ) → 0 < t → has t s.passing ≡ true → Exclusive s → Exclusive (own s t)
unfolding own
own-Exclusive s t p h (a, b, c) =
    let n : (t == 0) ≡ false = ground arith in
    let k = length-erase t s.passing h in simp n (omega (arith, a, k), omega arith, omega arith)

unlock-Exclusive :
    (s : System) (t : ℕ) → 0 < t → s.lock.owner ≡ t → Exclusive s → Exclusive (unlock s t)
unfolding unlock
unlock-Exclusive s t p e (a, b, c) =
    let n : (s.lock.owner == 0) ≡ false = ground arith in
    let h : held s ≡ 1 = simp n refl in
    elim (Bool-cases ((s.lock.cnt + word - 1) % word == 0)) [
      | inl z ↦ simp z (omega (arith, a, h), omega arith, omega arith)
      | inr z ↦ simp z (a, omega arith, ground (arith, z, n))
    ]

Reach-Exclusive : (s : System) → Reach s → Exclusive s
unfolding init raise wait signal
Reach-Exclusive s (inits thread prio) = (refl, omega arith, omega arith)
Reach-Exclusive s (locks t u p l r) = again-Exclusive t u l (Reach-Exclusive t r)
Reach-Exclusive s (raises t u r) = Reach-Exclusive t r
Reach-Exclusive s (waits t u p l r) =
    let (a, b, c) = Reach-Exclusive t r in (omega (arith, a, l), b, c)
Reach-Exclusive s (owns t u p h r) = own-Exclusive t u p h (Reach-Exclusive t r)
Reach-Exclusive s (unlocks t u p e r) = unlock-Exclusive t u p e (Reach-Exclusive t r)
Reach-Exclusive s (signals t u h r) =
    let (a, b, c) = Reach-Exclusive t r in (omega (arith, a, length-erase u t.leaving h), b, c)

-- Mutual exclusion: in every state that the lock gets into, with the steps of any threads in any order,
-- a thread that has passed the semaphore finds no owner and is the only one on its way in, so that it
-- takes the lock from nobody. Only the owner unlocks, and locks fewer than 2 ^ 31 times.
pub Reach-Excludes :
    (s : System) (t : ℕ)
    → Reach s
    → has t s.passing ≡ true
    → (s.lock.owner ≡ 0) × (s.passing ≡ t ∷ []) × (s.leaving ≡ []) × (s.lock.s ≡ 0)
Reach-Excludes s t r h =
    let (a, b, c) = Reach-Exclusive s r in
    let n = length-has t s.passing h in
    (
      ground (arith, a, n),
      alone t s.passing h (omega (arith, a, n)),
      none_left s.leaving (omega (arith, a, n)),
      omega (arith, a, n),
    )
  where
    alone : (t : ℕ) (xs : List ℕ) → has t xs ≡ true → length xs ≤ 1 → xs ≡ t ∷ []
    alone t [] h l = absurd (ground arith)
    alone t (x ∷ []) h l = ground (arith, ==_eq t x)
    alone t (x ∷ y ∷ xs) h l = absurd (omega arith)

    none_left : (xs : List ℕ) → length xs ≤ 0 → xs ≡ []
    none_left [] l = refl
    none_left (x ∷ xs) l = absurd (omega arith)
