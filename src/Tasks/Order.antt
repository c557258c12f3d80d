-- ===== src/Tasks/Order.antt =====
-- The order of `_svc_tasks_list`: by deadline, oldest request first among equals. Tick counts wrap,
-- so deadlines are read from a base, behind which all of them lie by less than half the range.
pub mod Release
pub mod Keep
pub mod Place
use qoraal.Base.{
  ℕ, ◌+◌, ◌-◌, ◌%◌, ◌^◌, ◌≡◌, ◌≢◌, ◌≤◌, ◌<◌, Bool, true, false, ◌||◌, Option, none, some, List, [],
  ◌∷◌, inl, inr, refl, ltb, ◌==◌, if◌then◌else◌, Bool-cases, has, insert_after, Distinct, arith,
}
use qoraal.Tasks.{Task, word, ticks_diff, is_neg, seek}

module _ (tasks : ℕ → Task) (base : ℕ) where
  -- How far behind the base the deadline of a task lies.
  abbrev pub offset : ℕ → ℕ
  offset t = ticks_diff (tasks t).ticks base

  -- The deadlines lie `lo` or more behind the base, in order, and by less than half the range.
  abbrev pub OrderedFrom : ℕ → List ℕ → Type 0
  OrderedFrom lo [] = Unit {0}
  OrderedFrom lo (x ∷ xs) =
      ((tasks x).ticks < word) × (lo ≤ offset x) × (offset x < 2 ^ 31) × OrderedFrom (offset x) xs

  -- A task goes in front of the first one with a later deadline.
  unfoldable pub insert_by : ℕ → List ℕ → List ℕ
  insert_by t [] = t ∷ []
  insert_by t (x ∷ xs) = if ltb (offset t) (offset x) then t ∷ x ∷ xs else x ∷ insert_by t xs

  pub insert_by-OrderedFrom :
      (lo t : ℕ) (xs : List ℕ)
      → OrderedFrom lo xs
      → (tasks t).ticks < word
      → lo ≤ offset t
      → offset t < 2 ^ 31
      → OrderedFrom lo (insert_by t xs)
  unfolding insert_by
  insert_by-OrderedFrom lo t [] o w l h = (w, l, h, tt)
  insert_by-OrderedFrom lo t (x ∷ xs) o w l h = elim (Bool-cases (ltb (offset t) (offset x))) [
    | inl e ↦ rw e (w, l, h, (o.0, ground arith, o.2, o.3))
    | inr e ↦ rw e (o.0, o.1, o.2, insert_by-OrderedFrom (offset x) t xs o.3 w (ground arith) h)
  ]

  -- Inside the window the signed difference tells which deadline comes first.
  is_neg-offset :
      (t x : ℕ)
      → (tasks t).ticks < word
      → (tasks x).ticks < word
      → base < word
      → offset t < 2 ^ 31
      → offset x < 2 ^ 31
      → is_neg (ticks_diff (tasks t).ticks (tasks x).ticks) ≡ ltb (offset t) (offset x)
  is_neg-offset t x wt wx wb ht hx = ground arith

  module _ (t : ℕ) (wt : (tasks t).ticks < word) (wb : base < word) (ht : offset t < 2 ^ 31) where
    -- Behind a task with no later deadline the search ends in front of the first later one.
    seek_behind :
        (lo p : ℕ) (xs : List ℕ)
        → OrderedFrom lo xs
        → Distinct (p ∷ xs)
        → (r : ℕ) × (seek tasks (tasks t).ticks (some p) xs ≡ some r)
          × (has r (p ∷ xs) ≡ true)
          × (insert_after r t (p ∷ xs) ≡ p ∷ insert_by t xs)
    unfolding seek insert_by
    seek_behind lo p [] o d = (p, refl, ground arith, ground arith)
    seek_behind lo p (x ∷ xs) o d =
        let e = is_neg-offset t x wt o.0 wb ht o.2 in
        elim (Bool-cases (ltb (offset t) (offset x))) [
          | inl b ↦ (p, ground (arith, e), ground arith, ground arith)
          | inr b ↦
              let (r, run, m, q) = seek_behind (offset x) x xs o.3 d.1 in
              (r, ground (arith, e, run), ground (arith, m), ground (arith, m, q, d.0))
        ]

  -- Where `svc_tasks_schedule` links the task: in front, or behind the one that the search found.
  abbrev pub linked_at : ℕ → Option ℕ → List ℕ → List ℕ
  linked_at t none xs = t ∷ xs
  linked_at t (some p) xs = insert_after p t xs

  -- In a list that is in order the search and the link put the task where it belongs.
  pub linked_at-insert_by :
      (t : ℕ) (xs : List ℕ)
      → (tasks t).ticks < word
      → base < word
      → offset t < 2 ^ 31
      → OrderedFrom 0 xs
      → Distinct xs
      → linked_at t (seek tasks (tasks t).ticks none xs) xs ≡ insert_by t xs
  unfolding seek insert_by
  linked_at-insert_by t [] wt wb ht o d = refl
  linked_at-insert_by t (x ∷ xs) wt wb ht o d =
      let e = is_neg-offset t x wt o.0 wb ht o.2 in
      elim (Bool-cases (ltb (offset t) (offset x))) [
        | inl b ↦ ground (arith, e)
        | inr b ↦
            let (r, run, m, q) = seek_behind t wt wb ht (offset x) x xs o.3 d in
            ground (arith, e, run, q)
      ]
