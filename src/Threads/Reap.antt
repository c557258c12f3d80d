-- ===== src/Threads/Reap.antt =====
-- The loop over the ended threads of src/svc/svc_threads.c.
use qoraal.Base.{
  ℕ, zero, suc, ◌≡◌, ◌<◌, inl, inr, refl, ◌∙◌, ◌&&◌, not, some, List, [], ◌∷◌, ◌==◌, ==_eq,
  if◌then◌else◌, Bool-cases, has, length, arith,
}
use qoraal.Threads.{
  Thread, Threads, Os, set_thread, is_active, bury, complete_at, complete_check, reap,
}

module _ (os : Os) where
  -- Callbacks that leave the registry alone.
  abbrev pub IsQuiet : Type 0
  IsQuiet = (complete thread arg : ℕ) (s : Threads) → os.call complete thread arg s ≡ s

  -- The handles of the ended threads, in the order in which they are joined, before others.
  abbrev pub joins : (ℕ → Thread) → List ℕ → List ℕ → List ℕ
  joins threads [] others = others
  joins threads (t ∷ ts) others = joins threads ts ((threads t).thread ∷ others)

  -- The callbacks of the ended threads that have one, in the order in which they are called.
  abbrev pub tells : (ℕ → Thread) → List ℕ → List (ℕ × ℕ × ℕ) → List (ℕ × ℕ × ℕ)
  tells threads [] others = others
  tells threads (t ∷ ts) others = tells threads ts (
      if not ((threads t).complete == 0)
      then ((threads t).complete, t, (threads t).arg) ∷ others
      else others)

  -- The threads `a` and `b` differ at most in whether they are active.
  abbrev Alike : (ℕ → Thread) → (ℕ → Thread) → Type 0
  Alike a b =
      (u : ℕ)
      → ((a u).thread ≡ (b u).thread) × ((a u).complete ≡ (b u).complete) × ((a u).arg ≡ (b u).arg)

  joins-Alike :
      (a b : ℕ → Thread) (ts others : List ℕ) → Alike a b → joins a ts others ≡ joins b ts others
  joins-Alike a b [] others h = refl
  joins-Alike a b (t ∷ ts) others h = rw (h t).0 (joins-Alike a b ts ((b t).thread ∷ others) h)

  tells-Alike :
      (a b : ℕ → Thread) (ts : List ℕ) (others : List (ℕ × ℕ × ℕ))
      → Alike a b
      → tells a ts others ≡ tells b ts others
  tells-Alike a b [] others h = refl
  tells-Alike a b (t ∷ ts) others h = rw ((h t).1, (h t).2) (tells-Alike a b ts _ h)

  -- What is left when every ended thread is buried.
  pub record Reaped (s s' : Threads) : Type 0 where
    pub none_left : s'.complete ≡ []
    pub running : s'.list ≡ s.list
    pub count : s'.count ≡ s.count
    pub joined : s'.joined ≡ joins s.threads s.complete s.joined
    pub told : s'.completed ≡ tells s.threads s.complete s.completed
    pub active : (u : ℕ) → is_active s' u ≡ (not (has u s.complete) && is_active s u)

  -- The registry behind the burial of its first ended thread.
  buried : Threads → ℕ → List ℕ → Threads
  buried s t ts = record (set_thread s t (record (s.threads t) { pf = 0 })) {
    complete = ts;
    joined = (s.threads t).thread ∷ s.joined;
    completed =
        if not ((s.threads t).complete == 0)
        then ((s.threads t).complete, t, (s.threads t).arg) ∷ s.completed
        else s.completed;
  }

  bury-buried : (s : Threads) (t : ℕ) (ts : List ℕ) → IsQuiet → bury os s t ts ≡ buried s t ts
  unfolding bury buried
  bury-buried s t ts q = elim (Bool-cases ((s.threads t).complete == 0)) [
    | inl e ↦ rw e refl
    | inr e ↦ rw e (q (s.threads t).complete t (s.threads t).arg _)
  ]

  buried-Alike : (s : Threads) (t : ℕ) (ts : List ℕ) → Alike (buried s t ts).threads s.threads
  unfolding buried set_thread
  buried-Alike s t ts u = elim (Bool-cases (u == t)) [
    | inl e ↦ rw (e, ==_eq u t e) (refl, refl, refl)
    | inr e ↦ rw e (refl, refl, refl)
  ]

  buried_active :
      (s : Threads) (t : ℕ) (ts : List ℕ) (u : ℕ)
      → (not (has u ts) && is_active (buried s t ts) u) ≡ (not (has u (t ∷ ts)) && is_active s u)
  unfolding buried set_thread is_active
  buried_active s t ts u = ground arith

  reap_from :
      (q : IsQuiet) (f : ℕ) (s : Threads) (ts : List ℕ)
      → s.complete ≡ ts
      → length ts < f
      → (s' : Threads) × (reap os f s ≡ some s') × Reaped s s'
  unfolding reap complete_check complete_at buried set_thread is_active
  reap_from q zero s ts e h = absurd (omega arith)
  reap_from q (suc f) s [] e h = (
    s,
    rw e refl,
    record {
      none_left = e;
      running = refl;
      count = refl;
      joined = rw e refl;
      told = rw e refl;
      active = λ u. rw e refl;
    },
  )
  reap_from q (suc f) s (t ∷ ts) e h =
      let (s', run, r) = reap_from q f (buried s t ts) ts refl (omega arith) in
      (
        s',
        rw (e, bury-buried s t ts q) run,
        record {
          none_left = r.none_left;
          running = r.running;
          count = r.count;
          joined =
              r.joined
              ∙ joins-Alike (buried s t ts).threads s.threads ts _ (buried-Alike s t ts)
              ∙ rw e refl;
          told =
              r.told
              ∙ tells-Alike (buried s t ts).threads s.threads ts _ (buried-Alike s t ts)
              ∙ rw e refl;
          active = λ u. r.active u ∙ rw e (buried_active s t ts u);
        },
      )

  -- The loop of `svc_threads_count` ends after one round for each ended thread and one more, if the
  -- callbacks leave the registry alone: then no ended thread is left and none of them is active, each
  -- was joined once and each that has a callback told of once, in order, and the running threads and
  -- their count are as before.
  pub reap-Reaped :
      (s : Threads) (f : ℕ)
      → IsQuiet
      → length s.complete < f
      → (s' : Threads) × (reap os f s ≡ some s') × Reaped s s'
  reap-Reaped s f q h = reap_from q f s s.complete refl h
