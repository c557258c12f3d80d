-- ===== src/Wdt/Age.antt =====
-- What the bits of a watchdog handler remember: how many passes over its group it has missed since
-- it was last kicked.
use qoraal.Base.{
  ℕ, ◌+◌, ◌≡◌, inl, inr, refl, Bool, true, false, ◌&&◌, ◌||◌, not, Option, none, some, List, [],
  ◌∷◌, leb, ◌==◌, ==_eq, if◌then◌else◌, Bool-cases, has, Distinct, arith,
}
use mathlib.Core.Path.{subst}
use qoraal.Tasks.{update}
use qoraal.Wdt.{Handler, Registry, set_handler, visit, process_from}

-- The number of passes that an active handler has been through since its last kick.
abbrev pub Age : Type 0
Age = Option ℕ

-- The bits are those of the age.
abbrev pub HasAge : Handler → Age → Type 0
HasAge h none = h.active ≡ false
HasAge h (some n) =
    (h.active ≡ true) × (h.kicked ≡ (n == 0)) × (h.flagged ≡ leb 2 n) × (h.reported ≡ leb 3 n)

-- One pass more.
abbrev pub older : Age → Age
older none = none
older (some n) = some (n + 1)

-- The handler has missed two whole passes.
abbrev pub starved : Age → Bool
starved none = false
starved (some n) = leb 2 n

-- One visit makes the handler a pass older, and holds the kick back if it is starved.
pub visit-HasAge :
    (h : Handler) (a : Age)
    → HasAge h a
    → HasAge (visit h).0 (older a) × ((visit h).1 ≡ not (starved a))
unfolding visit
visit-HasAge h none e = ground arith
visit-HasAge h (some n) (a, k, f, r) = ground arith

-- Some handler of the list is starved.
abbrev pub any_starved : (ℕ → Age) → List ℕ → Bool
any_starved age [] = false
any_starved age (u ∷ us) = starved (age u) || any_starved age us

-- The ages behind a pass over the list.
abbrev pub pass : (ℕ → Age) → List ℕ → ℕ → Age
pass age us v = if has v us then older (age v) else age v

any_starved-update :
    (age : ℕ → Age) (u : ℕ) (a : Age) (us : List ℕ)
    → has u us ≡ false
    → any_starved (update age u a) us ≡ any_starved age us
any_starved-update age u a [] n = refl
any_starved-update age u a (v ∷ us) n = ground (arith, any_starved-update age u a us)

pass-update :
    (age : ℕ → Age) (u : ℕ) (us : List ℕ)
    → has u us ≡ false
    → (v : ℕ) → pass (update age u (older (age u))) us v ≡ pass age (u ∷ us) v
pass-update age u us n v = ground arith

-- A pass over a list of different handlers makes each of them a pass older, leaves all others
-- alone, and holds the kick back exactly if one of them is starved.
pub process_from-HasAge :
    (r : Registry) (kick : Bool) (us : List ℕ) (age : ℕ → Age)
    → Distinct us
    → ((v : ℕ) → HasAge (r.handlers v) (age v))
    → ((v : ℕ) → HasAge ((process_from r kick us).0.handlers v) (pass age us v))
      × ((process_from r kick us).1 ≡ (kick && not (any_starved age us)))
      × ((process_from r kick us).0.stacks ≡ r.stacks)
unfolding process_from set_handler
process_from-HasAge r kick [] age d h = (h, ground arith, refl)
process_from-HasAge r kick (u ∷ us) age (n, d) h =
    let (w, k) = visit-HasAge (r.handlers u) (age u) (h u) in
    let r' = set_handler r u (visit (r.handlers u)).0 in
    let age' : ℕ → Age = update age u (older (age u)) in
    let h' : (v : ℕ) → HasAge (r'.handlers v) (age' v) =
      λ v. elim (Bool-cases (v == u)) [ inl e ↦ rw e w | inr e ↦ rw e (h v) ] in
    let (ih, q, s) =
      process_from-HasAge r' (if (visit (r.handlers u)).1 then kick else false) us age' d h' in
    (
      λ v.
          subst (λ (a : Age). HasAge ((process_from r kick (u ∷ us)).0.handlers v) a)
            (pass-update age u us n v) (ih v),
      ground (arith, q, k, any_starved-update age u (older (age u)) us n),
      s,
    )

pub any_starved-false :
    (age : ℕ → Age) (us : List ℕ)
    → any_starved age us ≡ false
    → (u : ℕ) → has u us ≡ true
    → starved (age u) ≡ false
any_starved-false age [] e u m = absurd (ground arith)
any_starved-false age (v ∷ us) e u m = elim (Bool-cases (u == v)) [
  | inl i ↦ ground (arith, ==_eq u v i)
  | inr i ↦ any_starved-false age us (ground arith) u (ground arith)
]

pub any_starved-none :
    (age : ℕ → Age) (us : List ℕ)
    → ((u : ℕ) → has u us ≡ true → starved (age u) ≡ false)
    → any_starved age us ≡ false
any_starved-none age [] f = refl
any_starved-none age (v ∷ us) f =
    ground (arith, f v (ground arith), any_starved-none age us (λ u m. f u (ground arith)))
