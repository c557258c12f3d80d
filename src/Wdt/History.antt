-- ===== src/Wdt/History.antt =====
-- What a pass of the watchdog finds after any sequence of operations, told from that sequence. Each
-- handler has its own group throughout, as the callers of svc_wdt.c keep it: a handler that is
-- registered in a second group without leaving the first would stand in two stacks with one link. And
-- no handler is registered while it is registered: that would drop the handlers behind it.
use mathlib.Core.Path.{subst}
use qoraal.Base.{
  ℕ, ◌↔◌, ◌≡◌, inl, inr, refl, sym, Bool, true, false, ◌&&◌, none, some, List, [], ◌∷◌, ltb, ◌==◌,
  ==_eq, if◌then◌else◌, Bool-cases, has, has-erase, Distinct, Distinct-erase, arith,
}
use qoraal.Tasks.{update}
use qoraal.Wdt.{
  Handler, Registry, timeout_last, set_handler, before, register, unregister, activate, set_id,
  deactivate, handler_kick, process,
}
use qoraal.Wdt.Age.{
  Age, HasAge, older, starved, any_starved-false, any_starved-none, process_from-HasAge,
}

-- The calls of the module, by name.
pub data Op : Type 0 where
  joins : (thread u : ℕ) → Op
  leaves : (u : ℕ) → Op
  starts : (thread u : ℕ) → Op
  names : (u id : ℕ) → Op
  stops : (u : ℕ) → Op
  kicks : (u : ℕ) → Op
  checks : (id : ℕ) → Op

-- The registry before the first call: no stack has a member, no bit is set.
abbrev pub blank : Registry
blank = record {
  handlers = λ u. record {
    thread = 0;
    id = 0;
    active = false;
    kicked = false;
    flagged = false;
    reported = false;
    timeout = 0;
  };
  stacks = λ id. [];
}

-- Who is registered, and for how many passes without a kick.
pub record Log : Type 0 where
  pub member : ℕ → Bool
  pub age : ℕ → Age

abbrev pub empty : Log
empty = record { member = λ u. false; age = λ u. none }

abbrev pub refreshed : Age → Age
refreshed none = none
refreshed (some n) = some 0

-- Without `u` in the list all of it stands before `u`.
before-not-has : (u : ℕ) (xs : List ℕ) → has u xs ≡ false → before u xs ≡ xs
unfolding before
before-not-has u [] h = refl
before-not-has u (x ∷ xs) h = ground (arith, before-not-has u xs)

-- A call that registers `u` comes while `u` is not registered.
abbrev pub IsNew : Log → Op → Type 0
IsNew l (joins thread u) = l.member u ≡ false
IsNew l (leaves u) = Unit {0}
IsNew l (starts thread u) = Unit {0}
IsNew l (names u id) = Unit {0}
IsNew l (stops u) = Unit {0}
IsNew l (kicks u) = Unit {0}
IsNew l (checks id) = Unit {0}

kick-HasAge :
    (h : Handler) (a : Age)
    → HasAge h a
    → HasAge (record h { kicked = true; reported = false; flagged = false }) (refreshed a)
kick-HasAge h none e = e
kick-HasAge h (some n) (a, k, f, r) = (a, refl, refl, refl)

set_id-HasAge : (h : Handler) (id : ℕ) (a : Age) → HasAge h a → HasAge (record h { id = id }) a
set_id-HasAge h id none e = e
set_id-HasAge h id (some n) e = e

module _ (group : ℕ → ℕ) where
  -- The code's step.
  unfoldable pub step : Registry → Op → Registry
  step r (joins thread u) = register r thread u (group u)
  step r (leaves u) = unregister r u (group u)
  step r (starts thread u) = activate r thread u
  step r (names u id) = set_id r u id
  step r (stops u) = deactivate r u
  step r (kicks u) = handler_kick r u
  step r (checks id) = (process r id).0

  unfoldable pub run : Registry → List Op → Registry
  unfolding step
  run r [] = r
  run r (o ∷ os) = run (step r o) os

  -- The same step on the log.
  abbrev pub note : Log → Op → Log
  note l (joins thread u) = record {
    member = if ltb (group u) timeout_last then update l.member u true else l.member;
    age = update l.age u none;
  }
  note l (leaves u) = record l {
    member = if ltb (group u) timeout_last then update l.member u false else l.member;
  }
  note l (starts thread u) = record l { age = update l.age u (some 0) }
  note l (names u id) = l
  note l (stops u) = record l { age = update l.age u none }
  note l (kicks u) = record l { age = update l.age u (refreshed (l.age u)) }
  note l (checks id) = record l {
    age = λ v. if l.member v && (group v == id) then older (l.age v) else l.age v;
  }

  abbrev pub notes : Log → List Op → Log
  notes l [] = l
  notes l (o ∷ os) = notes (note l o) os

  -- No handler is registered while it is registered.
  abbrev pub IsProper : Log → List Op → Type 0
  IsProper l [] = Unit {0}
  IsProper l (o ∷ os) = IsNew l o × IsProper (note l o) os

  -- The log tells what the registry holds.
  pub record Tells (l : Log) (r : Registry) : Type 0 where
    pub ages : (v : ℕ) → HasAge (r.handlers v) (l.age v)
    pub members : (v id : ℕ) → has v (r.stacks id) ≡ (l.member v && (group v == id))
    pub distinct : (id : ℕ) → Distinct (r.stacks id)

  joins-Tells :
      (l : Log) (r : Registry) (thread u : ℕ)
      → IsNew l (joins thread u)
      → Tells l r
      → Tells (note l (joins thread u)) (step r (joins thread u))
  unfolding step register set_handler
  joins-Tells l r thread u n t = elim (Bool-cases (ltb (group u) timeout_last)) [
    | inl e ↦
        let out : has u (r.stacks (group u)) ≡ false = ground (arith, n, t.members u (group u)) in
        rw (e, before-not-has u (r.stacks (group u)) out)
          (record {
            ages = λ v. ground (arith, t.ages v);
            members = λ v id. ground (arith, n, t.members v id, t.members v (group u));
            distinct = λ id. elim (Bool-cases (id == group u)) [
              | inl i ↦ rw i (out, t.distinct (group u))
              | inr i ↦ rw i (t.distinct id)
            ];
          })
    | inr e ↦ rw e (record {
      ages = λ v. ground (arith, t.ages v);
      members = t.members;
      distinct = t.distinct;
    })
  ]

  leaves-Tells :
      (l : Log) (r : Registry) (u : ℕ) → Tells l r → Tells (note l (leaves u)) (step r (leaves u))
  unfolding step unregister
  leaves-Tells l r u t = elim (Bool-cases (ltb (group u) timeout_last)) [
    | inl e ↦ rw e (record {
      ages = t.ages;
      members = λ v id. ground (
        arith,
        has-erase v u (r.stacks (group u)) (t.distinct (group u)),
        t.members v id,
        t.members v (group u),
      );
      distinct = λ id. elim (Bool-cases (id == group u)) [
        | inl i ↦ rw i (Distinct-erase u (r.stacks (group u)) (t.distinct (group u)))
        | inr i ↦ rw i (t.distinct id)
      ];
    })
    | inr e ↦ rw e t
  ]

  -- An operation on the bits of one handler alone.
  handler-Tells :
      (l : Log) (r : Registry) (u : ℕ) (h : Handler) (a : Age)
      → Tells l r
      → HasAge h a
      → Tells (record l { age = update l.age u a }) (set_handler r u h)
  unfolding set_handler
  handler-Tells l r u h a t w = record {
    ages = λ v. elim (Bool-cases (v == u)) [ inl e ↦ rw e w | inr e ↦ rw e (t.ages v) ];
    members = t.members;
    distinct = t.distinct;
  }

  pub checks-Tells :
      (l : Log) (r : Registry) (id : ℕ)
      → Tells l r
      → Tells (note l (checks id)) (step r (checks id))
  unfolding step process
  checks-Tells l r id t =
      let (w, k, s) = process_from-HasAge r true (r.stacks id) l.age (t.distinct id) t.ages in
      record {
        ages = λ v.
            subst
              (λ (b : Bool).
                HasAge ((process r id).0.handlers v) (if b then older (l.age v) else l.age v))
              (t.members v id) (w v);
        members = λ v j. rw s (t.members v j);
        distinct = λ j. rw s (t.distinct j);
      }

  step-Tells :
      (l : Log) (r : Registry) (o : Op) → IsNew l o → Tells l r → Tells (note l o) (step r o)
  unfolding step activate deactivate handler_kick set_id set_handler
  step-Tells l r (joins thread u) n t = joins-Tells l r thread u n t
  step-Tells l r (leaves u) n t = leaves-Tells l r u t
  step-Tells l r (starts thread u) n t = handler-Tells l r u _ (some 0) t (refl, refl, refl, refl)
  step-Tells l r (names u id) n t = record {
    ages = λ v. elim (Bool-cases (v == u)) [
      | inl e ↦ rw e (
          subst (λ (w : ℕ). HasAge (record (r.handlers u) { id = id }) (l.age w))
            (sym (==_eq v u e)) (set_id-HasAge (r.handlers u) id (l.age u) (t.ages u)))
      | inr e ↦ rw e (t.ages v)
    ];
    members = t.members;
    distinct = t.distinct;
  }
  step-Tells l r (stops u) n t = handler-Tells l r u _ none t refl
  step-Tells l r (kicks u) n t =
      handler-Tells l r u _ (refreshed (l.age u)) t
        (kick-HasAge (r.handlers u) (l.age u) (t.ages u))
  step-Tells l r (checks id) n t = checks-Tells l r id t

  pub run-Tells :
      (l : Log) (r : Registry) (os : List Op)
      → IsProper l os
      → Tells l r
      → Tells (notes l os) (run r os)
  unfolding run
  run-Tells l r [] p t = t
  run-Tells l r (o ∷ os) (n, p) t = run-Tells (note l o) (step r o) os p (step-Tells l r o n t)

  pub blank-Tells : Tells empty blank
  blank-Tells = record { ages = λ v. refl; members = λ v j. refl; distinct = λ j. tt }

  -- After any calls of the module, by whatever threads, in which each handler has one group
  -- throughout and is not registered again while it is registered, a pass over a group lets the
  -- hardware watchdog be kicked exactly if no active handler that is registered there has been
  -- through two passes or more since it was activated or last kicked.
  pub process-OnTime :
      (os : List Op) (id : ℕ)
      → IsProper empty os
      → ((process (run blank os) id).1 ≡ true) ↔ (
          (u : ℕ)
          → (notes empty os).member u ≡ true
          → group u ≡ id
          → starved ((notes empty os).age u) ≡ false)
  unfolding process
  process-OnTime os id p =
      let l = notes empty os in
      let r = run blank os in
      let t : Tells l r = run-Tells empty blank os p blank-Tells in
      let (w, k, s) = process_from-HasAge r true (r.stacks id) l.age (t.distinct id) t.ages in
      (
        λ e u m g.
            any_starved-false l.age (r.stacks id) (ground (arith, k, e)) u
              (ground (arith, t.members u id)),
        λ f. ground (
          arith,
          k,
          any_starved-none l.age (r.stacks id)
              (λ u m. f u (ground (arith, t.members u id)) (ground (arith, t.members u id))),
        ),
      )
