-- ===== src/Dictionary/Visit.antt =====
-- What the iterators of src/common/dictionary.c visit.
use qoraal.Base.{
  ℕ, zero, suc, ◌+◌, ◌-◌, ◌≡◌, ◌<◌, ◌≤◌, refl, ap, ◌∙◌, Option, none, some, List, [], ◌∷◌, ◌++◌,
  length, arith,
}
use mathlib.Core.Path.{subst}
use qoraal.Dictionary.{Entry}
use qoraal.Dictionary.Iterate.{
  Position, first_of, search, landed, behind, next, start, it_first, it_next, visit,
}

module _ {K : Type 0} (hashtab : ℕ → List (Entry K)) (hashsize : ℕ) where
  -- The entries of `n` chains, from the one at `i` on
  abbrev pub entries : (n i : ℕ) → List (Entry K)
  entries zero i = []
  entries (suc n) i = hashtab i ++ entries n (i + 1)

  -- What the search finds: the end, and then there is no entry, or the first of the entries.
  abbrev Finds : List (Entry K) → Option (Position K) → Type 0
  Finds es none = es ≡ []
  Finds es (some q) =
      (x : Entry K) × (xs : List (Entry K)) × (q.np ≡ x ∷ xs)
      × (q.after ≤ hashsize)
      × (es ≡ q.np ++ entries (hashsize - q.after) q.after)

  first_of-Finds :
      (n i : ℕ) (es rest : List (Entry K)) (r : Option (Position K))
      → suc n + i ≡ hashsize
      → rest ≡ entries n (i + 1)
      → Finds rest r
      → Finds (es ++ rest) (first_of i es r)
  unfolding first_of
  first_of-Finds n i [] rest r h k f = f
  first_of-Finds n i (x ∷ xs) rest r h k f =
      let e : hashsize - (i + 1) ≡ n = omega arith in
      (x, xs, refl, omega (arith, h), rw (e, k) refl)

  search-Finds : (n i : ℕ) → n + i ≡ hashsize → Finds (entries n i) (search hashtab n i)
  unfolding search
  search-Finds zero i h = refl
  search-Finds (suc n) i h =
      first_of-Finds n i (hashtab i) (entries n (i + 1)) (search hashtab n (i + 1)) h refl
        (search-Finds n (i + 1) (omega arith))

  -- An iterator at these entries, in front of the chain at `a`
  abbrev at : List (Entry K) → ℕ → Position K
  at es a = record { np = es; after = a }

  -- With so much fuel a visit from any entry on meets all that are left.
  abbrev Visits : (f : ℕ) → Type 0
  Visits f =
      (x : Entry K) (xs : List (Entry K)) (a : ℕ)
      → a ≤ hashsize
      → length ((x ∷ xs) ++ entries (hashsize - a) a) < f
      → visit hashtab hashsize f (x ∷ xs) (at (x ∷ xs) a)
        ≡ some ((x ∷ xs) ++ entries (hashsize - a) a)

  visit-landed :
      (f : ℕ) (p : Position K) (es : List (Entry K)) (r : Option (Position K))
      → Visits f
      → Finds es r
      → length es < f
      → visit hashtab hashsize f (landed p r).np (landed p r) ≡ some es
  unfolding landed
  visit-landed zero p es r v h l = absurd (omega arith)
  visit-landed (suc f) p es none v h l = rw h refl
  visit-landed (suc f) p es (some q) v (x, xs, e, b, k) l =
      let c : q ≡ at (x ∷ xs) q.after = ap (λ (n : List (Entry K)). record q { np = n }) e in
      let k' : es ≡ (x ∷ xs) ++ entries (hashsize - q.after) q.after =
        k ∙ ap (λ (n : List (Entry K)). n ++ entries (hashsize - q.after) q.after) e in
      rw (c, k') (v x xs q.after b (subst (λ (z : List (Entry K)). length z < suc f) k' l))

  visit-all : (f : ℕ) → Visits f
  unfolding it_next next behind
  visit-all zero x xs a b l = absurd (omega arith)
  visit-all (suc f) x (y ∷ ys) a b l = rw (visit-all f y ys a b (omega (arith, l))) refl
  visit-all (suc f) x [] a b l =
      let n : hashsize - a + a ≡ hashsize = omega (arith, b) in
      rw
        (visit-landed f (at (x ∷ []) a) (entries (hashsize - a) a) (search hashtab (hashsize - a) a)
          (visit-all f) (search-Finds (hashsize - a) a n) (omega (arith, l)))
        refl

  -- The iteration without a comparison, from `dictionary_it_first` on with `dictionary_it_next`,
  -- visits every entry of the dictionary once, chain by chain, and ends, in more steps than there are
  -- entries.
  pub visit-entries :
      (f : ℕ)
      → length (entries hashsize 0) < f
      → (p : Position K) × (it_first hashtab hashsize 0 none ≡ some p)
        × (visit hashtab hashsize f p.np p ≡ some (entries hashsize 0))
  unfolding it_first next behind
  visit-entries f l =
      let z : hashsize - 0 ≡ hashsize = omega arith in
      (
        next hashtab hashsize start,
        refl,
        rw z (
            visit-landed f start (entries hashsize 0) (search hashtab hashsize 0) (visit-all f)
              (search-Finds hashsize 0 (omega arith)) l),
      )
