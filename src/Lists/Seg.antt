-- ===== src/Lists/Seg.antt =====
-- What a chain of links stands for: the objects from `p` on, in order, all different and none null.
use qoraal.Base.{
  if◌then◌else◌, ℕ, zero, suc, ◌≡◌, ◌≢◌, refl, ◌<◌, true, false, List, [], ◌∷◌, ◌++◌, some, arith,
  ==_refl, ==_ne, ==_eq, sym, inl, inr, Bool-cases, ◌==◌, length, has, erase, last_or, insert_after,
  not-has-erase, has-append, has-last_or, not-has-insert_after,
}
use mathlib.Core.Path.{fun_ext}
use qoraal.Lists.{Ptr, null, Heap, write, find, walk}

abbrev pub Seg : Heap → Ptr → List Ptr → Type 0
Seg h p [] = p ≡ null
Seg h p (x ∷ xs) = (p ≡ x) × (x ≢ null) × (has x xs ≡ false) × Seg h (h x) xs

-- `g` differs from `h` at most at the objects of `xs`.
abbrev pub SameOutside : List Ptr → Heap → Heap → Type 0
SameOutside xs h g = (a : Ptr) → has a xs ≡ false → g a ≡ h a

pub write_here : (h : Heap) (a q : Ptr) → write h a q a ≡ q
unfolding write
write_here h a q = ground arith

-- A chain survives a write to an object that is not in it.
pub Seg-write :
    (h : Heap) (p : Ptr) (xs : List Ptr) (a q : Ptr)
    → Seg h p xs
    → has a xs ≡ false
    → Seg (write h a q) p xs
unfolding write
Seg-write h p [] a q s out = s
Seg-write h p (x ∷ xs) a q s out =
    let e : write h a q x ≡ h x = ground arith in
    (s.0, s.1, s.2, rw e (Seg-write h (h x) xs a q s.3 (ground arith)))

-- What the search loop ends with: begun behind `p`, whose chain goes on with `xs`, it stops at
-- `obj`, and unlinking what follows `prev` drops `obj` from the chain.
pub record Unlinked (h : Heap) (p : Ptr) (xs : List Ptr) (obj prev : Ptr) : Type 0 where
  pub linked : h prev ≡ obj
  pub real : prev ≢ null
  pub inside : has prev (p ∷ xs) ≡ true
  pub chain : Seg (write h prev (h obj)) (write h prev (h obj) p) (erase obj xs)
  pub ends : h obj ≡ null → prev ≡ last_or p (erase obj xs)
  pub keeps : h obj ≢ null → last_or p (erase obj xs) ≡ last_or p xs

-- Where nothing follows, the last object of the rest is the one given.
last_or_of_nil : (h : Heap) (p : Ptr) (xs : List Ptr) → Seg h null xs → p ≡ last_or p xs
last_or_of_nil h p [] s = refl
last_or_of_nil h p (x ∷ xs) s = absurd (s.1 (sym s.0))

last_or_of_ne :
    (h : Heap) (p x : Ptr) (xs : List Ptr)
    → h x ≢ null
    → Seg h (h x) xs
    → last_or p xs ≡ last_or x xs
last_or_of_ne h p x [] ne s = absurd (ne s)
last_or_of_ne h p x (y ∷ ys) ne s = refl

Unlinked-here :
    (h : Heap) (p x : Ptr) (xs : List Ptr)
    → p ≢ null
    → has p (x ∷ xs) ≡ false
    → Seg h (h p) (x ∷ xs)
    → Unlinked h p (x ∷ xs) x p
unfolding write
Unlinked-here h p x xs np out s = record {
  linked = s.0;
  real = np;
  inside = ground arith;
  chain =
      let e : write h p (h x) p ≡ h x = ground arith in
      rw (==_refl x, e) (Seg-write h (h x) xs p (h x) s.3 (ground arith));
  ends = rw (==_refl x) (λ last. last_or_of_nil h p xs (rw last at s.3));
  keeps = rw (==_refl x) (λ more. last_or_of_ne h p x xs more s.3);
}

Unlinked-later :
    (h : Heap) (p x obj prev : Ptr) (xs : List Ptr)
    → has p (x ∷ xs) ≡ false
    → x ≢ obj
    → Seg h (h p) (x ∷ xs)
    → Unlinked h x xs obj prev
    → Unlinked h p (x ∷ xs) obj prev
unfolding write
Unlinked-later h p x obj prev xs out ne s u = record {
  linked = u.linked;
  real = u.real;
  inside = ground (arith, u.inside);
  chain =
      let e : write h prev (h obj) p ≡ x = ground arith in
      rw (==_ne x obj ne, e) (refl, s.1, not-has-erase x obj xs s.2, u.chain);
  ends = rw (==_ne x obj ne) u.ends;
  keeps = rw (==_ne x obj ne) u.keeps;
}

-- The search for a member of a chain ends in front of it.
pub find_unlinks :
    (k : ℕ) (h : Heap) (p obj : Ptr) (xs : List Ptr)
    → p ≢ null
    → has p xs ≡ false
    → Seg h (h p) xs
    → has obj xs ≡ true
    → length xs < k
    → (prev : Ptr) × (find k h p (h p) obj ≡ some (prev, obj)) × Unlinked h p xs obj prev
unfolding find
find_unlinks zero h p obj xs np out s m fuel = absurd (omega arith)
find_unlinks (suc k) h p obj [] np out s m fuel = absurd (cc)
find_unlinks (suc k) h p obj (x ∷ xs) np out s m fuel = elim (Bool-cases (x == obj)) [
  | inl e ↦ (p, ground (arith, s.0), rw (← ==_eq x obj e) (Unlinked-here h p x xs np out s))
  | inr e ↦
      let (prev, run, u) = find_unlinks k h x obj xs s.1 s.2 s.3 (ground arith) (omega arith) in
      (prev, ground (arith, s.0, run), Unlinked-later h p x obj prev xs out (ground arith) s u)
]

-- The search for what is not in a chain ends behind its last object.
pub find_misses :
    (k : ℕ) (h : Heap) (prev start obj : Ptr) (xs : List Ptr)
    → Seg h start xs
    → has obj xs ≡ false
    → obj ≢ null
    → length xs < k
    → find k h prev start obj ≡ some (last_or prev xs, null)
unfolding find
find_misses zero h prev start obj xs s m ne fuel = absurd (omega arith)
find_misses (suc k) h prev start obj [] s m ne fuel = ground (arith, s)
find_misses (suc k) h prev start obj (x ∷ xs) s m ne fuel =
    ground (arith, s.0, s.1, find_misses k h x (h x) obj xs s.3)

-- The walk to the end of a chain finds its last object.
pub walk-last_or :
    (k : ℕ) (h : Heap) (prev start : Ptr) (xs : List Ptr)
    → Seg h start xs
    → length xs < k
    → walk k h prev start ≡ some (last_or prev xs)
unfolding walk
walk-last_or zero h prev start xs s fuel = absurd (omega arith)
walk-last_or (suc k) h prev start [] s fuel = ground (arith, s)
walk-last_or (suc k) h prev start (x ∷ xs) s fuel =
    ground (arith, s.0, s.1, walk-last_or k h x (h x) xs s.3)

-- The search for the first object of a chain stops at once.
pub find_first :
    (k : ℕ) (h : Heap) (prev start obj : Ptr)
    → start ≡ obj
    → find (suc k) h prev start obj ≡ some (prev, obj)
unfolding find
find_first k h prev start obj e = ground arith

-- The search for another member goes on behind the first object.
pub find_later :
    (k : ℕ) (h : Heap) (prev start obj x : Ptr) (xs : List Ptr)
    → Seg h start (x ∷ xs)
    → x ≢ obj
    → has obj xs ≡ true
    → length xs < k
    → (p : Ptr) × (find (suc k) h prev start obj ≡ some (p, obj)) × Unlinked h x xs obj p
unfolding find
find_later k h prev start obj x xs s ne m fuel =
    let (p, run, u) = find_unlinks k h x obj xs s.1 s.2 s.3 m fuel in
    (p, ground (arith, s.0, s.1, run), u)

-- Linking a new object behind the last one of a chain extends the chain by it.
pub Seg-append :
    (h : Heap) (p add x : Ptr) (xs : List Ptr)
    → Seg h p (x ∷ xs)
    → add ≢ null
    → has add (x ∷ xs) ≡ false
    → h add ≡ null
    → Seg (write h (last_or x xs) add) p (x ∷ xs ++ (add ∷ []))
unfolding write
Seg-append h p add x [] s ne out clean =
    (s.0, s.1, ground arith, (ground arith, ne, refl, ground arith))
Seg-append h p add x (y ∷ ys) s ne out clean =
    let e : write h (last_or y ys) add x ≡ h x = ground (arith, has-last_or y ys) in
    (
      s.0,
      s.1,
      ground (arith, has-append x ys (add ∷ []), s.2),
      rw e (Seg-append h (h x) add y ys s.3 ne (ground arith) clean),
    )

-- The last object of a chain links to null.
pub Seg-last : (h : Heap) (p x : Ptr) (xs : List Ptr) → Seg h p (x ∷ xs) → h (last_or x xs) ≡ null
Seg-last h p x [] s = s.3
Seg-last h p x (y ∷ ys) s = Seg-last h (h x) y ys s.3

pub Seg-last_ne : (h : Heap) (p x : Ptr) (xs : List Ptr) → Seg h p (x ∷ xs) → last_or x xs ≢ null
Seg-last_ne h p x [] s = s.1
Seg-last_ne h p x (y ∷ ys) s = Seg-last_ne h (h x) y ys s.3

-- Linking a new object behind a member of a chain puts it there.
pub Seg-insert :
    (h : Heap) (p obj add : Ptr) (xs : List Ptr)
    → Seg h p xs
    → has obj xs ≡ true
    → add ≢ null
    → has add xs ≡ false
    → Seg (write (write h add (h obj)) obj add) p (insert_after obj add xs)
unfolding write
Seg-insert h p obj add [] s m ne out = absurd (cc)
Seg-insert h p obj add (x ∷ xs) s m ne out = elim (Bool-cases (x == obj)) [
  | inl e ↦
      let g : Heap = write (write h add (h obj)) obj add in
      let here : g x ≡ add = ground arith in
      let there : g add ≡ h x = ground arith in
      let rest : Seg g (h x) xs =
        Seg-write (write h add (h obj)) (h x) xs obj add
          (Seg-write h (h x) xs add (h obj) s.3 (ground arith)) (ground (arith, s.2)) in
      rw e (s.0, s.1, ground (arith, s.2), (here, ne, ground arith, rw there rest))
  | inr e ↦
      let same : write (write h add (h obj)) obj add x ≡ h x = ground arith in
      rw e (
        s.0,
        s.1,
        not-has-insert_after x obj add xs s.2 (ground arith),
        rw same (Seg-insert h (h x) obj add xs s.3 (ground arith) ne (ground arith)),
      )
]

-- A write of what a link holds already changes nothing.
pub write_same : (h : Heap) (a q : Ptr) → h a ≡ q → write h a q ≡ h
unfolding write
write_same h a q e = fun_ext (λ b. ground arith)

-- What is put behind the last object is the last one then; else the last one stays.
pub last_or-insert_after :
    (h : Heap) (d p obj add x : Ptr) (xs : List Ptr)
    → Seg h p (x ∷ xs)
    → has obj (x ∷ xs) ≡ true
    → last_or d (insert_after obj add (x ∷ xs))
      ≡ (if obj == last_or x xs then add else last_or x xs)
last_or-insert_after h d p obj add x [] s m = ground arith
last_or-insert_after h d p obj add x (y ∷ ys) s m = elim (Bool-cases (x == obj)) [
  | inl e ↦ rw e (ground (arith, has-last_or y ys, s.2))
  | inr e ↦ rw e (last_or-insert_after h x (h x) obj add y ys s.3 (ground arith))
]
