-- ===== src/Dictionary/Chain.antt =====
-- What the loops of src/common/dictionary.c do to a chain.
use mathlib.Core.Path.{subst}
use qoraal.Base.{
  ℕ, ◌≡◌, ◌⊎◌, inl, inr, refl, sym, ◌∙◌, ap, Bool, true, false, none, some, List, [], ◌∷◌,
  if◌then◌else◌, Bool-cases, arith,
}
use qoraal.Dictionary.{Keys, Entry, find, unlink, put}

module _ {K : Type 0} (keys : Keys K) where
  pub same-cases : (a b : K) → (a ≡ b) × (keys.cmp a b ≡ true) ⊎ (keys.cmp a b ≡ false)
  same-cases a b = elim (Bool-cases (keys.cmp a b)) [
    | inl e ↦ inl (keys.cmp_eq a b e, e)
    | inr e ↦ inr e
  ]

  pub cmp_comm : (a b : K) → keys.cmp a b ≡ keys.cmp b a
  cmp_comm a b = elim (same-cases a b) [
    | inl (p, e) ↦ rw p refl
    | inr e ↦ elim (same-cases b a) [ inl (p, f) ↦ rw p refl | inr f ↦ e ∙ sym f ]
  ]

  -- The same key as `k` compares with `j` as `j` does with `k`.
  cmp-same : (x j k : K) (b : Bool) → x ≡ k → keys.cmp j k ≡ b → keys.cmp x j ≡ b
  cmp-same x j k b p t = ap (λ (y : K). keys.cmp y j) p ∙ cmp_comm k j ∙ t

  -- A key that is `j` is not `k` if `j` is not.
  cmp-other : (x j k : K) → x ≡ j → keys.cmp x k ≡ false → keys.cmp j k ≡ false
  cmp-other x j k q s = ap (λ (y : K). keys.cmp y k) (sym q) ∙ s

  -- No two entries of a chain have the same key.
  abbrev pub Unique : List (Entry K) → Type 0
  Unique [] = Unit {0}
  Unique (e ∷ es) = (find keys e.key es ≡ none) × Unique es

  pub find-unlink :
      (j k : K) (es : List (Entry K))
      → Unique es
      → find keys j (unlink keys k es) ≡ (if keys.cmp j k then none else find keys j es)
  unfolding find unlink
  find-unlink j k [] u = elim (Bool-cases (keys.cmp j k)) [ inl e ↦ rw e refl | inr e ↦ rw e refl ]
  find-unlink j k (e ∷ es) (n, u) = elim (same-cases e.key k) [
    | inl (p, s) ↦ rw s (elim (same-cases j k) [
      | inl (q, t) ↦ rw t (subst (λ (x : K). find keys x es ≡ none) (p ∙ sym q) n)
      | inr t ↦ rw (t, cmp-same e.key j k false p t) refl
    ])
    | inr s ↦ rw s (elim (same-cases e.key j) [
      | inl (q, t) ↦ rw (t, cmp-other e.key j k q s) refl
      | inr t ↦ rw t (find-unlink j k es u)
    ])
  ]

  pub find-put :
      (j k : K) (v : List ℕ) (es : List (Entry K)) (e : Entry K)
      → find keys k es ≡ some e
      → find keys j (put keys k v es)
        ≡ (if keys.cmp j k then some (record { key = k; value = v }) else find keys j es)
  unfolding find put
  find-put j k v [] e f = absurd (ground arith)
  find-put j k v (x ∷ es) e f = elim (same-cases x.key k) [
    | inl (p, s) ↦ rw s (elim (same-cases j k) [
      | inl (q, t) ↦
          rw (t, cmp-same x.key j k true p t)
            (ap (λ (y : K). some (record { key = y; value = v })) p)
      | inr t ↦ rw (t, cmp-same x.key j k false p t) refl
    ])
    | inr s ↦ rw s (elim (same-cases x.key j) [
      | inl (q, t) ↦ rw (t, cmp-other x.key j k q s) refl
      | inr t ↦ rw t (
          find-put j k v es e
            (subst (λ (b : Bool). (if b then some x else find keys k es) ≡ some e) s f))
    ])
  ]

  find-put_absent :
      (j k : K) (v : List ℕ) (es : List (Entry K))
      → find keys j es ≡ none
      → find keys j (put keys k v es) ≡ none
  unfolding find put
  find-put_absent j k v [] n = refl
  find-put_absent j k v (x ∷ es) n = elim (Bool-cases (keys.cmp x.key j)) [
    | inl t ↦ absurd (ground arith)
    | inr t ↦ elim (Bool-cases (keys.cmp x.key k)) [
      | inl s ↦ rw (s, t) (subst (λ (b : Bool). (if b then some x else find keys j es) ≡ none) t n)
      | inr s ↦
          rw (s, t)
            (find-put_absent j k v es
              (subst (λ (b : Bool). (if b then some x else find keys j es) ≡ none) t n))
    ]
  ]

  pub Unique-put : (k : K) (v : List ℕ) (es : List (Entry K)) → Unique es → Unique (put keys k v es)
  unfolding put
  Unique-put k v [] u = u
  Unique-put k v (x ∷ es) (n, u) = elim (Bool-cases (keys.cmp x.key k)) [
    | inl s ↦ rw s (n, u)
    | inr s ↦ rw s (find-put_absent x.key k v es n, Unique-put k v es u)
  ]

  pub Unique-unlink : (k : K) (es : List (Entry K)) → Unique es → Unique (unlink keys k es)
  unfolding unlink
  Unique-unlink k [] u = u
  Unique-unlink k (x ∷ es) (n, u) = elim (Bool-cases (keys.cmp x.key k)) [
    | inl s ↦ rw s u
    | inr s ↦ rw s (ground (arith, find-unlink x.key k es u, n), Unique-unlink k es u)
  ]
