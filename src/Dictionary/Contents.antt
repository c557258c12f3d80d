-- ===== src/Dictionary/Contents.antt =====
-- The dictionary of src/common/dictionary.c as a map from keys to entries.
use mathlib.Core.Path.{subst}
use qoraal.Base.{
  ℕ, ◌≡◌, ◌≤◌, inl, inr, refl, sym, ap, true, false, Option, none, some, List, ◌++◌, if◌then◌else◌,
  Bool-cases, ◌==◌, ==_eq, ltb, length, arith,
}
use qoraal.Dictionary.{
  Keys, Entry, Dictionary, find, put, lookup, set_chain, drop, memcpy, remove, remove_found, link,
  fill,
}
use qoraal.Dictionary.Chain.{
  Unique, same-cases, cmp_comm, find-unlink, find-put, Unique-put, Unique-unlink,
}

module _ {K : Type 0} (keys : Keys K) where
  -- No key stands twice in a chain.
  abbrev pub IsDictionary : Dictionary K → Type 0
  IsDictionary d = (i : ℕ) → Unique keys (d.hashtab i)

  -- The map with another entry for `k`, or none.
  abbrev pub with_entry : K → Option (Entry K) → (K → Option (Entry K)) → K → Option (Entry K)
  with_entry k o f j = if keys.cmp j k then o else f j

  -- A changed chain under `k` changes what is found under `k` alone.
  set_chain-lookup :
      (d : Dictionary K) (k : K) (es : List (Entry K)) (o : Option (Entry K))
      → ((j : K) → find keys j es ≡ with_entry k o (λ i. find keys i (d.hashtab (keys.hash k))) j)
      → (j : K)
      → lookup keys (set_chain keys d (keys.hash k) es) j ≡ with_entry k o (lookup keys d) j
  set_chain-lookup d k es o f j = elim (Bool-cases (keys.hash j == keys.hash k)) [
    | inl e ↦ rw e (
        subst (λ (h : ℕ). find keys j es ≡ (if keys.cmp j k then o else find keys j (d.hashtab h)))
          (sym (==_eq (keys.hash j) (keys.hash k) e)) (f j))
    | inr e ↦ rw e (elim (same-cases keys j k) [
      | inl (p, t) ↦ absurd (ground (arith, e, ap keys.hash p))
      | inr t ↦ rw t refl
    ])
  ]

  set_chain-IsDictionary :
      (d : Dictionary K) (k : K) (es : List (Entry K))
      → IsDictionary d
      → Unique keys es
      → IsDictionary (set_chain keys d (keys.hash k) es)
  set_chain-IsDictionary d k es v u i = elim (Bool-cases (i == keys.hash k)) [
    | inl e ↦ rw e u
    | inr e ↦ rw e (v i)
  ]

  -- An absent key may as well be taken away.
  lookup-absent :
      (d : Dictionary K) (k : K)
      → lookup keys d k ≡ none
      → (j : K) → lookup keys d j ≡ with_entry k none (lookup keys d) j
  lookup-absent d k n j = elim (same-cases keys j k) [
    | inl (p, t) ↦ rw t (subst (λ (i : K). lookup keys d i ≡ none) (sym p) n)
    | inr t ↦ rw t refl
  ]

  remove_found-lookup :
      (d : Dictionary K) (k : K) (o : Option (Entry K))
      → IsDictionary d
      → lookup keys d k ≡ o
      → IsDictionary (remove_found keys d k o).0
        × ((j : K)
            → lookup keys (remove_found keys d k o).0 j ≡ with_entry k none (lookup keys d) j)
  unfolding remove_found
  remove_found-lookup d k none v n = (v, lookup-absent d k n)
  remove_found-lookup d k (some e) v f = (
    set_chain-IsDictionary d k _ v
        (Unique-unlink keys k (d.hashtab (keys.hash k)) (v (keys.hash k))),
    set_chain-lookup d k _ none
        (λ j. find-unlink keys j k (d.hashtab (keys.hash k)) (v (keys.hash k))),
  )

  -- After `dictionary_remove` the key is not found, every other is as before, and still no key
  -- stands twice.
  pub remove-lookup :
      (d : Dictionary K) (k : K)
      → IsDictionary d
      → IsDictionary (remove keys d k).0
        × ((j : K) → lookup keys (remove keys d k).0 j ≡ with_entry k none (lookup keys d) j)
  unfolding remove
  remove-lookup d k v = remove_found-lookup d k (lookup keys d k) v refl

  pub link-lookup :
      (d : Dictionary K) (k : K) (b : List ℕ)
      → IsDictionary d
      → lookup keys d k ≡ none
      → IsDictionary (link keys d k b)
        × ((j : K)
            → lookup keys (link keys d k b) j
              ≡ with_entry k (some (record { key = k; value = b })) (lookup keys d) j)
  unfolding link find
  link-lookup d k b v n = (
    set_chain-IsDictionary d k _ v (n, v (keys.hash k)),
    set_chain-lookup d k _ (some (record { key = k; value = b }))
        (λ j. rw (cmp_comm keys k j) refl),
  )

  pub fill-lookup :
      (d : Dictionary K) (k : K) (value : List ℕ) (e : Entry K)
      → IsDictionary d
      → lookup keys d k ≡ some e
      → length value ≤ length e.value
      → (d' : Dictionary K) × (fill keys d k value (some e) ≡ some (d', true))
        × IsDictionary d'
        × ((j : K)
            → lookup keys d' j
              ≡ with_entry k
                  (some (record { key = k; value = value ++ drop (length value) e.value }))
                  (lookup keys d)
                  j)
  unfolding fill memcpy
  fill-lookup d k value e v f h =
      let b : ltb (length e.value) (length value) ≡ false = ground arith in
      let w = value ++ drop (length value) e.value in
      let es = d.hashtab (keys.hash k) in
      (
        set_chain keys d (keys.hash k) (put keys k w es),
        rw b refl,
        set_chain-IsDictionary d k _ v (Unique-put keys k w es (v (keys.hash k))),
        set_chain-lookup d k _ (some (record { key = k; value = w }))
            (λ j. find-put keys j k w es e f),
      )
