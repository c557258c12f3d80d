-- ===== src/Dictionary/Replace.antt =====
-- `dictionary_replace` of src/common/dictionary.c.
use qoraal.Base.{
  ℕ, ◌⊎◌, ◌≡◌, ◌≤◌, ◌<◌, inl, inr, refl, ◌∙◌, true, Option, none, some, List, ◌++◌, Bool-cases, ltb,
  length, arith,
}
use qoraal.Dictionary.{
  Keys, Entry, Dictionary, lookup, drop, memcpy, link, install, install_size, fill, replace,
  add_absent, lookup_or_add,
}
use qoraal.Dictionary.Contents.{IsDictionary, with_entry, link-lookup, fill-lookup}

module _ {K : Type 0} (keys : Keys K) (d : Dictionary K) (k : K) (value : List ℕ) where
  -- The dictionary has the value under the key, with what is left of the block behind it, and
  -- everything else as in `d`.
  abbrev pub Has : Dictionary K → Type 0
  Has d' =
      (rest : List ℕ) × ((j : K)
        → lookup keys d' j
          ≡ with_entry keys k (some (record { key = k; value = value ++ rest })) (lookup keys d) j)

  -- The bytes of the entry, and of the block that an allocation gives, are enough for the value.
  abbrev pub Fits : Option (Entry K) → Type 0
  Fits none = Unit {0}
  Fits (some e) = length value ≤ length e.value

  replace_found :
      (b : List ℕ) (o : Option (Entry K))
      → IsDictionary keys d
      → length b ≡ length value
      → lookup keys d k ≡ o
      → Fits o
      → let r = install keys (some b) d k o in
        (d' : Dictionary K) × (fill keys r.0 k value r.1 ≡ some (d', true))
        × IsDictionary keys d'
        × Has d'
  unfolding install
  replace_found b (some e) v l f h =
      let (d', run, v', q) = fill-lookup keys d k value e v f h in
      (d', run, v', (drop (length value) e.value, q))
  replace_found b none v l n h =
      let e : Entry K = record { key = k; value = b } in
      let (v1, q1) = link-lookup keys d k b v n in
      let found : lookup keys (link keys d k b) k ≡ some e = q1 k ∙ rw (keys.cmp_refl k) refl in
      let (d', run, v', q) =
        fill-lookup keys (link keys d k b) k value e v1 found (omega (arith, l)) in
      (
        d',
        run,
        v',
        (
          drop (length value) b,
          λ j. q j ∙ elim (Bool-cases (keys.cmp j k)) [
            | inl t ↦ rw t refl
            | inr t ↦ rw t (q1 j ∙ rw t refl)
          ],
        ),
      )

  -- While the key is new or its entry has room for the value, and the allocation, where one is
  -- needed, gives as many bytes as the value has, `dictionary_replace` succeeds: then the key has the
  -- value, every other key is as before, and still no key stands twice. The kind of key is one whose
  -- value lies behind the key in an entry: strings and arrays of words, and short numbers on a
  -- platform with pointers of 32 bits only.
  pub replace-lookup :
      (b : List ℕ)
      → IsDictionary keys d
      → length b ≡ length value
      → Fits (lookup keys d k)
      → (d' : Dictionary K) × (replace keys (some b) d k value ≡ some (d', true))
        × IsDictionary keys d'
        × Has d'
  unfolding replace install_size
  replace-lookup b v l h = replace_found b (lookup keys d k) v l refl h

  install-Overruns :
      (block : Option (List ℕ)) (o : Option (Entry K)) (e : Entry K)
      → o ≡ some e
      → length e.value < length value
      → let r = install keys block d k o in fill keys r.0 k value r.1 ≡ none
  unfolding install fill memcpy
  install-Overruns block none e n h = absurd (ground arith)
  install-Overruns block (some x) e p h =
      let b : ltb (length x.value) (length value) ≡ true = ground (arith, p, h) in rw b refl

  -- A value that is longer than the block of the key's entry is written past the end of that block,
  -- whatever the allocation would give.
  pub replace-Overruns :
      (block : Option (List ℕ)) (e : Entry K)
      → lookup keys d k ≡ some e
      → length e.value < length value
      → replace keys block d k value ≡ none
  unfolding replace install_size
  replace-Overruns block e f h = install-Overruns block (lookup keys d k) e f h

  add_absent-lookup :
      (b : List ℕ) (o : Option (Entry K))
      → IsDictionary keys d
      → length b ≡ length value
      → lookup keys d k ≡ o
      → let r = add_absent keys (some b) d k value o in
        ((e : Entry K) × (lookup keys d k ≡ some e) × (r ≡ some (d, true)))
        ⊎ ((lookup keys d k ≡ none)
            × (d' : Dictionary K) × (r ≡ some (d', true))
            × IsDictionary keys d'
            × Has d')
  unfolding add_absent
  add_absent-lookup b (some e) v l f = inl (e, f, refl)
  add_absent-lookup b none v l n =
      let (d', run, v', q) = replace_found b none v l n tt in inr (n, d', run, v', q)

  -- With an allocation of as many bytes as the value has, `dictionary_lookup` changes nothing if the
  -- key is there; if it is not, it succeeds, and then the key has the value, every other key is as
  -- before, and still no key stands twice.
  pub lookup_or_add-lookup :
      (b : List ℕ)
      → IsDictionary keys d
      → length b ≡ length value
      → ((e : Entry K) × (lookup keys d k ≡ some e)
          × (lookup_or_add keys (some b) d k value ≡ some (d, true)))
        ⊎ ((lookup keys d k ≡ none)
            × (d' : Dictionary K) × (lookup_or_add keys (some b) d k value ≡ some (d', true))
            × IsDictionary keys d'
            × Has d')
  unfolding lookup_or_add
  lookup_or_add-lookup b v l = add_absent-lookup b (lookup keys d k) v l refl
