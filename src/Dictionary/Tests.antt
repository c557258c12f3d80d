-- ===== src/Dictionary/Tests.antt =====
-- A dictionary with two keys in one chain, and the theorems about it there.
use qoraal.Base.{
  ℕ, ◌≡◌, ℤ, pos, negsuc, ltb, false, refl, true, none, some, List, [], ◌∷◌, ◌==◌, if◌then◌else◌,
  Bool-cases, inl, inr, arith,
}
use qoraal.Dictionary.{Keys, Entry, Dictionary, lookup, find, remove, replace}
use qoraal.Dictionary.Kinds.{binary_key, str_key, binary_hash_from, str_hash_from}
use qoraal.Dictionary.Iterate.{
  Position, first_of, search, landed, behind, next, start, heads, compare, positive, negative,
  equal, least, it_first, next_equal, same_place, better, next_greater, settle, sorted_next,
  it_next, visit,
}
use qoraal.Dictionary.Visit.{visit-entries}
use qoraal.Dictionary.Clear.{remove_all, remove_all-Empties}
use qoraal.Dictionary.Contents.{IsDictionary, with_entry, remove-lookup}
use qoraal.Dictionary.Replace.{Has, replace-lookup}

abbrev keys : Keys (List ℕ)
keys = binary_key 1 4

abbrev entry : ℕ → Entry (List ℕ)
entry n = record { key = n ∷ []; value = 1 ∷ 2 ∷ [] }

-- The keys 5 and 9 share the chain 1.
abbrev two : Dictionary (List ℕ)
two = record { count = 2; hashtab = λ i. if i == 1 then entry 5 ∷ entry 9 ∷ [] else [] }

two-IsDictionary : IsDictionary keys two
unfolding find
two-IsDictionary i = elim (Bool-cases (i == 1)) [
  | inl e ↦ rw e (refl, (refl, tt))
  | inr e ↦ rw e tt
]

-- The hash of "ab" in 16 chains
hash : (str_key 8 (λ c. c) 16).hash (97 ∷ 98 ∷ []) ≡ 8
unfolding str_hash_from
hash = refl

remove-lookup_example :
    IsDictionary keys (remove keys two (5 ∷ [])).0
    × ((j : List ℕ)
        → lookup keys (remove keys two (5 ∷ [])).0 j
          ≡ with_entry keys (5 ∷ []) none (lookup keys two) j)
remove-lookup_example = remove-lookup keys two (5 ∷ []) two-IsDictionary

replace-lookup_example :
    (d' : Dictionary (List ℕ)) × (replace keys (some (0 ∷ [])) two (9 ∷ []) (7 ∷ [])
      ≡ some (d', true))
    × IsDictionary keys d'
    × Has keys two (9 ∷ []) (7 ∷ []) d'
unfolding find binary_hash_from
replace-lookup_example =
    replace-lookup keys two (9 ∷ []) (7 ∷ []) (0 ∷ []) two-IsDictionary refl (omega arith)

abbrev heads_diff : List ℕ → List ℕ → ℤ
heads_diff [] ys = pos 0
heads_diff (x ∷ xs) [] = pos 0
heads_diff (x ∷ xs) (y ∷ ys) = if ltb x y then negsuc 0 else if ltb y x then pos 1 else pos 0

-- Sorted by their keys, 5 comes first, then 9, then the end.
abbrev by_key : Entry (List ℕ) → Entry (List ℕ) → ℤ
by_key a b = heads_diff a.key b.key

sorted :
    (it_first two.hashtab 4 3 (some by_key) ≡ some (record { np = two.hashtab 1; after = 2 }))
    × (it_next two.hashtab 4 4 (some by_key) true (record { np = two.hashtab 1; after = 2 })
        ≡ some (record { np = entry 9 ∷ []; after = 2 }))
    × (it_next two.hashtab 4 4 (some by_key) false (record { np = entry 9 ∷ []; after = 2 })
        ≡ some start)
unfolding it_first it_next next behind search first_of landed least compare heads positive negative
    equal next_equal next_greater sorted_next settle better same_place
sorted = (refl, refl, refl)

visit-entries_example :
    (p : Position (List ℕ)) × (it_first two.hashtab 4 0 none ≡ some p)
    × (visit two.hashtab 4 3 p.np p ≡ some (entry 5 ∷ entry 9 ∷ []))
visit-entries_example = visit-entries two.hashtab 4 3 (omega arith)

remove_all-Empties_example :
    ((remove_all true 4 two).0.hashtab 1 ≡ [])
    × ((remove_all true 4 two).0.count ≡ 0)
    × ((remove_all true 4 two).1 ≡ entry 5 ∷ entry 9 ∷ [])
remove_all-Empties_example = remove_all-Empties 4 two 1 refl (omega arith) (omega arith)
