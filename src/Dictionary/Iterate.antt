-- ===== src/Dictionary/Iterate.antt =====
-- The iterators of src/common/dictionary.c over the chains of a dictionary. An iterator stands at the
-- rest of a chain, which begins with its entry, or at none; `after` is its index and one. The field
-- `prev`, which serves the removal of an entry by an iterator, is left out, as is that removal. The
-- loops take fuel; none is a loop that has not ended.
use qoraal.Base.{
  ℕ, zero, suc, ◌>>=◌, ◌+◌, ◌-◌, Bool, true, false, ◌&&◌, ◌||◌, not, Option, none, some, List, [],
  ◌∷◌, ◌==◌, if◌then◌else◌, length, ℤ, pos, ◌==ℤ◌, ◌<ℤ?◌,
}
use qoraal.Dictionary.{Keys, Entry, Dictionary}

-- `struct dictionary_it`
pub record Position (K : Type 0) : Type 0 where
  pub np : List (Entry K)
  pub after : ℕ

-- The result of a comparison is positive, negative or zero.
unfoldable pub positive : Option ℤ → Bool
positive none = false
positive (some z) = pos 0 <ℤ? z

unfoldable pub negative : Option ℤ → Bool
negative none = false
negative (some z) = z <ℤ? pos 0

unfoldable pub equal : Option ℤ → Bool
equal none = false
equal (some z) = z ==ℤ pos 0

module _ {K : Type 0} where
  -- A chain in the loop of `_it_next`
  unfoldable pub first_of : ℕ → List (Entry K) → Option (Position K) → Option (Position K)
  first_of i [] rest = rest
  first_of i (e ∷ es) rest = some (record { np = e ∷ es; after = i + 1 })

  -- The loop of `_it_next`: the first entry of `n` chains, from the one at `i` on
  unfoldable pub search : (ℕ → List (Entry K)) → (n i : ℕ) → Option (Position K)
  search hashtab zero i = none
  search hashtab (suc n) i = first_of i (hashtab i) (search hashtab n (i + 1))

  unfoldable pub landed : Position K → Option (Position K) → Position K
  landed p none = record p { np = [] }
  landed p (some q) = q

  -- Behind the entries `es` of the iterator's chain
  unfoldable pub behind :
      (ℕ → List (Entry K)) → (hashsize : ℕ) → Position K → List (Entry K) → Position K
  behind hashtab hashsize p (e ∷ e' ∷ es) = record p { np = e' ∷ es }
  behind hashtab hashsize p es = landed p (search hashtab (hashsize - p.after) p.after)

  -- `_it_next`
  unfoldable pub next : (ℕ → List (Entry K)) → (hashsize : ℕ) → Position K → Position K
  next hashtab hashsize p = behind hashtab hashsize p p.np

  -- An iterator in front of the first chain
  abbrev pub start : Position K
  start = record { np = []; after = 0 }

  unfoldable pub heads : (Entry K → Entry K → ℤ) → List (Entry K) → List (Entry K) → Option ℤ
  heads cmp [] ys = none
  heads cmp (x ∷ xs) [] = none
  heads cmp (x ∷ xs) (y ∷ ys) = some (cmp x y)

  -- `it->cmp(dict, it->parm, first, second)`
  unfoldable pub compare : (Entry K → Entry K → ℤ) → Position K → Position K → Option ℤ
  compare cmp p q = heads cmp p.np q.np

  module _ (hashtab : ℕ → List (Entry K)) (hashsize : ℕ) where
    -- The loop of `dictionary_it_first`: the iterator `p` goes on, `best` is the least entry so far.
    unfoldable pub least :
        (fuel : ℕ) → (Entry K → Entry K → ℤ) → (p best : Position K) → Option (Position K)
    least zero cmp p best = none
    least (suc f) cmp p best =
        let q = next hashtab hashsize p in
        let rest = least f cmp q (if positive (compare cmp best q) then q else best) in
        if length q.np == 0 then some best else rest

    -- `dictionary_it_first` with or without a comparison
    unfoldable pub it_first : (fuel : ℕ) → Option (Entry K → Entry K → ℤ) → Option (Position K)
    it_first fuel none = some (next hashtab hashsize start)
    it_first fuel (some cmp) =
        let p = next hashtab hashsize start in
        if length p.np == 0 then some p else least fuel cmp p p

    -- The first loop of `dictionary_it_next`: the next entry that is equal to that of `it`
    unfoldable pub next_equal :
        (fuel : ℕ) → (Entry K → Entry K → ℤ) → (it p : Position K) → Option (Option (Position K))
    next_equal zero cmp it p = none
    next_equal (suc f) cmp it p =
        let q = next hashtab hashsize p in
        let rest = next_equal f cmp it q in
        if length q.np == 0
        then some none
        else if equal (compare cmp it q)
        then some (some q)
        else rest

    -- `it->np == np`
    unfoldable pub same_place : Position K → Position K → Bool
    same_place p q = (p.after == q.after) && (length p.np == length q.np)

    -- The choice of the second loop of `dictionary_it_next`
    unfoldable pub better :
        (Entry K → Entry K → ℤ) → Option (Position K) → Position K → Option (Position K)
    better cmp none q = some q
    better cmp (some b) q = if positive (compare cmp b q) then some q else some b

    -- The second loop of `dictionary_it_next`: the least of the entries greater than that of `it`
    unfoldable pub next_greater :
        (fuel : ℕ)
        → (Entry K → Entry K → ℤ)
        → (it p : Position K) → Option (Position K)
        → Option (Option (Position K))
    next_greater zero cmp it p best = none
    next_greater (suc f) cmp it p best =
        let q = next hashtab hashsize p in
        let passed = same_place it q || not (negative (compare cmp it q)) in
        let rest = next_greater f cmp it q (if passed then best else better cmp best q) in
        if length q.np == 0 then some best else rest

    -- The end of `dictionary_it_next`, where no next entry leaves the index at -1.
    unfoldable pub settle : Option (Position K) → Position K
    settle none = start
    settle (some q) = q

    unfoldable pub sorted_next :
        (fuel : ℕ)
        → (Entry K → Entry K → ℤ)
        → (it : Position K) → Option (Position K)
        → Option (Position K)
    sorted_next fuel cmp it (some q) = some q
    sorted_next fuel cmp it none = do b ← next_greater fuel cmp it start none; some (settle b)

    -- `dictionary_it_next`
    unfoldable pub it_next :
        (fuel : ℕ)
        → Option (Entry K → Entry K → ℤ)
        → (unique : Bool) → Position K
        → Option (Position K)
    it_next fuel none unique it = some (next hashtab hashsize it)
    it_next fuel (some cmp) true it = sorted_next fuel cmp it none
    it_next fuel (some cmp) false it = do q ← next_equal fuel cmp it it; sorted_next fuel cmp it q

    -- The entries from an iterator on: `for (; it.np; dictionary_it_next(dict, &it))`, without a
    -- comparison
    abbrev pub visit : (fuel : ℕ) → List (Entry K) → Position K → Option (List (Entry K))
    visit zero es p = none
    visit (suc f) [] p = some []
    visit (suc f) (e ∷ es) p = do q ← it_next 0 none false p; rest ← visit f q.np q; some (e ∷ rest)

module _ {K : Type 0} (keys : Keys K) where
  -- The loop of `dictionary_it_at`
  unfoldable pub from_key : K → List (Entry K) → List (Entry K)
  from_key k [] = []
  from_key k (e ∷ es) = if keys.cmp e.key k then e ∷ es else from_key k es

  -- `dictionary_it_at`
  unfoldable pub it_at : Dictionary K → K → Position K
  it_at d k =
      let es = from_key k (d.hashtab (keys.hash k)) in
      record { np = es; after = if length es == 0 then 0 else keys.hash k + 1 }

-- `dictionary_hashtab_cnt`
unfoldable pub hashtab_cnt : {K : Type 0} → Dictionary K → (idx : ℕ) → ℕ
hashtab_cnt d idx = length (d.hashtab idx)
