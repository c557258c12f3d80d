-- ===== src/Dictionary/Clear.antt =====
-- `dictionary_remove_all` of src/common/dictionary.c. The callback leaves the dictionary as it is; its
-- calls are noted. `dictionary_destroy` is the same without a callback, and frees the dictionary.
use qoraal.Base.{
  ℕ, zero, suc, ◌+◌, ◌-◌, ◌%◌, ◌≡◌, ◌<◌, ◌≤◌, refl, sym, ap, ◌∙◌, inl, inr, Bool, true, false, List,
  [], ◌∷◌, ◌++◌, ◌==◌, ==_eq, if◌then◌else◌, Bool-cases, length, length-append, arith,
}
use mathlib.Core.List.{append_assoc, append-nil}
use qoraal.Tasks.{word, update}
use qoraal.Dictionary.{Entry, Dictionary}
use qoraal.Dictionary.Visit.{entries}

module _ {K : Type 0} where
  -- The first entry of a chain is freed; `es` are the others.
  unfoldable pub drop_first : Dictionary K → (i : ℕ) → (es : List (Entry K)) → Dictionary K
  drop_first d i es = record d {
    hashtab = update d.hashtab i es;
    count = (d.count + word - 1) % word;
  }

  -- The inner loop of `dictionary_remove_all`, for the entries of the chain at `i`
  unfoldable pub clear_chain :
      (cb : Bool) (i : ℕ)
      → List (Entry K)
      → Dictionary K
      → (calls : List (Entry K)) → Dictionary K × List (Entry K)
  clear_chain cb i [] d calls = (d, calls)
  clear_chain cb i (e ∷ es) d calls =
      clear_chain cb i es (drop_first d i es) (if cb then calls ++ (e ∷ []) else calls)

  -- The outer loop of `dictionary_remove_all`, for `n` chains from the one at `i` on
  unfoldable pub clear :
      (cb : Bool) (n i : ℕ)
      → Dictionary K
      → (calls : List (Entry K)) → Dictionary K × List (Entry K)
  clear cb zero i d calls = (d, calls)
  clear cb (suc n) i d calls =
      let (d', calls') = clear_chain cb i (d.hashtab i) d calls in clear cb n (i + 1) d' calls'

  -- `dictionary_remove_all`, and the entries that the callback was called for
  unfoldable pub remove_all :
      (cb : Bool) (hashsize : ℕ) → Dictionary K → Dictionary K × List (Entry K)
  remove_all cb hashsize d = clear cb hashsize 0 d []

  -- What the inner loop does: the chain at `i` is empty, the others are as before, `c` more entries are
  -- counted, and the callback was called for the entries in order.
  abbrev Clears :
      (i c : ℕ)
      → Dictionary K
      → List (Entry K)
      → (calls : List (Entry K)) → Dictionary K × List (Entry K)
      → Type 0
  Clears i c d es calls (d', calls') =
      (d'.hashtab i ≡ [])
      × ((j : ℕ) → (j == i) ≡ false → d'.hashtab j ≡ d.hashtab j)
      × (d'.count ≡ c)
      × (calls' ≡ calls ++ es)

  clear_chain-Clears :
      (i c : ℕ) (es : List (Entry K)) (d : Dictionary K) (calls : List (Entry K))
      → d.hashtab i ≡ es
      → d.count ≡ length es + c
      → d.count < word
      → Clears i c d es calls (clear_chain true i es d calls)
  unfolding clear_chain drop_first
  clear_chain-Clears i c [] d calls h n w =
      (h, λ j e. refl, omega (arith, n), sym (append-nil calls))
  clear_chain-Clears i c (e ∷ es) d calls h n w =
      let (a, b, k, l) =
        clear_chain-Clears i c es (drop_first d i es) (calls ++ (e ∷ [])) (ground arith)
          (omega (arith, n, w)) (omega arith) in
      (a, λ j f. b j f ∙ ground (arith, f), k, l ∙ append_assoc calls (e ∷ []) es)

  entries-agree :
      (h h' : ℕ → List (Entry K)) (size n i : ℕ)
      → ((j : ℕ) → i ≤ j → h' j ≡ h j)
      → entries h' size n i ≡ entries h size n i
  entries-agree h h' size zero i e = refl
  entries-agree h h' size (suc n) i e =
      rw (e i (omega arith), entries-agree h h' size n (i + 1) (λ j l. e j (omega arith))) refl

  clear_chain-below :
      (i : ℕ) (es : List (Entry K)) (d : Dictionary K) (calls : List (Entry K)) (j : ℕ)
      → (j == i) ≡ false
      → (clear_chain true i es d calls).0.hashtab j ≡ d.hashtab j
  unfolding clear_chain drop_first
  clear_chain-below i [] d calls j e = refl
  clear_chain-below i (x ∷ es) d calls j e =
      clear_chain-below i es (drop_first d i es) (calls ++ (x ∷ [])) j e ∙ ground (arith, e)

  clear-below :
      (n i : ℕ) (d : Dictionary K) (calls : List (Entry K)) (j : ℕ)
      → j < i
      → (clear true n i d calls).0.hashtab j ≡ d.hashtab j
  unfolding clear
  clear-below zero i d calls j l = refl
  clear-below (suc n) i d calls j l =
      let r = clear_chain true i (d.hashtab i) d calls in
      clear-below n (i + 1) r.0 r.1 j (omega arith)
      ∙ clear_chain-below i (d.hashtab i) d calls j (ground arith)

  clear_chain-emptied :
      (i : ℕ) (es : List (Entry K)) (d : Dictionary K) (calls : List (Entry K))
      → d.hashtab i ≡ es
      → (clear_chain true i es d calls).0.hashtab i ≡ []
  unfolding clear_chain drop_first
  clear_chain-emptied i [] d calls h = h
  clear_chain-emptied i (x ∷ es) d calls h =
      clear_chain-emptied i es (drop_first d i es) (calls ++ (x ∷ [])) (ground arith)

  clear-Counts :
      (size n i : ℕ) (d : Dictionary K) (calls : List (Entry K))
      → d.count ≡ length (entries d.hashtab size n i)
      → d.count < word
      → ((clear true n i d calls).0.count ≡ 0)
        × ((clear true n i d calls).1 ≡ calls ++ entries d.hashtab size n i)
  unfolding clear
  clear-Counts size zero i d calls h w = (h, sym (append-nil calls))
  clear-Counts size (suc n) i d calls h w =
      let r = clear_chain true i (d.hashtab i) d calls in
      let later = entries d.hashtab size n (i + 1) in
      let (a, b, k, l) =
        clear_chain-Clears i (length later) (d.hashtab i) d calls refl
          (h ∙ length-append (d.hashtab i) later) w in
      let same : entries r.0.hashtab size n (i + 1) ≡ later =
        entries-agree d.hashtab r.0.hashtab size n (i + 1) (λ j m. b j (ground arith)) in
      let fewer : length later < word = omega (arith, h, w, length-append (d.hashtab i) later) in
      let (p, q) =
        clear-Counts size n (i + 1) r.0 r.1 (k ∙ ap (λ (z : List (Entry K)). length z) (sym same))
          (omega (arith, k, fewer)) in
      (
        p,
        q
            ∙ ap (λ (z : List (Entry K)). r.1 ++ z) same
            ∙ ap (λ (z : List (Entry K)). z ++ later) l
            ∙ append_assoc calls (d.hashtab i) later,
      )

  clear-empty :
      (n i : ℕ) (d : Dictionary K) (calls : List (Entry K)) (j : ℕ)
      → i ≤ j
      → j < i + n
      → (clear true n i d calls).0.hashtab j ≡ []
  unfolding clear
  clear-empty zero i d calls j l h = absurd (omega arith)
  clear-empty (suc n) i d calls j l h =
      let r = clear_chain true i (d.hashtab i) d calls in
      elim (Bool-cases (j == i)) [
        | inr e ↦ clear-empty n (i + 1) r.0 r.1 j (ground arith) (omega arith)
        | inl e ↦ rw (==_eq j i e) (
            clear-below n (i + 1) r.0 r.1 i (omega arith)
            ∙ clear_chain-emptied i (d.hashtab i) d calls refl)
      ]

  -- `dictionary_remove_all` leaves every chain empty and the count at 0, and calls the callback once
  -- for each of the entries, chain by chain. This holds of a dictionary whose count, below 2 ^ 32, is
  -- the number of its entries, with a callback that leaves the dictionary as it is.
  pub remove_all-Empties :
      (hashsize : ℕ) (d : Dictionary K) (j : ℕ)
      → d.count ≡ length (entries d.hashtab hashsize hashsize 0)
      → d.count < word
      → j < hashsize
      → ((remove_all true hashsize d).0.hashtab j ≡ [])
        × ((remove_all true hashsize d).0.count ≡ 0)
        × ((remove_all true hashsize d).1 ≡ entries d.hashtab hashsize hashsize 0)
  unfolding remove_all
  remove_all-Empties hashsize d j h w l =
      let (p, q) = clear-Counts hashsize hashsize 0 d [] h w in
      (clear-empty hashsize 0 d [] j (omega arith) (omega arith), p, q)
