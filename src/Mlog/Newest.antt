-- ===== src/Mlog/Newest.antt =====
-- The messages that src/common/mlog.c finds in a well-formed log.
use qoraal.Base.{
  ℕ, zero, suc, ◌>>=◌, ◌+◌, ◌≡◌, ◌≤◌, ◌<◌, inl, inr, refl, sym, ap, ◌∙◌, Bool, true, false, Option,
  none, some, List, [], ◌∷◌, ◌==◌, if◌then◌else◌, Bool-cases, has, length, arith,
}
use qoraal.Cbuffer.{Queue, Platform, front, backwards}
use qoraal.Cbuffer.Layout.{Block}
use qoraal.Cbuffer.Ring.{addresses}
use qoraal.Cbuffer.Refine.{IsQueue}
use qoraal.Cbuffer.Traverse.{Leads, turned, length-turned, has-turned, backwards-Leads}
use qoraal.Cbuffer.Validate.{validate_item}
use qoraal.Cbuffer.Valid.{valid, valid-nonzero, length-addresses}
use qoraal.Mlog.{Mlog, Log, Message, get_cqueue}
use qoraal.Mlog.Iterate.{
  is_kind, older, mlog_get, count_from, mlog_count, seek, iterator_first, iterator_prev,
}

-- The items of a type
abbrev pub kept : (ℕ → Bool) → List ℕ → List ℕ
kept p [] = []
kept p (x ∷ xs) = if p x then x ∷ kept p xs else kept p xs

-- The element at a place
abbrev pub get_elem? : List ℕ → ℕ → Option ℕ
get_elem? [] i = none
get_elem? (x ∷ xs) zero = some x
get_elem? (x ∷ xs) (suc i) = get_elem? xs i

length-kept : (p : ℕ → Bool) (xs : List ℕ) → length (kept p xs) ≤ length xs
length-kept p [] = omega arith
length-kept p (x ∷ xs) = ground (arith, length-kept p xs)

module _ (platform : Platform) where
  -- What an iterator yields from an item on: `for (; it; it = mlog_itertor_prev(log, it, type))`
  abbrev pub gather : (fuel steps : ℕ) → Mlog → Log → (type : ℕ) → Option ℕ → Option (List ℕ)
  gather zero steps s log type it = none
  gather (suc f) steps s log type none = some []
  gather (suc f) steps s log type (some it) = do
    it' ← iterator_prev platform steps s log it type
    rest ← gather f steps s log type it'
    some (it ∷ rest)

  -- An iterator over all messages of a type
  abbrev pub gather_all : (fuel : ℕ) → Mlog → Log → (type : ℕ) → Option (List ℕ)
  gather_all fuel s log type = do
    it ← iterator_first platform fuel s log type
    gather fuel fuel s log type it

  abbrev AllValid : Queue → List ℕ → Type 0
  AllValid q xs = (x : ℕ) → has x xs ≡ true → validate_item platform q x ≡ true

  -- What a search on the way through `xs` finds: the first item that is kept, and those behind it.
  abbrev Found : Queue → (next : ℕ → Option ℕ) → (p : ℕ → Bool) → Option ℕ → List ℕ → Type 0
  Found q next p none xs = kept p xs ≡ []
  Found q next p (some x) xs =
      (ys : List ℕ) × (kept p xs ≡ x ∷ kept p ys)
      × Leads next (next x) ys
      × AllValid q ys
      × (length ys < length xs)

  Found-later :
      (q : Queue) (next : ℕ → Option ℕ) (p : ℕ → Bool) (r : Option ℕ) (x : ℕ) (xs : List ℕ)
      → p x ≡ false
      → Found q next p r xs
      → Found q next p r (x ∷ xs)
  Found-later q next p none x xs e h = rw e h
  Found-later q next p (some y) x xs e (ys, k, l, v, n) = (ys, rw e k, l, v, omega (arith, n))

  seek-Found :
      (q : Queue) (next : ℕ → Option ℕ) (messages : ℕ → Message) (type fuel : ℕ) (it : Option ℕ)
      → (xs : List ℕ) → Leads next it xs
      → AllValid q xs
      → length xs < fuel
      → (r : Option ℕ) × (seek platform fuel q next messages type it ≡ some r)
        × Found q next (is_kind messages type) r xs
  unfolding seek
  seek-Found q next messages type zero it xs l v f = absurd (omega arith)
  seek-Found q next messages type (suc k) none [] l v f = (none, refl, refl)
  seek-Found q next messages type (suc k) (some it) [] l v f = absurd (ground arith)
  seek-Found q next messages type (suc k) none (x ∷ xs) l v f = absurd (ground arith)
  seek-Found q next messages type (suc k) (some it) (x ∷ xs) l v f =
      let e : it ≡ x = ground arith in
      let w : validate_item platform q it ≡ true = rw e (v x (ground arith)) in
      elim (Bool-cases (is_kind messages type it)) [
        | inl b ↦
            let b' : is_kind messages type x ≡ true = rw (sym e) b in
            let k : kept (is_kind messages type) (x ∷ xs) ≡ it ∷ kept (is_kind messages type) xs =
              simp b' (ap (λ (a : ℕ). a ∷ kept (is_kind messages type) xs) (sym e)) in
            (some it, simp (w, b) refl, (xs, k, rw e (l.1), λ y m. v y (ground arith), omega arith))
        | inr b ↦
            let b' : is_kind messages type x ≡ false = rw (sym e) b in
            let (r, g, h) =
              seek-Found q next messages type k (next it) xs (rw e (l.1))
                (λ y m. v y (ground arith)) (omega arith) in
            (r, simp (w, b) g, Found-later q next (is_kind messages type) r x xs b' h)
      ]

  -- The counting loop
  count_from-Leads :
      (q : Queue) (messages : ℕ → Message) (type fuel : ℕ) (it : Option ℕ) (xs : List ℕ) (count : ℕ)
      → Leads (backwards q) it xs
      → AllValid q xs
      → length xs < fuel
      → count_from platform fuel q messages type it count
        ≡ some (count + length (kept (is_kind messages type) xs))
  unfolding count_from
  count_from-Leads q messages type zero it xs c l v f = absurd (omega arith)
  count_from-Leads q messages type (suc k) none [] c l v f = ap (λ (n : ℕ). some n) (omega arith)
  count_from-Leads q messages type (suc k) (some it) [] c l v f = absurd (ground arith)
  count_from-Leads q messages type (suc k) none (x ∷ xs) c l v f = absurd (ground arith)
  count_from-Leads q messages type (suc k) (some it) (x ∷ xs) c l v f =
      let e : it ≡ x = ground arith in
      let w : validate_item platform q it ≡ true = rw e (v x (ground arith)) in
      let h = λ (n : ℕ).
        count_from-Leads q messages type k (backwards q it) xs n (rw e (l.1))
          (λ y m. v y (ground arith)) (omega arith) in
      elim (Bool-cases (is_kind messages type it)) [
        | inl b ↦
            let b' : is_kind messages type x ≡ true = rw (sym e) b in
            simp (w, b, b') (h (c + 1) ∙ ap (λ (n : ℕ). some n) (omega arith))
        | inr b ↦ let b' : is_kind messages type x ≡ false = rw (sym e) b in simp (w, b, b') (h c)
      ]

  module _ (s : Mlog) (log : Log) (q : Queue) (xs : List Block)
      (present : get_cqueue s log ≡ some q) (v : IsQueue platform q xs) (pos : 0 < q.cb.start) where
    all_valid : AllValid q (turned (addresses xs) [])
    all_valid x h = valid platform q xs v pos x (ground (arith, has-turned x (addresses xs) [], h))

    short : length (turned (addresses xs) []) ≡ length xs
    short = omega (arith, length-turned (addresses xs) [], length-addresses xs)

    -- `mlog_count` gives the number of the messages of a type, in a well-formed log in a buffer that
    -- does not begin at address 0, with more steps than the log has messages.
    pub mlog_count-IsQueue :
        (fuel type : ℕ)
        → length xs < fuel
        → mlog_count platform fuel s log type
          ≡ some (length (kept (is_kind s.messages type) (turned (addresses xs) [])))
    unfolding mlog_count
    mlog_count-IsQueue fuel type f = simp present (
        count_from-Leads q s.messages type fuel (front q) (turned (addresses xs) []) 0
          (backwards-Leads platform q xs v) all_valid (omega (arith, short))
        ∙ ap (λ (n : ℕ). some n) (omega arith))

    gather-Found :
        (f steps type : ℕ) (it : Option ℕ) (ys : List ℕ)
        → Found q (backwards q) (is_kind s.messages type) it ys
        → length ys < f
        → length ys < steps
        → gather f steps s log type it ≡ some (kept (is_kind s.messages type) ys)
    unfolding iterator_prev
    gather-Found zero steps type it ys h f g = absurd (omega arith)
    gather-Found (suc k) steps type none ys h f g = ap (λ (zs : List ℕ). some zs) (sym h)
    gather-Found (suc k) steps type (some it) ys (zs, e, l, w, n) f g =
        let (r, d, h) =
          seek-Found q (backwards q) s.messages type steps (backwards q it) zs l w (omega arith) in
        let rest = gather-Found k steps type r zs h (omega arith) (omega arith) in
        simp (present, d, rest) (ap (λ (us : List ℕ). some us) (sym e))

    -- The iteration from `mlog_itertor_first` on with `mlog_itertor_prev` yields the messages of a type,
    -- newest first, each once, and ends, in a well-formed log in a buffer that does not begin at address
    -- 0, with more steps than the log has messages.
    pub gather_all-IsQueue :
        (fuel type : ℕ)
        → length xs < fuel
        → gather_all fuel s log type
          ≡ some (kept (is_kind s.messages type) (turned (addresses xs) []))
    unfolding iterator_first
    gather_all-IsQueue fuel type f =
        let (r, d, h) =
          seek-Found q (backwards q) s.messages type fuel (front q) (turned (addresses xs) [])
            (backwards-Leads platform q xs v) all_valid (omega (arith, short)) in
        simp (present, d)
          (gather-Found fuel fuel type r (turned (addresses xs) []) h (omega (arith, short))
            (omega (arith, short)))

    older-Leads :
        (k : ℕ) (it : Option ℕ) (ys : List ℕ)
        → Leads (backwards q) it ys
        → AllValid q ys
        → older q k it ≡ get_elem? ys k
    unfolding older
    older-Leads zero it [] l w = rw l refl
    older-Leads zero none (y ∷ ys) l w = absurd (ground arith)
    older-Leads zero (some it) (y ∷ ys) l w =
        let e : it ≡ y = ground arith in
        let z : (it == 0) ≡ false = rw e (valid-nonzero platform q y (w y (ground arith))) in
        rw z l.0
    older-Leads (suc k) none [] l w = refl
    older-Leads (suc k) (some it) [] l w = absurd (ground arith)
    older-Leads (suc k) none (y ∷ ys) l w = absurd (ground arith)
    older-Leads (suc k) (some it) (y ∷ ys) l w =
        let e : it ≡ y = ground arith in
        let z : (it == 0) ≡ false = rw e (valid-nonzero platform q y (w y (ground arith))) in
        simp z (older-Leads k (backwards q it) ys (rw e (l.1)) (λ x m. w x (ground arith)))

    -- `mlog_get` gives the message with so many newer ones, or none if there are not as many, in a
    -- well-formed log in a buffer that does not begin at address 0.
    pub mlog_get-IsQueue : (idx : ℕ) → mlog_get s log idx ≡ get_elem? (turned (addresses xs) []) idx
    unfolding mlog_get
    mlog_get-IsQueue idx = simp present (
        older-Leads idx (front q) (turned (addresses xs) []) (backwards-Leads platform q xs v)
          all_valid)
