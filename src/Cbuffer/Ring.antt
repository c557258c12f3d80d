-- ===== src/Cbuffer/Ring.antt =====
-- The ring of items, linked both ways through the queue.
use qoraal.Base.{
  ℕ, ◌≡◌, ◌∙◌, true, false, List, [], ◌∷◌, ◌++◌, ◌==◌, if◌then◌else◌, has, Distinct, arith,
}
use qoraal.Cbuffer.{Item}
use qoraal.Cbuffer.Layout.{Block, All}

abbrev pub addresses : List Block → List ℕ
addresses [] = []
addresses (x ∷ xs) = x.0 ∷ addresses xs

-- From `p` the links lead through the items to `q`, and those back lead the other way.
abbrev pub Chain : (ℕ → Item) → ℕ → List Block → ℕ → Type 0
Chain m p [] q = ((m p).next ≡ q) × ((m q).prev ≡ p)
Chain m p (x ∷ xs) q = ((m p).next ≡ x.0) × ((m x.0).prev ≡ p) × Chain m x.0 xs q

-- The link back from the end is to one of the items, or to the beginning.
pub has-prev :
    (m : ℕ → Item) (p : ℕ) (xs : List Block) (q : ℕ)
    → Chain m p xs q
    → has (m q).prev (p ∷ addresses xs) ≡ true
has-prev m p [] q c = ground arith
has-prev m p (x ∷ xs) q c = ground (arith, has-prev m x.0 xs q c.2)

-- The links depend only on those of the items and of the two ends.
pub Chain-agree :
    (m m' : ℕ → Item) (p : ℕ) (xs : List Block) (q : ℕ)
    → Chain m p xs q
    → (m' p).next ≡ (m p).next
    → All (λ x. ((m' x.0).next ≡ (m x.0).next) × ((m' x.0).prev ≡ (m x.0).prev)) xs
    → (m' q).prev ≡ (m q).prev
    → Chain m' p xs q
Chain-agree m m' p [] q c n a l = (n ∙ c.0, l ∙ c.1)
Chain-agree m m' p (x ∷ xs) q c n a l =
    (n ∙ c.0, a.0.1 ∙ c.1, Chain-agree m m' x.0 xs q c.2 a.0.0 a.1 l)

-- An item linked in behind the last.
pub Chain-append :
    (m m' : ℕ → Item) (item n : ℕ) (p : ℕ) (xs : List Block) (q : ℕ)
    → Chain m p xs q
    → Distinct (p ∷ addresses xs)
    → (m' p).next ≡ (if p == (m q).prev then item else (m p).next)
    → All
        (λ x.
          ((m' x.0).next ≡ (if x.0 == (m q).prev then item else (m x.0).next))
          × ((m' x.0).prev ≡ (m x.0).prev))
        xs
    → (m' item).next ≡ q
    → (m' item).prev ≡ (m q).prev
    → (m' q).prev ≡ item
    → Chain m' p (xs ++ ((item, n) ∷ [])) q
Chain-append m m' item n p [] q c d e a f g l = ground arith
Chain-append m m' item n p (x ∷ xs) q c d e a f g l = (
  ground (arith, has-prev m x.0 xs q c.2, d.0),
  a.0.1 ∙ c.1,
  Chain-append m m' item n x.0 xs q c.2 d.1 a.0.0 a.1 f g l,
)

-- The first item linked out.
pub Chain-tail :
    (m m' : ℕ → Item) (p : ℕ) (xs : List Block) (q : ℕ)
    → Chain m p xs q
    → (m' q).next ≡ (m p).next
    → (m' q).prev ≡ (if q == (m p).next then q else (m q).prev)
    → has q (addresses xs) ≡ false
    → Distinct (addresses xs)
    → All
        (λ x.
          ((m' x.0).next ≡ (m x.0).next)
          × ((m' x.0).prev ≡ (if x.0 == (m p).next then q else (m x.0).prev)))
        xs
    → Chain m' q xs q
Chain-tail m m' p [] q c n l o d a = ground arith
Chain-tail m m' p (x ∷ xs) q c n l o d a =
    (n ∙ c.0, ground arith, Chain-agree m m' x.0 xs q c.2 a.0.0 (later xs d.0 a.1) (ground arith))
  where
    later :
        (ys : List Block)
        → has x.0 (addresses ys) ≡ false
        → All
            (λ y.
              ((m' y.0).next ≡ (m y.0).next)
              × ((m' y.0).prev ≡ (if y.0 == (m p).next then q else (m y.0).prev)))
            ys
        → All (λ y. ((m' y.0).next ≡ (m y.0).next) × ((m' y.0).prev ≡ (m y.0).prev)) ys
    later [] h b = tt
    later (y ∷ ys) h b = ((b.0.0, ground (arith, c.0, b.0.1)), later ys (ground arith) b.1)
