-- ===== src/Cbuffer/Walk.antt =====
-- The empty queue of `cqueue_init`, and the walk over the items of src/common/cbuffer.c.
use qoraal.Base.{
  ℕ, zero, suc, ◌>>=◌, ◌+◌, ◌^◌, ◌≡◌, ◌<◌, inl, refl, false, Option, none, some, List, [], ◌∷◌, has,
  length, arith,
}
use qoraal.Cbuffer.{Queue, Platform, cbuffer_magic, queue_init, back, forwards}
use qoraal.Cbuffer.Layout.{Block}
use qoraal.Cbuffer.Release.{Outside}
use qoraal.Cbuffer.Ring.{addresses, Chain}
use qoraal.Cbuffer.Refine.{IsQueue}

-- `for (i = cqueue_back(cq); i; i = cqueue_forwards(cq, i))`, by the items that it visits
abbrev pub visit : ℕ → Queue → Option ℕ → Option (List ℕ)
visit zero q i = none
visit (suc f) q none = some []
visit (suc f) q (some i) = do rest ← visit f q (forwards q i); some (i ∷ rest)

back-forwards : (q : Queue) → (q.items q.self).magic ≡ cbuffer_magic → back q ≡ forwards q q.self
unfolding back forwards
back-forwards q m = ground arith

module _ (platform : Platform) where
  -- `cqueue_init` makes an empty queue of any words that a uint16_t counts, beside the queue itself.
  pub queue_init-IsQueue :
      (q : Queue) (buffer dwsize : ℕ)
      → dwsize < 2 ^ 16
      → Outside platform (record q.cb { start = buffer; end = buffer + dwsize }) q.self
      → IsQueue platform (queue_init platform q buffer dwsize) []
  unfolding queue_init
  queue_init-IsQueue q buffer dwsize h o = record {
    marked = ground arith;
    ring = ground arith;
    headers = tt;
    distinct = (refl, tt);
    laid = inl (omega arith, omega arith, refl, refl);
    outside = o;
    size = omega (arith, h);
    counted = refl;
  }

  visit_from :
      (q : Queue) (p : ℕ) (xs : List Block) (f : ℕ)
      → Chain q.items p xs q.self
      → has q.self (addresses xs) ≡ false
      → length xs < f
      → visit f q (forwards q p) ≡ some (addresses xs)
  unfolding forwards
  visit_from q p [] zero c n h = absurd (omega arith)
  visit_from q p [] (suc f) c n h = ground arith
  visit_from q p (x ∷ xs) zero c n h = absurd (omega arith)
  visit_from q p (x ∷ xs) (suc f) c n h =
      let e : forwards q p ≡ some x.0 = ground arith in
      rw (e, visit_from q x.0 xs f c.2 (ground arith) (omega arith)) refl

  -- The walk from `cqueue_back` with `cqueue_forwards` visits the items in the order in which they were
  -- put in, each once, and ends.
  pub visit-IsQueue :
      (q : Queue) (xs : List Block) (f : ℕ)
      → IsQueue platform q xs
      → length xs < f
      → visit f q (back q) ≡ some (addresses xs)
  visit-IsQueue q xs f v h =
      let e : back q ≡ forwards q q.self = back-forwards q v.marked in
      rw e (visit_from q q.self xs f v.ring v.distinct.0 h)
