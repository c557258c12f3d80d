-- ===== src/Lists/Linked/Removal.antt =====
-- The removals of the `linked_` functions against the list of the objects.
use mathlib.Core.Path.{subst}
use native.Mathlib.Decide.{ℕ_discrete}
use qoraal.Base.{
  ℕ, zero, suc, ◌≡◌, ◌≢◌, refl, ◌<◌, true, false, List, [], ◌∷◌, Option, some, arith, length, has,
  erase, last_or, not-has-erase, erase-not-has, ==_ne, ==_refl, Bool-cases, inl, inr, if◌then◌else◌,
  ◌==◌,
}
use qoraal.Lists.{Ptr, null, Heap, write, find}
use qoraal.Lists.Seg.{SameOutside, find_first, find_later, find_misses, Unlinked}
use qoraal.Lists.Linked.{Linked, remove_head, remove_next, remove}
use qoraal.Lists.Linked.Refine.{IsLinked}

-- `linked_remove_head` leaves the list of the other objects.
pub remove_head-IsLinked :
    (h : Heap) (ll : Linked) (x : Ptr) (xs : List Ptr)
    → IsLinked h ll (x ∷ xs)
    → IsLinked h (remove_head h ll) xs
unfolding remove_head
remove_head-IsLinked h ll x [] is = ground (arith, is.chain)
remove_head-IsLinked h ll x (y ∷ ys) is = ground (arith, is.chain, is.last)

-- What `linked_remove` promises: the object, if it was in the list, and the list without it; only
-- links of the list's own objects are written.
abbrev pub Removed : Heap → List Ptr → Ptr → Option (Heap × Linked × Ptr) → Type 0
Removed h xs obj r =
    (h' : Heap) × (ll' : Linked) × (r ≡ some (h', ll', if has obj xs then obj else null))
    × IsLinked h' ll' (erase obj xs)
    × SameOutside xs h h'

remove_first :
    (k : ℕ) (h : Heap) (ll : Linked) (x : Ptr) (xs : List Ptr)
    → IsLinked h ll (x ∷ xs)
    → Removed h (x ∷ xs) x (remove (suc k) h ll x)
unfolding remove
remove_first k h ll x xs is =
    let run : find (suc k) h null ll.head x ≡ some (null, x) =
      find_first k h null ll.head x is.chain.0 in
    (
      h,
      remove_head h ll,
      ground (arith, run),
      rw (==_refl x) (remove_head-IsLinked h ll x xs is),
      λ a o. refl,
    )

-- The anchor that `linked_remove_next` leaves behind `p`, whose link is to `obj`.
shrunk : Heap → Linked → Ptr → Ptr → Linked
shrunk h ll p obj = record ll { tail = if h obj == null then p else ll.tail }

remove_next_run :
    (h : Heap) (ll : Linked) (p obj : Ptr)
    → h p ≡ obj
    → obj ≢ null
    → remove_next h ll p ≡ (write h p (h obj), shrunk h ll p obj)
unfolding remove_next shrunk write
remove_next_run h ll p obj e ne = ground (arith, e)

shrunk_last :
    (h : Heap) (ll : Linked) (obj x p : Ptr) (xs : List Ptr)
    → IsLinked h ll (x ∷ xs)
    → Unlinked h x xs obj p
    → (shrunk h ll p obj).tail ≡ last_or x (erase obj xs)
unfolding shrunk
shrunk_last h ll obj x p xs is u = ground (arith, is.last, u.ends, u.keeps)

remove_later :
    (k : ℕ) (h : Heap) (ll : Linked) (obj x : Ptr) (xs : List Ptr)
    → IsLinked h ll (x ∷ xs)
    → obj ≢ null
    → x ≢ obj
    → has obj xs ≡ true
    → length xs < k
    → Removed h (x ∷ xs) obj (remove (suc k) h ll obj)
unfolding remove shrunk write
remove_later k h ll obj x xs is ne other m fuel =
    let (p, run, u) = find_later k h null ll.head obj x xs is.chain other m fuel in
    let s = is.chain in
    (
      write h p (h obj),
      shrunk h ll p obj,
      ground (arith, run, u.real, remove_next_run h ll p obj u.linked ne, m),
      rw (==_ne x obj other) (record {
        chain = (s.0, s.1, not-has-erase x obj xs s.2, u.chain);
        last = shrunk_last h ll obj x p xs is u;
      }),
      ground (arith, u.inside),
    )

remove_never :
    (k : ℕ) (h : Heap) (ll : Linked) (obj : Ptr) (xs : List Ptr)
    → IsLinked h ll xs
    → obj ≢ null
    → has obj xs ≡ false
    → length xs < k
    → Removed h xs obj (remove k h ll obj)
unfolding remove
remove_never k h ll obj xs is ne m fuel = (
  h,
  ll,
  ground (arith, find_misses k h null ll.head obj xs is.chain m ne fuel),
  rw (erase-not-has obj xs m) is,
  λ a o. refl,
)

-- `linked_remove` takes the object out of the list, wherever it stands, and returns it; if it is
-- not there it returns null and the list is the same. The tail is the last object left. It ends
-- within one round more than there are objects, and writes only links of the list's own objects.
pub remove-IsLinked :
    (k : ℕ) (h : Heap) (ll : Linked) (obj : Ptr) (xs : List Ptr)
    → IsLinked h ll xs
    → obj ≢ null
    → length xs < k
    → Removed h xs obj (remove k h ll obj)
remove-IsLinked zero h ll obj xs is ne fuel = absurd (omega arith)
remove-IsLinked (suc k) h ll obj [] is ne fuel = remove_never (suc k) h ll obj [] is ne refl fuel
remove-IsLinked (suc k) h ll obj (x ∷ xs) is ne fuel = elim (ℕ_discrete x obj) [
  | yes e ↦
      subst (λ (o : Ptr). Removed h (x ∷ xs) o (remove (suc k) h ll o)) e
        (remove_first k h ll x xs is)
  | no other ↦ elim (Bool-cases (has obj xs)) [
    | inl m ↦ remove_later k h ll obj x xs is ne other m (omega arith)
    | inr m ↦ remove_never (suc k) h ll obj (x ∷ xs) is ne (ground arith) fuel
  ]
]
