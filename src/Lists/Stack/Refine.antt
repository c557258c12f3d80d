-- ===== src/Lists/Stack/Refine.antt =====
-- The `stack_` functions against the list of the objects that a stack holds, first one first.
use qoraal.Base.{
  ℕ, zero, suc, ◌≡◌, ◌∙◌, sym, has-last_or, ==_refl, ==_ne, not-has-erase, erase-not-has, Option,
  ◌≢◌, refl, ◌<◌, true, false, inl, inr, List, [], ◌∷◌, ◌++◌, some, arith, Bool-cases,
  if◌then◌else◌, length, has, erase, last_or,
}
use mathlib.Core.Path.{subst}
use native.Mathlib.Decide.{ℕ_discrete}
use qoraal.Lists.{Ptr, null, Heap, write, find}
use qoraal.Lists.Seg.{
  Seg, SameOutside, Seg-last, Seg-last_ne, write_here, Seg-write, find_misses, find_first,
  find_later, walk-last_or, Seg-append,
}
use qoraal.Lists.Stack.{Stack, add_head, add_tail, remove}

abbrev pub IsStack : Heap → Stack → List Ptr → Type 0
IsStack h ll xs = Seg h ll.head xs

-- Both branches of `stack_add_head` link the object in front of the old head.
add_head_run :
    (h : Heap) (ll : Stack) (obj : Ptr)
    → add_head h ll obj ≡ (write h obj ll.head, record { head = obj })
unfolding add_head
add_head_run h ll obj = ground arith

-- `stack_add_head` puts a new object first and writes nothing but its link.
pub add_head-IsStack :
    (h : Heap) (ll : Stack) (obj : Ptr) (xs : List Ptr)
    → IsStack h ll xs
    → obj ≢ null
    → has obj xs ≡ false
    → let (h', ll') = add_head h ll obj in IsStack h' ll' (obj ∷ xs) × SameOutside (obj ∷ []) h h'
unfolding write
add_head-IsStack h ll obj xs s ne out =
    subst (λ (r : Heap × Stack). IsStack r.0 r.1 (obj ∷ xs) × SameOutside (obj ∷ []) h r.0)
      (sym (add_head_run h ll obj))
      (
        (refl, ne, out, rw (write_here h obj ll.head) (Seg-write h ll.head xs obj ll.head s out)),
        ground arith,
      )

-- What `stack_remove` promises: the object, if it was in the stack, and the stack without it; only
-- links of the stack's own objects are written.
abbrev pub Removed : Heap → List Ptr → Ptr → Option (Heap × Stack × Ptr) → Type 0
Removed h xs obj r =
    (h' : Heap) × (ll' : Stack) × (r ≡ some (h', ll', if has obj xs then obj else null))
    × IsStack h' ll' (erase obj xs)
    × SameOutside xs h h'

remove_first :
    (k : ℕ) (h : Heap) (ll : Stack) (x : Ptr) (xs : List Ptr)
    → IsStack h ll (x ∷ xs)
    → Removed h (x ∷ xs) x (remove (suc k) h ll x)
unfolding remove
remove_first k h ll x xs s =
    let run : find (suc k) h null ll.head x ≡ some (null, x) = find_first k h null ll.head x s.0 in
    (h, record { head = h x }, ground (arith, run, s.0, s.1), rw (==_refl x) s.3, λ a o. refl)

remove_later :
    (k : ℕ) (h : Heap) (ll : Stack) (obj x : Ptr) (xs : List Ptr)
    → IsStack h ll (x ∷ xs)
    → obj ≢ null
    → x ≢ obj
    → has obj xs ≡ true
    → length xs < k
    → Removed h (x ∷ xs) obj (remove (suc k) h ll obj)
unfolding remove write
remove_later k h ll obj x xs s ne other m fuel =
    let (p, run, u) = find_later k h null ll.head obj x xs s other m fuel in
    (
      write h p (h obj),
      ll,
      ground (arith, run, u.real, u.linked, m),
      rw (==_ne x obj other) (s.0, s.1, not-has-erase x obj xs s.2, u.chain),
      ground (arith, u.inside),
    )

remove_never :
    (k : ℕ) (h : Heap) (ll : Stack) (obj : Ptr) (xs : List Ptr)
    → IsStack h ll xs
    → obj ≢ null
    → has obj xs ≡ false
    → length xs < k
    → Removed h xs obj (remove k h ll obj)
unfolding remove
remove_never k h ll obj xs s ne m fuel = (
  h,
  ll,
  ground (arith, find_misses k h null ll.head obj xs s m ne fuel),
  rw (erase-not-has obj xs m) s,
  λ a o. refl,
)

-- `stack_remove` takes the object out of the stack, wherever it stands, and returns it; if it is
-- not there it returns null and the stack is the same. It ends within one round more than there
-- are objects, and writes only links of the stack's own objects.
pub remove-IsStack :
    (k : ℕ) (h : Heap) (ll : Stack) (obj : Ptr) (xs : List Ptr)
    → IsStack h ll xs
    → obj ≢ null
    → length xs < k
    → Removed h xs obj (remove k h ll obj)
remove-IsStack zero h ll obj xs s ne fuel = absurd (omega arith)
remove-IsStack (suc k) h ll obj [] s ne fuel = remove_never (suc k) h ll obj [] s ne refl fuel
remove-IsStack (suc k) h ll obj (x ∷ xs) s ne fuel = elim (ℕ_discrete x obj) [
  | yes e ↦
      subst (λ (o : Ptr). Removed h (x ∷ xs) o (remove (suc k) h ll o)) e
        (remove_first k h ll x xs s)
  | no other ↦ elim (Bool-cases (has obj xs)) [
    | inl m ↦ remove_later k h ll obj x xs s ne other m (omega arith)
    | inr m ↦ remove_never (suc k) h ll obj (x ∷ xs) s ne (ground arith) fuel
  ]
]

-- `stack_add_tail` puts a new object last; it ends within one round more than there are objects,
-- and writes only the links of the stack's own objects and of the new one.
pub add_tail-IsStack :
    (k : ℕ) (h : Heap) (ll : Stack) (add : Ptr) (xs : List Ptr)
    → IsStack h ll xs
    → add ≢ null
    → has add xs ≡ false
    → length xs < k
    → (h' : Heap) × (ll' : Stack) × (add_tail k h ll add ≡ some (h', ll'))
      × IsStack h' ll' (xs ++ (add ∷ []))
      × SameOutside (add ∷ xs) h h'
unfolding add_tail write
add_tail-IsStack k h ll add [] s ne out fuel = (
  write h add ll.head,
  record { head = add },
  ground (arith, walk-last_or k h null ll.head [] s fuel, add_head_run h ll add),
  (refl, ne, refl, write_here h add ll.head ∙ s),
  ground arith,
)
add_tail-IsStack k h ll add (x ∷ xs) s ne out fuel =
    let last : Ptr = last_or x xs in
    let g : Heap = write h add (h last) in
    let clean : g add ≡ null = write_here h add (h last) ∙ Seg-last h ll.head x xs s in
    let last_ne : last ≢ null = Seg-last_ne h ll.head x xs s in
    (
      write g last add,
      ll,
      ground (arith, walk-last_or k h null ll.head (x ∷ xs) s fuel),
      Seg-append g ll.head add x xs (Seg-write h ll.head (x ∷ xs) add (h last) s out) ne out clean,
      λ a o. ground (arith, has-last_or x xs),
    )
