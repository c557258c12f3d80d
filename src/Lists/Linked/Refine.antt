-- ===== src/Lists/Linked/Refine.antt =====
-- The insertions of the `linked_` functions against the list of the objects, first one first.
use mathlib.Core.Path.{subst}
use qoraal.Base.{
  ℕ, ◌≡◌, ◌≢◌, sym, refl, true, false, List, [], ◌∷◌, ◌++◌, some, arith, ◌==◌, has, has-last_or,
  last_or, last_or-append, insert_after, Bool-cases, inl, inr, if◌then◌else◌,
}
use qoraal.Lists.{Ptr, null, Heap, write}
use qoraal.Lists.Seg.{
  Seg, write_same, last_or-insert_after, SameOutside, write_here, Seg-write, Seg-append, Seg-insert,
  Seg-last, Seg-last_ne,
}
use qoraal.Lists.Linked.{Linked, add_head, add_tail, add_next}

-- The anchor of `xs`: the chain from the head, and its last object.
pub record IsLinked (h : Heap) (ll : Linked) (xs : List Ptr) : Type 0 where
  pub chain : Seg h ll.head xs
  pub last : ll.tail ≡ last_or null xs

-- The anchor that `linked_add_head` leaves.
headed : Linked → Ptr → Linked
headed ll add =
    if ll.head == null then record { head = add; tail = add } else record ll { head = add }

add_head_run :
    (h : Heap) (ll : Linked) (add : Ptr) → add_head h ll add ≡ (write h add ll.head, headed ll add)
unfolding add_head headed
add_head_run h ll add = ground arith

headed_last :
    (h : Heap) (ll : Linked) (add : Ptr) (xs : List Ptr)
    → IsLinked h ll xs
    → (headed ll add).tail ≡ last_or add xs
unfolding headed
headed_last h ll add [] is = ground (arith, is.chain)
headed_last h ll add (x ∷ xs) is = ground (arith, is.chain, is.last)

-- `linked_add_head` puts a new object first and writes nothing but its link.
pub add_head-IsLinked :
    (h : Heap) (ll : Linked) (add : Ptr) (xs : List Ptr)
    → IsLinked h ll xs
    → add ≢ null
    → has add xs ≡ false
    → let (h', ll') = add_head h ll add in IsLinked h' ll' (add ∷ xs) × SameOutside (add ∷ []) h h'
unfolding headed write
add_head-IsLinked h ll add xs is ne out =
    subst (λ (r : Heap × Linked). IsLinked r.0 r.1 (add ∷ xs) × SameOutside (add ∷ []) h r.0)
      (sym (add_head_run h ll add))
      (
        record {
          chain = (
            ground arith,
            ne,
            out,
            rw (write_here h add ll.head) (Seg-write h ll.head xs add ll.head is.chain out),
          );
          last = headed_last h ll add xs is;
        },
        ground arith,
      )

-- `linked_add_tail` puts a new object last.
pub add_tail-IsLinked :
    (k : ℕ) (h : Heap) (ll : Linked) (add : Ptr) (xs : List Ptr)
    → IsLinked h ll xs
    → add ≢ null
    → has add xs ≡ false
    → (h' : Heap) × (ll' : Linked) × (add_tail k h ll add ≡ some (h', ll'))
      × IsLinked h' ll' (xs ++ (add ∷ []))
      × SameOutside (add ∷ xs) h h'
unfolding add_tail write
add_tail-IsLinked k h ll add [] is ne out = (
  write h add null,
  record { head = add; tail = add },
  ground (arith, is.chain),
  record { chain = (refl, ne, refl, write_here h add null); last = refl },
  ground arith,
)
add_tail-IsLinked k h ll add (x ∷ xs) is ne out =
    let g : Heap = write h add null in
    (
      write g (last_or x xs) add,
      record ll { tail = add },
      ground (arith, is.chain, Seg-last_ne h ll.head x xs is.chain),
      record {
        chain =
            Seg-append g ll.head add x xs (Seg-write h ll.head (x ∷ xs) add null is.chain out) ne
              out (write_here h add null);
        last = sym (last_or-append x add xs);
      },
      λ a o. ground (arith, has-last_or x xs),
    )

-- The anchor that `linked_add_next` leaves.
grown : Linked → Ptr → Ptr → Linked
grown ll obj add = record ll { tail = if obj == ll.tail then add else ll.tail }

-- Behind the last object the extra write of `linked_add_next` changes nothing.
add_next_run :
    (h : Heap) (ll : Linked) (obj add : Ptr)
    → (obj ≡ ll.tail → h obj ≡ null)
    → add ≢ obj
    → add_next h ll obj add ≡ (write (write h add (h obj)) obj add, grown ll obj add)
unfolding add_next grown write
add_next_run h ll obj add clean ne = elim (Bool-cases (obj == ll.tail)) [
  | inl e ↦
      let g : Heap = write (write h add (h obj)) obj add in
      let w : g add ≡ null = ground (arith, clean) in
      let same : write g add null ≡ g = write_same g add null w in rw (e, same)
  | inr e ↦ rw e
]

module _ (h : Heap) (ll : Linked) (obj add x : Ptr) (xs : List Ptr) (is : IsLinked h ll (x ∷ xs))
    (m : has obj (x ∷ xs) ≡ true) (ne : add ≢ null) (out : has add (x ∷ xs) ≡ false) where
  clean : obj ≡ ll.tail → h obj ≡ null
  clean e = rw (e, is.last) (Seg-last h ll.head x xs is.chain)

  other : add ≢ obj
  other e = cc (m, out, e)

  grown_last : (grown ll obj add).tail ≡ last_or null (insert_after obj add (x ∷ xs))
  unfolding grown
  grown_last = ground (arith, is.last, last_or-insert_after h null ll.head obj add x xs is.chain m)

  -- `linked_add_next` puts a new object behind a member, and writes only the links of the list's
  -- own objects and of the new one.
  pub add_next-IsLinked :
      let (h', ll') = add_next h ll obj add in
      IsLinked h' ll' (insert_after obj add (x ∷ xs)) × SameOutside (add ∷ x ∷ xs) h h'
  unfolding write grown
  add_next-IsLinked =
      subst
        (λ (r : Heap × Linked).
          IsLinked r.0 r.1 (insert_after obj add (x ∷ xs)) × SameOutside (add ∷ x ∷ xs) h r.0)
        (sym (add_next_run h ll obj add clean other))
        (
          record {
            chain = Seg-insert h ll.head obj add (x ∷ xs) is.chain m ne out;
            last = grown_last;
          },
          ground arith,
        )
