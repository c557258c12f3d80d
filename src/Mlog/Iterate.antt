-- ===== src/Mlog/Iterate.antt =====
-- The messages of a log of src/common/mlog.c, by their index and by the iterators. The loops take
-- fuel; none is a loop that has not ended. An iterator is the address of an item, none as a null
-- pointer.
use qoraal.Base.{
  ℕ, zero, suc, ◌>>=◌, ◌+◌, Bool, true, false, ◌||◌, not, Option, none, some, ◌==◌, if◌then◌else◌,
  ℤ, negsuc,
}
use qoraal.Services.{eok}
use qoraal.Services.Control.{meets}
use qoraal.Cbuffer.{Queue, Platform, front, back, forwards, backwards}
use qoraal.Cbuffer.Validate.{validate_item}
use qoraal.Mlog.{Mlog, Log, Message, get_cqueue}

-- `E_BOF`
abbrev pub e_bof : ℤ
e_bof = negsuc 2317

-- `!type || (msg->type & type)`
unfoldable pub is_kind : (ℕ → Message) → (type item : ℕ) → Bool
is_kind messages type item = (type == 0) || meets 16 ((messages item).kind) type

-- `if (queue) …`, and what there is without a queue
abbrev on_queue {ℓ} : {A : Type ℓ} → Option Queue → A → (Queue → A) → A
on_queue none a f = a
on_queue (some q) a f = f q

-- The loop of `mlog_get`, and the test behind it
unfoldable pub older : Queue → (idx : ℕ) → Option ℕ → Option ℕ
older q zero none = none
older q zero (some it) = if it == 0 then none else some it
older q (suc k) none = none
older q (suc k) (some it) = let rest = older q k (backwards q it) in if it == 0 then none else rest

-- `mlog_get`, by the item of the message
unfoldable pub mlog_get : Mlog → Log → (idx : ℕ) → Option ℕ
mlog_get s log idx = do q ← get_cqueue s log; older q idx (front q)

-- `mlog_total`
unfoldable pub mlog_total : Mlog → Log → ℕ
mlog_total s log = on_queue (get_cqueue s log) 0 (λ q. q.count)

module _ (platform : Platform) where
  -- The loop of `mlog_count`
  unfoldable pub count_from :
      (fuel : ℕ) → Queue → (ℕ → Message) → (type : ℕ) → Option ℕ → (count : ℕ) → Option ℕ
  count_from zero q messages type it count = none
  count_from (suc f) q messages type none count = some count
  count_from (suc f) q messages type (some it) count =
      let more = if is_kind messages type it then count + 1 else count in
      let rest = count_from f q messages type (backwards q it) more in
      if not (validate_item platform q it) then some count else rest

  -- `mlog_count`
  unfoldable pub mlog_count : (fuel : ℕ) → Mlog → Log → (type : ℕ) → Option ℕ
  mlog_count fuel s log type =
      on_queue (get_cqueue s log) (some 0) (λ q. count_from fuel q s.messages type (front q) 0)

  -- The loop of the iterators: from `it` on, the first item of the type
  unfoldable pub seek :
      (fuel : ℕ)
      → Queue
      → (next : ℕ → Option ℕ) → (ℕ → Message)
      → (type : ℕ) → Option ℕ
      → Option (Option ℕ)
  seek zero q next messages type it = none
  seek (suc f) q next messages type none = some none
  seek (suc f) q next messages type (some it) =
      let rest = seek f q next messages type (next it) in
      if not (validate_item platform q it)
      then some none
      else if is_kind messages type it
      then some (some it)
      else rest

  -- `mlog_itertor_first`
  unfoldable pub iterator_first : (fuel : ℕ) → Mlog → Log → (type : ℕ) → Option (Option ℕ)
  iterator_first fuel s log type =
      on_queue (get_cqueue s log) (some none)
        (λ q. seek fuel q (backwards q) s.messages type (front q))

  -- `mlog_itertor_last`
  unfoldable pub iterator_last : (fuel : ℕ) → Mlog → Log → (type : ℕ) → Option (Option ℕ)
  iterator_last fuel s log type =
      on_queue (get_cqueue s log) (some none)
        (λ q. seek fuel q (forwards q) s.messages type (back q))

  -- `mlog_itertor_prev`
  unfoldable pub iterator_prev : (fuel : ℕ) → Mlog → Log → (it type : ℕ) → Option (Option ℕ)
  iterator_prev fuel s log it type =
      on_queue (get_cqueue s log) (some none)
        (λ q. seek fuel q (backwards q) s.messages type (backwards q it))

  -- `mlog_itertor_next`
  unfoldable pub iterator_next : (fuel : ℕ) → Mlog → Log → (it type : ℕ) → Option (Option ℕ)
  iterator_next fuel s log it type =
      on_queue (get_cqueue s log) (some none)
        (λ q. seek fuel q (forwards q) s.messages type (forwards q it))

  -- `mlog_itertor_get`, and whether it returns with the mutex, which is with a message only
  unfoldable pub iterator_get : Mlog → Log → (it : Option ℕ) → Option ℕ × Bool
  iterator_get s log none = (none, false)
  iterator_get s log (some it) =
      on_queue (get_cqueue s log) (none, false)
        (λ q. if validate_item platform q it then (some it, true) else (none, false))

  -- `_it_prev`: the iterator behind it, and the result
  unfoldable pub it_prev : (fuel : ℕ) → Mlog → Log → (it : ℕ) → Option (Option ℕ × ℤ)
  it_prev fuel s log it = do
    r ← iterator_prev fuel s log it 0
    some (r, elim r [ none ↦ e_bof | some i ↦ eok ])

  -- `mlog_platform_it_create`, where `allocated` says whether the heap has room: the item at which the
  -- iterator stands
  unfoldable pub it_create : (fuel : ℕ) → Mlog → Log → (allocated : Bool) → Option (Option ℕ)
  it_create fuel s log allocated =
      if not s.started || not allocated then some none else iterator_first fuel s log 0
