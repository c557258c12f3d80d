-- ===== src/Dictionary.antt =====
-- src/common/dictionary.c: the hash table. A chain of `struct dlist` is the list of its entries. The
-- kind of key (`struct dictionary_keyval`) is the interface `Keys`, and what DICTIONARY_MALLOC
-- answers is an argument of the operations that call it.
pub mod Chain
pub mod Contents
pub mod Replace
pub mod Kinds
pub mod Iterate
pub mod Visit
pub mod Clear
mod Tests
use qoraal.Base.{
  ◌>>=◌, ℕ, zero, suc, ◌+◌, ◌-◌, ◌%◌, ◌^◌, ◌≡◌, ◌≤◌, Bool, true, false, Option, none, some, List,
  [], ◌∷◌, ◌++◌, ltb, if◌then◌else◌, length,
}
use qoraal.Tasks.{word, update}

-- `struct dictionary_keyval`: `hash`; `cmp`, which answers whether two keys are the same; and of the
-- layout of an entry the bytes of `keyval` that the key takes, and the offset that `value` returns.
-- The value lies behind the key, so that what is written to the one leaves the other.
pub record Keys (K : Type 0) : Type 0 where
  pub hash : K → ℕ
  pub cmp : K → K → Bool
  pub cmp_refl : (a : K) → cmp a a ≡ true
  pub cmp_eq : (a b : K) → cmp a b ≡ true → a ≡ b
  pub key_size : ℕ
  pub value_at : ℕ
  pub apart : key_size ≤ value_at

-- `struct dlist`: the key, and the bytes that the block has for the value
pub record Entry (K : Type 0) : Type 0 where
  pub key : K
  pub value : List ℕ

-- `struct dictionary`
pub record Dictionary (K : Type 0) : Type 0 where
  pub count : ℕ
  pub hashtab : ℕ → List (Entry K)

-- The bytes behind the first `n`.
abbrev pub drop : ℕ → List ℕ → List ℕ
drop zero xs = xs
drop (suc n) [] = []
drop (suc n) (x ∷ xs) = drop n xs

-- `memcpy (p, value, valuesize)` into the bytes of an entry; nothing results where these are too few.
unfoldable pub memcpy : List ℕ → List ℕ → Option (List ℕ)
memcpy old value =
    if ltb (length old) (length value) then none else some (value ++ drop (length value) old)

module _ {K : Type 0} (keys : Keys K) where
  -- The loop of `dict_lookup` along a chain.
  unfoldable pub find : K → List (Entry K) → Option (Entry K)
  find k [] = none
  find k (e ∷ es) = if keys.cmp e.key k then some e else find k es

  -- The chain without the entry that the loop of `dict_remove` stops at.
  unfoldable pub unlink : K → List (Entry K) → List (Entry K)
  unlink k [] = []
  unlink k (e ∷ es) = if keys.cmp e.key k then es else e ∷ unlink k es

  -- The chain with other bytes in the entry of a key.
  unfoldable pub put : K → List ℕ → List (Entry K) → List (Entry K)
  put k v [] = []
  put k v (e ∷ es) = if keys.cmp e.key k then record e { value = v } ∷ es else e ∷ put k v es

  -- `dict_lookup`, and `dictionary_get`
  abbrev pub lookup : Dictionary K → K → Option (Entry K)
  lookup d k = find k (d.hashtab (keys.hash k))

  abbrev pub set_chain : Dictionary K → ℕ → List (Entry K) → Dictionary K
  set_chain d i es = record d { hashtab = update d.hashtab i es }

  -- What `dict_remove` and `dictionary_remove` do once the loop has ended.
  unfoldable pub remove_found : Dictionary K → K → Option (Entry K) → Dictionary K × ℕ
  remove_found d k none = (d, 0)
  remove_found d k (some e) = (
    record (set_chain d (keys.hash k) (unlink k (d.hashtab (keys.hash k)))) {
      count = (d.count + word - 1) % word;
    },
    1,
  )

  -- `dictionary_remove`, with `dict_remove`
  unfoldable pub remove : Dictionary K → K → Dictionary K × ℕ
  unfolding remove_found
  remove d k = remove_found d k (lookup d k)

  -- A new entry in front of its chain.
  unfoldable pub link : Dictionary K → K → List ℕ → Dictionary K
  link d k block =
      record (set_chain d (keys.hash k)
        (record { key = k; value = block } ∷ d.hashtab (keys.hash k))) {
          count = (d.count + 1) % word;
        }

  -- `dictionary_install_size`, once the key is looked up; `block` is what the allocation gives.
  unfoldable pub install :
      Option (List ℕ) → Dictionary K → K → Option (Entry K) → Dictionary K × Option (Entry K)
  unfolding link
  install block d k (some e) = (d, some e)
  install none d k none = (d, none)
  install (some b) d k none = (link d k b, some (record { key = k; value = b }))

  -- `dictionary_install_size`
  unfoldable pub install_size : Option (List ℕ) → Dictionary K → K → Dictionary K × Option (Entry K)
  unfolding install
  install_size block d k = install block d k (lookup d k)

  -- The bytes of the value in the entry of `k` are overwritten; they lie apart from its key.
  unfoldable pub fill :
      Dictionary K → K → (value : List ℕ) → Option (Entry K) → Option (Dictionary K × Bool)
  fill d k value none = some (d, false)
  fill d k value (some e) = do
    v ← memcpy e.value value
    some (set_chain d (keys.hash k) (put k v (d.hashtab (keys.hash k))), true)

  -- `dictionary_replace`, and whether it returns an entry
  unfoldable pub replace :
      Option (List ℕ) → Dictionary K → K → (value : List ℕ) → Option (Dictionary K × Bool)
  unfolding install_size fill
  replace block d k value = let (d', np) = install_size block d k in fill d' k value np

  -- `dictionary_lookup`, once the key is looked up
  unfoldable pub add_absent :
      Option (List ℕ)
      → Dictionary K
      → K
      → (value : List ℕ) → Option (Entry K)
      → Option (Dictionary K × Bool)
  unfolding install fill
  add_absent block d k value (some e) = some (d, true)
  add_absent block d k value none = let (d', np) = install block d k none in fill d' k value np

  -- `dictionary_lookup`: only a new entry gets the value.
  unfoldable pub lookup_or_add :
      Option (List ℕ) → Dictionary K → K → (value : List ℕ) → Option (Dictionary K × Bool)
  unfolding add_absent
  lookup_or_add block d k value = add_absent block d k value (lookup d k)
