-- ===== src/Dictionary/Kinds.antt =====
-- The kinds of keys of src/common/dictionary.c: strings, arrays of words and, on a platform with
-- pointers of 32 bits, short numbers. With pointers of 64 bits the value of a short key lies in the
-- second half of its key, and short keys are no `Keys`. A string is the list of its characters
-- without the zero; `widen` is the value of a character in unsigned arithmetic, which depends on
-- whether the compiler's char is signed.
use qoraal.Base.{
  ℕ, ◌+◌, ◌*◌, ◌/◌, ◌%◌, ◌^◌, ◌≡◌, Option, none, some, if◌then◌else◌, refl, Bool, true, false, ◌&&◌,
  List, [], ◌∷◌, ◌==◌, ==_eq, ==_refl, arith,
}
use qoraal.Tasks.{word}
use qoraal.Dictionary.{Keys, Dictionary}

-- The loop of `dictionary_binary_key_cmp`, and `strcmp`
abbrev pub same : List ℕ → List ℕ → Bool
same [] [] = true
same [] (y ∷ ys) = false
same (x ∷ xs) [] = false
same (x ∷ xs) (y ∷ ys) = (x == y) && same xs ys

pub same_refl : (a : List ℕ) → same a a ≡ true
same_refl [] = refl
same_refl (x ∷ xs) = ground (arith, same_refl xs)

pub same_eq : (a b : List ℕ) → same a b ≡ true → a ≡ b
same_eq [] [] e = refl
same_eq [] (y ∷ ys) e = absurd (ground arith)
same_eq (x ∷ xs) [] e = absurd (ground arith)
same_eq (x ∷ xs) (y ∷ ys) e = rw (==_eq x y (ground arith), same_eq xs ys (ground arith)) refl

-- The loop of `dictionary_str_key_hash`
unfoldable pub str_hash_from : (widen : ℕ → ℕ) → ℕ → List ℕ → ℕ
str_hash_from widen h [] = h
str_hash_from widen h (c ∷ cs) = str_hash_from widen ((h * 32 + h + widen c) % word) cs

-- `str_key`, with `dictionary_str_key_hash`, `dictionary_str_key_cmp` and `dictionary_str_value`; the
-- entry has a pointer of so many bytes to the key.
abbrev pub str_key : (pointer : ℕ) → (widen : ℕ → ℕ) → (hashsize : ℕ) → Keys (List ℕ)
str_key pointer widen hashsize = record {
  hash = λ k. str_hash_from widen 5381 k % hashsize;
  cmp = same;
  cmp_refl = same_refl;
  cmp_eq = same_eq;
  key_size = pointer;
  value_at = pointer;
  apart = omega arith;
}

-- The loop of `dictionary_binary_key_hash`
unfoldable pub binary_hash_from : ℕ → List ℕ → ℕ
binary_hash_from h [] = h
binary_hash_from h (w ∷ ws) = binary_hash_from ((h + w) % word) ws

-- `binary_key`, with `dictionary_binary_key_hash`, `dictionary_binary_key_cmp` and `dictionary_value`, for
-- keys of so many words
abbrev pub binary_key : (words : ℕ) → (hashsize : ℕ) → Keys (List ℕ)
binary_key words hashsize = record {
  hash = λ k. binary_hash_from 0 k % hashsize;
  cmp = same;
  cmp_refl = same_refl;
  cmp_eq = same_eq;
  key_size = words * 4;
  value_at = words * 4;
  apart = omega arith;
}

-- `ushort_key`, with `dictionary_ushort_key_hash`, `dictionary_ushort_key_cmp` and
-- `dictionary_ushort_value`, where a `uintptr_t` has 4 bytes
abbrev pub ushort_key : (hashsize : ℕ) → Keys ℕ
ushort_key hashsize = record {
  hash = λ k. k % hashsize;
  cmp = λ a b. a == b;
  cmp_refl = ==_refl;
  cmp_eq = ==_eq;
  key_size = 4;
  value_at = 4;
  apart = omega arith;
}

-- The kinds of keys that `dictionary_init` distinguishes
pub data Kind : Type 0 where
  binary : Kind
  ushort : Kind
  const_string : Kind
  string : Kind

-- The choice of `dictionary_init`
unfoldable pub kind_of : (keyspec : ℕ) → Kind
kind_of keyspec =
    if keyspec / 2 ^ 16 == 4
    then binary
    else if keyspec == 3 * 2 ^ 16
    then ushort
    else if keyspec == 2 ^ 16
    then const_string
    else string

-- The dictionary of `dictionary_init`, if the heap has room for it
unfoldable pub dictionary_init : {K : Type 0} → (allocated : Bool) → Option (Dictionary K)
dictionary_init allocated =
    if allocated then some (record { count = 0; hashtab = λ i. [] }) else none

-- `dictionary_get_key_size`, where `strlen` is the length that the C library finds at the key
unfoldable pub get_key_size : (keyspec strlen : ℕ) → ℕ
get_key_size keyspec strlen =
    if keyspec % 2 ^ 16 == 0 then strlen + 1 else if keyspec == 3 then 2 else keyspec % 2 ^ 16 * 4
