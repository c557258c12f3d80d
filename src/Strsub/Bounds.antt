-- ===== src/Strsub/Bounds.antt =====
-- The buffer of `strsub_parse_string_to` in src/common/strsub.c is all that is written.
use qoraal.Base.{
  ℕ, zero, suc, ◌+◌, ◌-◌, ◌%◌, ◌≤◌, ◌<◌, ◌≡◌, ◌⊎◌, inl, inr, refl, ◌∙◌, false, List, [], ◌∷◌, leb,
  ◌==◌, Bool-cases, length, ℤ, arith,
}
use qoraal.Tasks.{word, update}
use qoraal.Strsub.{Instance}
use qoraal.Strsub.Buffer.{take, copy, room, put, with_cb, parse_string_to}
use qoraal.Strsub.Keeps.{parse-Good}

-- Addresses outside of the buffer.
abbrev pub IsOutside : (dst len : ℕ) → ℕ → Type 0
IsOutside dst len j = (j < dst) ⊎ (dst + len ≤ j)

-- Memories that agree outside of the buffer.
abbrev pub Agrees : (dst len : ℕ) → (ℕ → ℕ) → (ℕ → ℕ) → Type 0
Agrees dst len m0 m = (j : ℕ) → IsOutside dst len j → m j ≡ m0 j

update-outside :
    (m : ℕ → ℕ) (a v dst len j : ℕ)
    → dst ≤ a
    → a < dst + len
    → IsOutside dst len j
    → update m a v j ≡ m j
update-outside m a v dst len j l h (inl o) = let e : (j == a) ≡ false = ground arith in rw e refl
update-outside m a v dst len j l h (inr o) = let e : (j == a) ≡ false = ground arith in rw e refl

pub copy-outside :
    (m : ℕ → ℕ) (a : ℕ) (cs : List ℕ) (dst len j : ℕ)
    → dst ≤ a
    → a + length cs ≤ dst + len
    → IsOutside dst len j
    → copy m a cs j ≡ m j
unfolding copy
copy-outside m a [] dst len j l h o = refl
copy-outside m a (c ∷ cs) dst len j l h o =
    copy-outside (update m a c) (a + 1) cs dst len j (omega arith) (omega arith) o
    ∙ update-outside m a c dst len j l (omega arith) o

length-take : (n : ℕ) (cs : List ℕ) → length (take n cs) ≤ n
length-take zero cs = omega arith
length-take (suc n) [] = omega arith
length-take (suc n) (c ∷ cs) = omega (arith, length-take n cs)

pub room_exact : (len : ℕ) → 0 < len → len < word → room len ≡ len - 1
room_exact len h w = omega arith

pub put-Agrees :
    (dst len : ℕ) (str : List ℕ) (offset : ℕ) (m0 m : ℕ → ℕ)
    → 0 < len
    → length str + len ≤ word
    → len < word
    → Agrees dst len m0 m
    → Agrees dst len m0 (put dst len str offset m).0
unfolding put
put-Agrees dst len str offset m0 m h w v g j o = elim (Bool-cases (leb (room len) offset)) [
  | inl e ↦ rw e (g j o)
  | inr e ↦
      let r = room_exact len h v in
      let below : offset < len - 1 = ground (arith, r) in
      elim (Bool-cases (leb (room len) ((length str + offset) % word))) [
        | inl f ↦
            rw (e, f)
              (copy-outside m (dst + offset) (take (len - offset - 1) str) dst len j (omega arith)
                  (omega (arith, length-take (len - offset - 1) str)) o
                ∙ g j o)
        | inr f ↦
            let fits : length str + offset < len - 1 = ground (arith, r) in
            rw (e, f)
              (copy-outside m (dst + offset) (take (length str) str) dst len j (omega arith)
                  (omega (arith, length-take (length str) str)) o
                ∙ g j o)
      ]
]

module _ (s : Instance)
    (lookup : (cb : List ℕ → ℕ → (ℕ → ℕ) → (ℕ → ℕ) × ℤ) (handler : ℕ) (text : List ℕ) (offset : ℕ)
      → (ℕ → ℕ)
      → (ℕ → ℕ) × ℤ) where
  -- `strsub_parse_string_to` writes to no address outside of the `dst_len` bytes at `dst`, whatever
  -- the text, if there is at least one byte, the text and the buffer together are shorter than
  -- 2 ^ 32, and the handlers write nothing outside of the buffer.
  pub parse_string_to-Agrees :
      (dst dst_len : ℕ) (text : List ℕ) (m : ℕ → ℕ)
      → 0 < dst_len
      → 1 + length text + dst_len ≤ word
      → ((h : ℕ) (t : List ℕ) (offset : ℕ) (n : ℕ → ℕ)
          → Agrees dst dst_len n (lookup (put dst dst_len) h t offset n).0)
      → Agrees dst dst_len m (parse_string_to s lookup dst dst_len text m).0
  unfolding parse_string_to
  parse_string_to-Agrees dst dst_len text m h w q =
      parse-Good s (with_cb s lookup (put dst dst_len)) (Agrees dst dst_len m) (1 + length text)
        (update m dst 0) text
        (record {
          cb =
              λ t offset n l g. put-Agrees dst dst_len t offset m n h (omega arith) (omega arith) g;
          lookup = λ k t offset n l g j o. q k t offset n j o ∙ g j o;
        })
        (omega arith) (λ j o. update-outside m dst 0 dst dst_len j (omega arith) (omega arith) o)
