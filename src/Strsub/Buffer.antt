-- ===== src/Strsub/Buffer.antt =====
-- The replacement of words of src/common/strsub.c into a buffer: `strsub_cb` and what stands on it.
use qoraal.Base.{
  ℕ, zero, suc, ◌+◌, ◌-◌, ◌%◌, List, [], ◌∷◌, leb, ◌==◌, if◌then◌else◌, length, ℤ, pos, negsuc,
}
use qoraal.Tasks.{word, update}
use qoraal.Strsub.{Instance, Callbacks, parse}

-- The first `n` characters.
abbrev pub take : ℕ → List ℕ → List ℕ
take zero cs = []
take (suc n) [] = []
take (suc n) (c ∷ cs) = c ∷ take n cs

-- `memcpy` to a place in the memory
unfoldable pub copy : (ℕ → ℕ) → ℕ → List ℕ → ℕ → ℕ
copy m a [] = m
copy m a (c ∷ cs) = copy (update m a c) (a + 1) cs

-- How many characters `strsub_cb` takes, where there is room
abbrev pub room : (len : ℕ) → ℕ
room len = (len + word - 1) % word

-- `strsub_cb` with a buffer of `len` bytes at `dst`; the sink is the memory.
unfoldable pub put : (dst len : ℕ) → List ℕ → (offset : ℕ) → (ℕ → ℕ) → (ℕ → ℕ) × ℤ
put dst len str offset m =
    let n =
      if leb (room len) ((length str + offset) % word) then len - offset - 1 else length str in
    if leb (room len) offset then (m, negsuc 0) else (copy m (dst + offset) (take n str), pos n)

-- `strsub_cb` without a buffer
unfoldable pub count : (len : ℕ) → List ℕ → (offset : ℕ) → (ℕ → ℕ) → (ℕ → ℕ) × ℤ
count len str offset m =
    let n =
      if leb (room len) ((length str + offset) % word) then len - offset - 1 else length str in
    if leb (room len) offset then (m, negsuc 0) else (m, pos n)

-- `EFAIL` cannot be met in `strsub_parse_get_dst_length`: an offset is not negative below 2 ^ 31.
abbrev pub e_notfound : ℤ
e_notfound = negsuc 2307

module _ (s : Instance)
    (lookup : (cb : List ℕ → ℕ → (ℕ → ℕ) → (ℕ → ℕ) × ℤ) (handler : ℕ) (text : List ℕ) (offset : ℕ)
      → (ℕ → ℕ)
      → (ℕ → ℕ) × ℤ) where
  -- The callbacks of a parse with this replacement callback
  abbrev pub with_cb : (List ℕ → ℕ → (ℕ → ℕ) → (ℕ → ℕ) × ℤ) → Callbacks (ℕ → ℕ)
  with_cb cb = record { cb = cb; lookup = lookup cb }

  -- `strsub_parse_string_to`, for a text that is there
  unfoldable pub parse_string_to : (dst dst_len : ℕ) → List ℕ → (ℕ → ℕ) → (ℕ → ℕ) × ℕ
  parse_string_to dst dst_len text m =
      let r = parse s (with_cb (put dst dst_len)) (update m dst 0) text in (r.0, r.1)

  -- `strsub_parse_get_dst_length`, for a text that is there
  unfoldable pub parse_get_dst_length : List ℕ → (ℕ → ℕ) → (ℕ → ℕ) × ℤ
  parse_get_dst_length text m =
      let r = parse s (with_cb (count (word - 1))) m text in
      (r.0, if r.2 == 0 then e_notfound else pos (r.1 + 1))
