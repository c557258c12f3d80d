-- ===== src/Strsub/Tests.antt =====
-- An instance with the tokens of the default one, a handler for words in brackets, and the theorems
-- about them there.
use qoraal.Base.{
  ℕ, ◌≡◌, true, [], ◌∷◌, List, ◌==◌, ==_eq, if◌then◌else◌, inl, inr, refl, Bool-cases, has, ℤ,
  arith,
}
use qoraal.Strsub.{
  Instance, open_token, emit, replace, plain_or_open, in_dull, in_token, step, parse_from, parse,
}
use qoraal.Strsub.Buffer.{copy, put, parse_string_to}
use qoraal.Strsub.Bounds.{Agrees, put-Agrees, parse_string_to-Agrees}
use qoraal.Strsub.Plain.{IsPlain, read}

-- The pairs [], %% and <>.
abbrev strsub_instance : Instance
strsub_instance = record {
  escape = 92;
  tokens = λ i. if i == 0 then (91, 93) else if i == 1 then (37, 37) else (60, 62);
  handlers = λ i. if i == 0 then 3 ∷ [] else [];
}

-- Each word becomes XY.
abbrev lookup :
    (List ℕ → ℕ → (ℕ → ℕ) → (ℕ → ℕ) × ℤ)
    → (handler : ℕ) → List ℕ
    → (offset : ℕ) → (ℕ → ℕ)
    → (ℕ → ℕ) × ℤ
lookup cb h text offset m = cb (88 ∷ 89 ∷ []) offset m

abbrev blank : ℕ → ℕ
blank j = 255

-- a[b]c into ten bytes, and into four
replaced :
    read (parse_string_to strsub_instance lookup 0 10 (97 ∷ 91 ∷ 98 ∷ 93 ∷ 99 ∷ []) blank).0 0 5
    ≡ 97 ∷ 88 ∷ 89 ∷ 99 ∷ 0 ∷ []
unfolding parse_string_to parse parse_from step in_dull in_token plain_or_open open_token replace
    emit put copy
replaced = refl

cut :
    read (parse_string_to strsub_instance lookup 0 4 (97 ∷ 91 ∷ 98 ∷ 93 ∷ 99 ∷ []) blank).0 0 5
    ≡ 97 ∷ 88 ∷ 89 ∷ 255 ∷ 255 ∷ []
unfolding parse_string_to parse parse_from step in_dull in_token plain_or_open open_token replace
    emit put copy
cut = refl

parse_string_to-Agrees_example :
    Agrees 1000 3 blank
      (parse_string_to strsub_instance lookup 1000 3 (97 ∷ 91 ∷ 98 ∷ 93 ∷ 99 ∷ []) blank).0
parse_string_to-Agrees_example =
    parse_string_to-Agrees strsub_instance lookup 1000 3 (97 ∷ 91 ∷ 98 ∷ 93 ∷ 99 ∷ []) blank
      (omega arith) (omega arith)
      (λ h t offset n.
        put-Agrees 1000 3 (88 ∷ 89 ∷ []) offset n n (omega arith) (omega arith) (omega arith)
          (λ j o. refl))

a-IsPlain : IsPlain strsub_instance 97
unfolding open_token
a-IsPlain = record { nonzero = refl; no_escape = refl; no_token = refl }

as-IsPlain : (c : ℕ) → has c (97 ∷ 97 ∷ []) ≡ true → IsPlain strsub_instance c
as-IsPlain c m = elim (Bool-cases (c == 97)) [
  | inl e ↦ rw (==_eq c 97 e) a-IsPlain
  | inr e ↦ absurd (ground arith)
]
