-- ===== src/Logger/Filters.antt =====
-- The filter of the module src/svc/svc_logger.c lets through what a filter of a channel does.
use qoraal.Base.{
  ℕ, zero, suc, ◌+◌, ◌*◌, ◌/◌, ◌%◌, ◌≡◌, ◌≤◌, ◌<◌, ◌⊎◌, inl, inr, refl, ap, true, ◌||◌, none, some,
  List, [], ◌∷◌, ◌==◌, ==_eq, Bool-cases, has, arith,
}
use mathlib.Core.Path.{subst}
use qoraal.Events.{bit}
use qoraal.Events.Bits.{bit_zero}
use qoraal.Logger.{
  Filter, Channel, Message, Logger, severity, would_log, joined, merge, gathered,
  severity_channel_available, has_facility, passes, hears,
}

bit-joined : (n i a b : ℕ) → i < n → bit i (joined n a b) ≡ (bit i a || bit i b)
unfolding bit joined
bit-joined zero i a b l = absurd (omega arith)
bit-joined (suc n) zero a b l = elim (Bool-cases ((a % 2 == 1) || (b % 2 == 1))) [
  | inl e ↦ let d : (1 + 2 * joined n (a / 2) (b / 2)) % 2 ≡ 1 = omega arith in simp (e, d) refl
  | inr e ↦ let d : (0 + 2 * joined n (a / 2) (b / 2)) % 2 ≡ 0 = omega arith in simp (e, d) refl
]
bit-joined (suc n) (suc i) a b l =
    let h = bit-joined n i (a / 2) (b / 2) (omega arith) in
    elim (Bool-cases ((a % 2 == 1) || (b % 2 == 1))) [
      | inl e ↦
          let d : (1 + 2 * joined n (a / 2) (b / 2)) / 2 ≡ joined n (a / 2) (b / 2) = omega arith in
          simp (e, d) h
      | inr e ↦
          let d : (0 + 2 * joined n (a / 2) (b / 2)) / 2 ≡ joined n (a / 2) (b / 2) = omega arith in
          simp (e, d) h
    ]

-- The filter lets a message of this severity and facility through; its type is a severity.
abbrev IsAbove : (sev facility : ℕ) → Filter → Type 0
IsAbove sev facility f = (sev ≤ f.type) × (((facility == 0) || bit facility f.mask) ≡ true)

merge-IsAbove :
    (sev facility : ℕ) (f g : Filter)
    → facility < 64
    → IsAbove sev facility f
    → IsAbove sev facility (merge f g)
unfolding merge
merge-IsAbove sev facility f g b h = elim (Bool-cases (g.mask == 0)) [
  | inl e ↦ simp e h
  | inr e ↦ simp e (ground arith, rw (bit-joined 64 facility f.mask g.mask b) (ground (arith, h.1)))
]

merge_new :
    (sev facility : ℕ) (f g : Filter)
    → facility < 64
    → sev ≤ severity g.type
    → has_facility facility g.mask ≡ true
    → IsAbove sev facility (merge f g)
unfolding merge has_facility
merge_new sev facility f g b h k = elim (Bool-cases (g.mask == 0)) [
  | inl e ↦
      absurd
        (ground (arith, bit_zero facility, ap (λ (w : ℕ). bit facility w) (==_eq g.mask 0 e), k))
  | inr e ↦ simp e (ground arith, rw (bit-joined 64 facility f.mask g.mask b) (ground (arith, k)))
]

gathered-IsAbove :
    (sev facility : ℕ) (channel : ℕ → Channel) (cs : List ℕ) (f : Filter)
    → facility < 64
    → IsAbove sev facility f
    → IsAbove sev facility (gathered channel cs f)
unfolding gathered
gathered-IsAbove sev facility channel [] f b h = h
gathered-IsAbove sev facility channel (c ∷ cs) f b h =
    gathered-IsAbove sev facility channel cs _ b (
      merge-IsAbove sev facility _ (channel c).filter1 b
        (merge-IsAbove sev facility f (channel c).filter0 b h))

-- A channel that is called has a filter that lets the message pass.
hears-passes :
    (m : Message) (c : Channel) (f : Filter)
    → hears m c ≡ some f
    → (passes m c.filter0 ≡ true) ⊎ (passes m c.filter1 ≡ true)
unfolding hears
hears-passes m c f h = elim (Bool-cases c.fp) [
  | inr e ↦ absurd (let w : hears m c ≡ none = simp e refl in ground (arith, w, h))
  | inl e ↦ elim (Bool-cases (passes m c.filter0)) [
    | inl p ↦ inl p
    | inr p ↦ elim (Bool-cases (passes m c.filter1)) [
      | inl p' ↦ inr p'
      | inr p' ↦ absurd (let w : hears m c ≡ none = simp (e, p, p') refl in ground (arith, w, h))
    ]
  ]
]

passes-IsAbove :
    (m : Message) (f g : Filter)
    → m.facility < 64
    → passes m g ≡ true
    → IsAbove (severity m.type) m.facility (merge f g)
unfolding passes
passes-IsAbove m f g b h =
    merge_new (severity m.type) m.facility f g b (ground (arith, h)) (ground (arith, h))

hears-IsAbove :
    (m : Message) (channel : ℕ → Channel) (c : ℕ) (cs : List ℕ) (f g : Filter)
    → m.facility < 64
    → has c cs ≡ true
    → hears m (channel c) ≡ some g
    → IsAbove (severity m.type) m.facility (gathered channel cs f)
unfolding gathered
hears-IsAbove m channel c [] f g b i h = absurd (ground arith)
hears-IsAbove m channel c (d ∷ cs) f g b i h = elim (Bool-cases (c == d)) [
  | inr e ↦ hears-IsAbove m channel c cs _ g b (ground arith) h
  | inl e ↦
      gathered-IsAbove (severity m.type) m.facility channel cs _ b
        (elim (hears-passes m (channel d) g
          (subst (λ (x : ℕ). hears m (channel x) ≡ some g) (==_eq c d e) h)) [
            | inl p ↦
                merge-IsAbove (severity m.type) m.facility _ (channel d).filter1 b
                  (passes-IsAbove m f (channel d).filter0 b p)
            | inr p ↦ passes-IsAbove m _ (channel d).filter1 b p
          ])
]

merge-small : (f g : Filter) → f.type < 16 → (merge f g).type < 16
unfolding merge severity
merge-small f g h = elim (Bool-cases (g.mask == 0)) [
  | inl e ↦ simp e h
  | inr e ↦ simp e (ground arith)
]

gathered-small :
    (channel : ℕ → Channel) (cs : List ℕ) (f : Filter)
    → f.type < 16
    → (gathered channel cs f).type < 16
unfolding gathered
gathered-small channel [] f h = h
gathered-small channel (c ∷ cs) f h =
    gathered-small channel cs _
      (merge-small _ (channel c).filter1 (merge-small f (channel c).filter0 h))

-- The filter that `severity_channel_available` sets drops no message that a channel is called for: a
-- message of a facility below 64 for which the callback calls a registered channel passes
-- SVC_LOGGER_WOULD_LOG.
pub severity_channel_available-hears :
    (s : Logger) (m : Message) (c : ℕ) (f : Filter)
    → m.facility < 64
    → has c s.channels ≡ true
    → hears m (s.channel c) ≡ some f
    → would_log (severity_channel_available s).filter m.type m.facility ≡ true
unfolding severity_channel_available would_log severity
severity_channel_available-hears s m c f b i h =
    let a = hears-IsAbove m s.channel c s.channels (record { mask = 0; type = 0 }) f b i h in
    let n = gathered-small s.channel s.channels (record { mask = 0; type = 0 }) (omega arith) in
    ground (arith, a, n)
