-- ===== src/Events/Bits.antt =====
-- The bits of a word of pending events.
use qoraal.Base.{
  ℕ, zero, suc, ◌+◌, ◌-◌, ◌*◌, ◌/◌, ◌%◌, ◌^◌, ◌≤◌, ◌<◌, ◌≡◌, refl, false, ◌==◌, arith,
}
use qoraal.Events.{bit, clear}

pub bit-clear : (i v : ℕ) → bit i (clear i v) ≡ false
unfolding bit clear
bit-clear zero v = ground arith
bit-clear (suc i) v =
    let e : (2 * clear i (v / 2) + v % 2) / 2 ≡ clear i (v / 2) = omega arith in
    rw e (bit-clear i (v / 2))

pub bit-clear_other : (i j v : ℕ) → (i == j) ≡ false → bit i (clear j v) ≡ bit i v
unfolding bit clear
bit-clear_other zero zero v n = absurd (ground arith)
bit-clear_other zero (suc j) v n =
    let e : (2 * clear j (v / 2) + v % 2) % 2 ≡ v % 2 = omega arith in rw e refl
bit-clear_other (suc i) zero v n = let e : (v - v % 2) / 2 ≡ v / 2 = omega arith in rw e refl
bit-clear_other (suc i) (suc j) v n =
    let e : (2 * clear j (v / 2) + v % 2) / 2 ≡ clear j (v / 2) = omega arith in
    rw e (bit-clear_other i j (v / 2) (ground arith))

pub clear_le : (i v : ℕ) → clear i v ≤ v
unfolding clear
clear_le zero v = omega arith
clear_le (suc i) v = omega (arith, clear_le i (v / 2))

-- A word of `n` bits without a bit is zero.
pub no_bit : (n v : ℕ) → v < 2 ^ n → ((i : ℕ) → i < n → bit i v ≡ false) → v ≡ 0
unfolding bit
no_bit zero v h q = omega arith
no_bit (suc n) v h q =
    let half : v / 2 < 2 ^ n = omega arith in
    let z = no_bit n (v / 2) half (λ i l. q (suc i) (omega arith)) in
    let odd = q zero (omega arith) in ground arith

pub bit_zero : (i : ℕ) → bit i 0 ≡ false
unfolding bit
bit_zero zero = refl
bit_zero (suc i) = bit_zero i
