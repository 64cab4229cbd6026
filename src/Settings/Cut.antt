-- ===== src/Settings/Cut.antt =====
-- What `int(number)` of backend/internal/mcp/settings.go makes of a number.
use native.Mathlib.Nat.{div-mul-le_self, lt-div-mul-add}
use dbx_plugin_kafka.Base.{
  ℕ, zero, suc, ◌+◌, ◌*◌, ◌/◌, ◌^◌, ◌≤◌, ◌<◌, ◌≡◌, refl, inl, inr, ltb, arith, Bool-cases,
}
use dbx_plugin_kafka.Base.Int.{ℤ, pos, negsuc, pos_part}
use dbx_plugin_kafka.Settings.{Float64, in_int64, negated, int_of}

-- The number is not negative, and the integer is what stands before its point.
pub IsCut : Float64 → ℤ → Type 0
IsCut x v =
    (m : ℕ) × (n : ℕ) × (x.numerator ≡ pos m)
    × (v ≡ pos n)
    × (n * 2 ^ x.bits ≤ m)
    × (m < n * 2 ^ x.bits + 2 ^ x.bits)

power_positive : (b : ℕ) → 0 < 2 ^ b
power_positive zero = omega arith
power_positive (suc b) = omega (arith, power_positive b)

negative_cut : (k : ℕ) → 1 ≤ pos_part (in_int64 (negated k)) → ⊥
negative_cut zero h = omega arith
negative_cut (suc k) h = ground (arith, h)

int_of-cases :
    (z : ℤ) (b : ℕ)
    → 1 ≤ pos_part (int_of (record { numerator = z; bits = b }))
    → IsCut (record { numerator = z; bits = b }) (int_of (record { numerator = z; bits = b }))
unfolding int_of IsCut
int_of-cases (negsuc m) b h = absurd (negative_cut (suc m / 2 ^ b) h)
int_of-cases (pos m) b h = elim (Bool-cases (ltb (m / 2 ^ b) (2 ^ 63))) [
  | inl fits ↦ (
    m,
    m / 2 ^ b,
    refl,
    rw (fits, in_int64) refl,
    div-mul-le_self m (2 ^ b),
    lt-div-mul-add {a = m} (power_positive b),
  )
  | inr large ↦ absurd (ground (arith, large, h))
]

pub int_of-IsCut : (x : Float64) → 1 ≤ pos_part (int_of x) → IsCut x (int_of x)
int_of-IsCut x h = int_of-cases x.numerator x.bits h
