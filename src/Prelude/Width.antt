-- ===== src/Prelude/Width.antt =====
-- The machine widths of the contract: `i128` amounts, `u64` times and `u32` counters, with Rust's
-- checked, saturating and wrapping operations.
use Prim.Native.Nat.{ℕ, ◌+◌, ◌-◌, ◌*◌, ◌%◌, ◌^◌}
use mathlib.Core.Bool.{Bool, ◌&&◌}
use mathlib.Core.Option.{Option, none, some}
use stellabill_contracts.Prelude.Tests.{ltb, leb, if◌then◌else◌}
use stellabill_contracts.Prelude.Int.{
  ℤ, pos, negsuc, ◌+ℤ◌, ◌-ℤ◌, ◌*ℤ◌, ◌≤ℤ◌, quot, pos_part, neg_part, sub_ℕ, leb_ℤ, ltb_ℤ, beq_ℤ,
}

abbrev pub max_u32 : ℕ
max_u32 = 2 ^ 32 - 1

abbrev pub max_u64 : ℕ
max_u64 = 2 ^ 64 - 1

abbrev pub max_i128 : ℤ
max_i128 = pos (2 ^ 127 - 1)

abbrev pub min_i128 : ℤ
min_i128 = negsuc (2 ^ 127 - 1)

abbrev pub fits_i128 : ℤ → Bool
fits_i128 a = leb_ℤ min_i128 a && leb_ℤ a max_i128

-- The same as an order: the value is one that an `i128` holds.
abbrev pub IsI128 : ℤ → Type 0
IsI128 a = (min_i128 ≤ℤ a) × (a ≤ℤ max_i128)

abbrev in_i128 : ℤ → Option ℤ
in_i128 a = if fits_i128 a then some a else none

unfoldable pub checked_add : ℤ → ℤ → Option ℤ
checked_add a b = in_i128 (a +ℤ b)

unfoldable pub checked_sub : ℤ → ℤ → Option ℤ
checked_sub a b = in_i128 (a -ℤ b)

unfoldable pub checked_mul : ℤ → ℤ → Option ℤ
checked_mul a b = in_i128 (a *ℤ b)

-- `checked_div` refuses a zero divisor, and `MIN / -1`, whose quotient does not fit.
unfoldable pub checked_div : ℤ → ℤ → Option ℤ
checked_div a b = if beq_ℤ b (pos 0) then none else in_i128 (quot a b)

power_ℤ : ℤ → ℕ → ℤ
power_ℤ a ℕ.zero = pos 1
power_ℤ a (ℕ.suc n) = a *ℤ power_ℤ a n

-- `checked_pow`: the power, if it fits. A base of absolute value 2 or more outgrows the width at
-- its 128th power, so longer products need not be formed; the others repeat with period two.
unfoldable pub checked_pow : ℤ → ℕ → Option ℤ
unfolding power_ℤ
checked_pow a n =
    if ltb n 128
    then in_i128 (power_ℤ a n)
    else if leb_ℤ (pos 2) a
    then none
    else if leb_ℤ a (negsuc 1)
    then none
    else in_i128 (power_ℤ a (2 + n % 2))

unfoldable pub saturating_sub : ℤ → ℤ → ℤ
saturating_sub a b =
    let d = a -ℤ b in
    if ltb_ℤ d min_i128 then min_i128 else if leb_ℤ d max_i128 then d else max_i128

unfoldable pub saturating_add : ℤ → ℤ → ℤ
saturating_add a b =
    let d = a +ℤ b in
    if ltb_ℤ d min_i128 then min_i128 else if leb_ℤ d max_i128 then d else max_i128

-- The release profile leaves overflow checks off, so plain `+`, `-` and `*` wrap.
unfoldable pub wrap_i128 : ℤ → ℤ
wrap_i128 a =
    if fits_i128 a
    then a
    else sub_ℕ ((pos_part a + 2 ^ 127 + (2 ^ 128 - neg_part a % 2 ^ 128)) % 2 ^ 128) (2 ^ 127)

unfoldable pub checked_add_u64 : ℕ → ℕ → Option ℕ
checked_add_u64 a b = if leb (a + b) max_u64 then some (a + b) else none

unfoldable pub checked_mul_u64 : ℕ → ℕ → Option ℕ
checked_mul_u64 a b = if leb (a * b) max_u64 then some (a * b) else none

unfoldable pub checked_add_u32 : ℕ → ℕ → Option ℕ
checked_add_u32 a b = if leb (a + b) max_u32 then some (a + b) else none

abbrev pub saturating_add_u64 : ℕ → ℕ → ℕ
saturating_add_u64 a b = if leb (a + b) max_u64 then a + b else max_u64

abbrev pub saturating_add_u32 : ℕ → ℕ → ℕ
saturating_add_u32 a b = if leb (a + b) max_u32 then a + b else max_u32

-- `-` on ℕ stops at 0.
abbrev pub saturating_sub_u64 : ℕ → ℕ → ℕ
saturating_sub_u64 a b = a - b
