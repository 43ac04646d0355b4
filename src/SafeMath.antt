-- ===== src/SafeMath.antt =====
-- contracts/subscription_vault/src/safe_math.rs: checked arithmetic on `i128` amounts.
pub mod Bounds
use stellabill_contracts.Prelude.{
  ℕ, ◌%◌, ℤ, pos, Option, none, some, Bool, ◌&&◌, ◌||◌, ltb_ℤ, leb_ℤ, beq_ℤ, ◌==◌, nat_eq,
  if◌then◌else◌, checked_add, checked_sub, checked_mul, checked_div, checked_pow,
}
use stellabill_contracts.Types.Errors.{Error}
use stellabill_contracts.Host.Calls.{Result, ok, err, trap}

-- `ok_or_else`
abbrev pub or_else : {A : Type 0} → Option A → Error → Result A
or_else none e = err e
or_else (some a) e = ok a

-- `?` inside a pure function.
abbrev pub on_ok : {A B : Type 0} → Result A → (A → Result B) → Result B
on_ok (ok a) f = f a
on_ok (err e) f = err e
on_ok trap f = trap

unfoldable pub safe_add : ℤ → ℤ → Result ℤ
unfolding checked_add
safe_add a b =
    or_else (checked_add a b) (if ltb_ℤ (pos 0) a then Error.overflow else Error.underflow)

unfoldable pub safe_sub : ℤ → ℤ → Result ℤ
unfolding checked_sub
safe_sub a b =
    or_else (checked_sub a b) (if leb_ℤ (pos 0) a then Error.overflow else Error.underflow)

unfoldable pub validate_non_negative : ℤ → Result (Unit {0})
validate_non_negative amount = if ltb_ℤ amount (pos 0) then err Error.underflow else ok tt

unfoldable pub safe_add_balance : ℤ → ℤ → Result ℤ
unfolding validate_non_negative safe_add
safe_add_balance balance amount =
    on_ok (validate_non_negative amount) (λ _. safe_add balance amount)

abbrev not_negative : ℤ → Result ℤ
not_negative result = if ltb_ℤ result (pos 0) then err Error.underflow else ok result

unfoldable pub safe_sub_balance : ℤ → ℤ → Result ℤ
unfolding validate_non_negative safe_sub
safe_sub_balance balance amount =
    on_ok (validate_non_negative amount) (λ _. on_ok (safe_sub balance amount) not_negative)

unfoldable pub safe_mul : ℤ → ℤ → Result ℤ
unfolding checked_mul
safe_mul a b = or_else (checked_mul a b) (
    if (ltb_ℤ (pos 0) a && ltb_ℤ (pos 0) b) || (ltb_ℤ a (pos 0) && ltb_ℤ b (pos 0))
    then Error.overflow
    else Error.underflow)

unfoldable pub safe_div : ℤ → ℤ → Result ℤ
unfolding checked_div
safe_div a b =
    if beq_ℤ b (pos 0) then err Error.invalid_input else or_else (checked_div a b) Error.overflow

unfoldable pub safe_pow : ℤ → ℕ → Result ℤ
unfolding checked_pow
safe_pow base exp =
    or_else (checked_pow base exp)
      (if ltb_ℤ (pos 0) base || exp % 2 == 0 then Error.overflow else Error.underflow)
