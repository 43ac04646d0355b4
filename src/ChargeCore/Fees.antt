-- ===== src/ChargeCore/Fees.antt =====
-- The split of a charge between the merchant and the protocol's treasury.
use stellabill_contracts.Prelude.{
  ℕ, ◌*◌, ◌/◌, ◌-◌, ◌-ℤ◌, pos_part, ◌≤◌, ℤ, pos, negsuc, ◌≡◌, ◌+ℤ◌, ◌*ℤ◌, ◌≤ℤ◌, Option, none, some,
  arith, wrap_i128, quot, max_i128,
}
use stellabill_contracts.Types.Records.{Address}
use stellabill_contracts.ChargeCore.Period.{split_fee}

-- Below this the fee's product fits in an `i128`.
abbrev pub IsModest : ℤ → Type 0
IsModest amount = pos_part amount * 10_000 ≤ pos_part max_i128

-- Without a treasury there is no fee.
abbrev pub NoFeeWithout : Option Address → ℤ → Type 0
NoFeeWithout none fee = fee ≡ pos 0
NoFeeWithout (some t) fee = Unit

-- The two parts are not negative and add up to the amount, and with no treasury the merchant has
-- all of it.
pub record IsSplit (amount : ℤ) (treasury : Option Address) (shares : ℤ × ℤ) : Type 0 where
  pub total : shares.0 +ℤ shares.1 ≡ amount
  pub net_nonneg : pos 0 ≤ℤ shares.0
  pub fee_nonneg : pos 0 ≤ℤ shares.1
  pub no_treasury : NoFeeWithout treasury shares.1

fee_le : (a b : ℕ) → b ≤ 10_000 → a * b / 10_000 ≤ a
fee_le a b h = let p : a * b ≤ a * 10_000 = grind arith in omega arith

product_fits : (a b : ℕ) → b ≤ 10_000 → IsModest (pos a) → a * b ≤ pos_part max_i128
product_fits a b h m = let p : a * b ≤ a * 10_000 = grind arith in omega arith

wrap_i128-small : (n : ℕ) → n ≤ pos_part max_i128 → wrap_i128 (pos n) ≡ pos n
unfolding wrap_i128
wrap_i128-small n h = ground arith

*ℤ-pos : (a b : ℕ) → pos a *ℤ pos b ≡ pos (a * b)
unfolding ◌*ℤ◌
*ℤ-pos a b = ground arith

quot-pos : (n : ℕ) → quot (pos n) (pos 10_000) ≡ pos (n / 10_000)
unfolding quot
quot-pos n = ground arith

-ℤ-pos : (a b : ℕ) → b ≤ a → pos a -ℤ pos b ≡ pos (a - b)
unfolding ◌-ℤ◌
-ℤ-pos a b h = ground arith

fee_value :
    (a b : ℕ)
    → b ≤ 10_000
    → IsModest (pos a)
    → quot (wrap_i128 (pos a *ℤ pos b)) (pos 10_000) ≡ pos (a * b / 10_000)
fee_value a b h m =
    rw (*ℤ-pos a b, wrap_i128-small (a * b) (product_fits a b h m)) (quot-pos (a * b))

net_value :
    (a b : ℕ)
    → b ≤ 10_000
    → IsModest (pos a)
    → wrap_i128 (pos a -ℤ pos (a * b / 10_000)) ≡ pos (a - a * b / 10_000)
net_value a b h m = rw (-ℤ-pos a (a * b / 10_000) (fee_le a b h)) (wrap_i128-small _ (omega arith))

-- A protocol fee of at most 10,000 basis points splits a modest amount without loss.
pub split_fee-IsSplit :
    (amount : ℤ) (fee_bps : ℕ) (treasury : Option Address)
    → pos 0 ≤ℤ amount
    → IsModest amount
    → fee_bps ≤ 10_000
    → IsSplit amount treasury (split_fee amount fee_bps treasury)
unfolding split_fee ◌+ℤ◌
split_fee-IsSplit (negsuc a) fee_bps treasury h m b = absurd (omega arith)
split_fee-IsSplit (pos a) fee_bps none h m b = ground arith
split_fee-IsSplit (pos a) fee_bps (some t) h m b =
    rw (fee_value a fee_bps b m, net_value a fee_bps b m) (ground (arith, fee_le a fee_bps b))
