-- ===== src/ChargeCore/Usage/Limits.antt =====
-- The limits on metered use of charge_core.rs: what the stored state of an admitted charge meets.
use stellabill_contracts.Prelude.{
  ℕ, ◌-◌, ◌≤◌, ℤ, pos, ◌≡◌, refl, ap, unwrap_or, ◌≤ℤ◌, Bool, false, Option, none, some, arith,
  is_some, leb, ltb, ◌&&◌, if◌then◌else◌, saturating_add, saturating_add_u32, saturating_add_u64,
}
use stellabill_contracts.Types.Records.{UsageLimits, UsageState}
use stellabill_contracts.ChargeCore.Usage.{
  admitted, admit_usage, is_burst, renew_window, is_window_full, renew_period, is_over_units,
  count_usage, first_usage,
}

abbrev pub IsWithinCalls : Option ℕ → ℕ → Type 0
IsWithinCalls none calls = Unit
IsWithinCalls (some max_calls) calls = calls ≤ max_calls

abbrev pub IsWithinUnits : Option ℤ → ℤ → Type 0
IsWithinUnits none units = Unit
IsWithinUnits (some cap) units = units ≤ℤ cap

-- The meters before a charge: the time of the last one, and the calls that count in the window and
-- the units that count in the period, none where these have run out.
abbrev pub last_usage : Option UsageState → ℕ
last_usage none = 0
last_usage (some before) = before.last_usage_timestamp

abbrev pub is_window_over : UsageLimits → ℕ → UsageState → Bool
is_window_over limits now before =
    is_some limits.rate_limit_max_calls
    && leb (saturating_add_u64 before.window_start_timestamp limits.rate_window_secs) now

abbrev pub is_period_over : UsageLimits → ℕ → UsageState → Bool
is_period_over limits period before =
    is_some limits.usage_cap_units && ltb before.period_index period

abbrev pub calls_before : UsageLimits → ℕ → Option UsageState → ℕ
calls_before limits now none = 0
calls_before limits now (some before) =
    if is_window_over limits now before then 0 else before.window_call_count

abbrev pub window_of : UsageLimits → ℕ → Option UsageState → ℕ
window_of limits now none = now
window_of limits now (some before) =
    if is_window_over limits now before then now else before.window_start_timestamp

abbrev pub units_before : UsageLimits → ℕ → Option UsageState → ℤ
units_before limits period none = pos 0
units_before limits period (some before) =
    if is_period_over limits period before then pos 0 else before.current_period_usage_units

abbrev pub period_of : UsageLimits → ℕ → Option UsageState → ℕ
period_of limits period none = period
period_of limits period (some before) =
    if is_period_over limits period before then period else before.period_index

-- The state after a charge of an amount at `now`, in a period: within the limits, with the call and
-- the amount counted in.
pub record IsMetered (limits : UsageLimits) (now period : ℕ) (amount : ℤ)
    (before : Option UsageState) (state : UsageState) : Type 0 where
  pub calls : IsWithinCalls limits.rate_limit_max_calls state.window_call_count
  pub units : IsWithinUnits limits.usage_cap_units state.current_period_usage_units
  pub apart : limits.burst_min_interval_secs ≤ now - last_usage before
  pub stamped : state.last_usage_timestamp ≡ now
  pub counted : state.window_call_count ≡ saturating_add_u32 (calls_before limits now before) 1
  pub window : state.window_start_timestamp ≡ window_of limits now before
  pub used :
      state.current_period_usage_units ≡ saturating_add (units_before limits period before) amount
  pub period_index : state.period_index ≡ period_of limits period before

renew_period-calls :
    (cap : Option ℤ) (period : ℕ) (state : UsageState)
    → (renew_period cap period state).window_call_count ≡ state.window_call_count
unfolding renew_period
renew_period-calls none period state = ground arith
renew_period-calls (some cap) period state = ground arith

within_calls :
    (max : Option ℕ) (cap : Option ℤ) (window now period : ℕ) (amount : ℤ) (state : UsageState)
    → is_window_full max (renew_window max window now state) ≡ false
    → IsWithinCalls max
        (count_usage now amount
          (renew_period cap period (renew_window max window now state))).window_call_count
unfolding is_window_full count_usage
within_calls none cap window now period amount state h = tt
within_calls (some max) cap window now period amount state h =
    ground (arith, renew_period-calls cap period (renew_window (some max) window now state))

within_units :
    (cap : Option ℤ) (now : ℕ) (amount : ℤ) (state : UsageState)
    → is_over_units cap state amount ≡ false
    → IsWithinUnits cap (count_usage now amount state).current_period_usage_units
unfolding is_over_units count_usage
within_units none now amount state h = tt
within_units (some cap) now amount state h = ground arith

-- The state that an admitted charge leaves, written out.
renewed : (limits : UsageLimits) (now period : ℕ) (amount : ℤ) (state : UsageState) → UsageState
renewed limits now period amount state = record {
  last_usage_timestamp = now;
  window_start_timestamp = window_of limits now (some state);
  window_call_count = saturating_add_u32 (calls_before limits now (some state)) 1;
  current_period_usage_units = saturating_add (units_before limits period (some state)) amount;
  period_index = period_of limits period (some state);
}

count_usage-renewed :
    (calls : Option ℕ) (window burst : ℕ) (units : Option ℤ) (now period : ℕ) (amount : ℤ)
    (state : UsageState)
    → let limits : UsageLimits = record {
      rate_limit_max_calls = calls;
      rate_window_secs = window;
      burst_min_interval_secs = burst;
      usage_cap_units = units;
    } in
      count_usage now amount (renew_period units period (renew_window calls window now state))
      ≡ renewed limits now period amount state
unfolding count_usage renew_period renew_window renewed
count_usage-renewed none window burst none now period amount state = refl
count_usage-renewed none window burst (some cap) now period amount state = ground arith
count_usage-renewed (some max) window burst none now period amount state = ground arith
count_usage-renewed (some max) window burst (some cap) now period amount state = ground arith

admit_usage-bounds :
    (limits : UsageLimits) (now period : ℕ) (amount : ℤ) (state new : UsageState)
    → admit_usage limits now period amount state ≡ admitted new
    → IsWithinCalls limits.rate_limit_max_calls new.window_call_count
      × IsWithinUnits limits.usage_cap_units new.current_period_usage_units
      × (limits.burst_min_interval_secs ≤ now - state.last_usage_timestamp)
unfolding admit_usage is_burst
admit_usage-bounds limits now period amount state new e =
    let window = renew_window limits.rate_limit_max_calls limits.rate_window_secs now state in
    grind (
      arith,
      within_calls limits.rate_limit_max_calls limits.usage_cap_units limits.rate_window_secs now
          period amount state,
      within_units limits.usage_cap_units now amount
          (renew_period limits.usage_cap_units period window),
    )

admit_usage-renewed :
    (limits : UsageLimits) (now period : ℕ) (amount : ℤ) (state new : UsageState)
    → admit_usage limits now period amount state ≡ admitted new
    → new ≡ renewed limits now period amount state
unfolding admit_usage
admit_usage-renewed limits now period amount state new e =
    let same =
      count_usage-renewed limits.rate_limit_max_calls limits.rate_window_secs
        limits.burst_min_interval_secs limits.usage_cap_units now period amount state in
    grind (arith, same)

pub admit_usage-IsMetered :
    (limits : UsageLimits) (now period : ℕ) (amount : ℤ) (state new : UsageState)
    → admit_usage limits now period amount state ≡ admitted new
    → IsMetered limits now period amount (some state) new
unfolding renewed
admit_usage-IsMetered limits now period amount state new e =
    let bounds = admit_usage-bounds limits now period amount state new e in
    let same = admit_usage-renewed limits now period amount state new e in
    record {
      calls = bounds.0;
      units = bounds.1;
      apart = bounds.2;
      stamped = ap (λ (x : UsageState). x.last_usage_timestamp) same;
      counted = ap (λ (x : UsageState). x.window_call_count) same;
      window = ap (λ (x : UsageState). x.window_start_timestamp) same;
      used = ap (λ (x : UsageState). x.current_period_usage_units) same;
      period_index = ap (λ (x : UsageState). x.period_index) same;
    }

-- Before the first charge the meters are those of `first_usage`.
pub first_usage-IsMetered :
    (limits : UsageLimits) (now period : ℕ) (amount : ℤ) (stored : Option UsageState)
    (new : UsageState)
    → admit_usage limits now period amount (unwrap_or stored (first_usage now period))
      ≡ admitted new
    → IsMetered limits now period amount stored new
unfolding first_usage
first_usage-IsMetered limits now period amount (some state) new e =
    admit_usage-IsMetered limits now period amount state new e
first_usage-IsMetered limits now period amount none new e =
    let m = admit_usage-IsMetered limits now period amount (first_usage now period) new e in
    record {
      calls = m.calls;
      units = m.units;
      apart = m.apart;
      stamped = m.stamped;
      counted = ground (arith, m.counted);
      window = ground (arith, m.window);
      used = ground (arith, m.used);
      period_index = ground (arith, m.period_index);
    }
