-- ===== src/Restoration/Capacity.antt =====
-- restoration/service.py: `calculate_capacity`. A `Decimal` has at most 28 digits: a product and a
-- quotient are rounded to them, half to even, and a percentage that has more raises. The limits on
-- exponents are left out: they are beyond 10^999999.
pub mod Rounding
use Prim.Native.Nat.{◌^◌}
use ot_engineering_demonstra.Base.{
  String, ℕ, zero, suc, ◌+◌, ◌-◌, ◌*◌, ◌/◌, ◌%◌, leb, ltb, nat_eq, true, false, if◌then◌else◌,
  Result, ok, err, ◌>>=◌, division_error, invalid_operation,
}
use ot_engineering_demonstra.Restoration.{RestorationCalculation}

-- n / d to the nearest integer, a half to the even one
abbrev pub half_even : ℕ → ℕ → ℕ
half_even n d =
    if ltb d (2 * (n % d))
    then n / d + 1
    else if nat_eq (2 * (n % d)) d
    then n / d + (n / d) % 2
    else n / d

-- The digits of an integer behind the first 28; fuel as large as the integer is enough, since each
-- round divides it by 10.
abbrev pub excess : ℕ → ℕ → ℕ
excess zero n = 0
excess (suc fuel) n = elim (ltb n (10 ^ 28)) [ true ↦ 0 | false ↦ suc (excess fuel (n / 10)) ]

-- `Decimal(n) * Decimal(m)`, of integers
abbrev pub product : ℕ → ℕ → ℕ
product n m = let e = excess (n * m) (n * m) in half_even (n * m) (10 ^ e) * 10 ^ e

-- The decimals with which a quotient that is not 0 has 28 digits, or 0 where its integer part has;
-- the fuel `28 + d` is enough, since d < 10^d.
abbrev pub decimals : ℕ → ℕ → ℕ → ℕ
decimals zero n d = 0
decimals (suc fuel) n d = elim (leb (10 ^ 27) (n / d)) [
  | true ↦ 0
  | false ↦ suc (decimals fuel (n * 10) d)
]

-- `(Decimal(n) / Decimal(d)).quantize(Decimal("0.1"), rounding=ROUND_HALF_UP)`, in tenths
abbrev pub quotient_tenths : ℕ → ℕ → Result ℕ
quotient_tenths zero zero = err invalid_operation
quotient_tenths (suc n) zero = err division_error
quotient_tenths zero (suc d) = ok 0
quotient_tenths (suc n) (suc d) =
    let places = decimals (28 + suc d) (suc n) (suc d) in
    let digits = half_even (suc n * 10 ^ places) (suc d) in
    let tenths = (20 * digits + 10 ^ places) / (2 * 10 ^ places) in
    if ltb tenths (10 ^ 28) then ok tenths else err invalid_operation

unfoldable pub calculate_capacity : String → ℕ → ℕ → ℕ → Result RestorationCalculation
calculate_capacity feeder existing transferable capacity = do
  let resulting = existing + transferable
  tenths ← quotient_tenths (product resulting 100) capacity
  ok (record {
    alternate_feeder_id = feeder;
    existing_supplied_load_kw = existing;
    transferable_load_kw = transferable;
    resulting_load_kw = resulting;
    feeder_capacity_kw = capacity;
    resulting_loading_percent_tenths = tenths;
    capacity_pass = leb resulting capacity;
  })
