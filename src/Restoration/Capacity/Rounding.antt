-- ===== src/Restoration/Capacity/Rounding.antt =====
-- What the capacity calculation of restoration/service.py returns.
use ot_engineering_demonstra.Base.{
  String, ap, ◌∙◌, ok-injective, >>=-eq-ok, ℕ, ◌+◌, ◌≤◌, ok, ◌≡◌, true, arith,
}
use ot_engineering_demonstra.Restoration.{RestorationCalculation}
use ot_engineering_demonstra.Restoration.Capacity.{calculate_capacity, product, quotient_tenths}

-- A calculation that passes is of a load within the capacity.
pub calculate_capacity-pass :
    (feeder : String) (existing transferable capacity : ℕ) (r : RestorationCalculation)
    → calculate_capacity feeder existing transferable capacity ≡ ok r
    → r.capacity_pass ≡ true
    → existing + transferable ≤ capacity
unfolding calculate_capacity
calculate_capacity-pass feeder existing transferable capacity r h t =
    let (tenths, q, h1) =
      >>=-eq-ok (quotient_tenths (product (existing + transferable) 100) capacity) _ h in
    let e = ap (λ q. q.capacity_pass) (ok-injective h1) ∙ t in ground arith
