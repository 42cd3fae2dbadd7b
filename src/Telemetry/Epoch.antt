-- ===== src/Telemetry/Epoch.antt =====
-- The epoch arithmetic of telemetry/service.py.
use ot_engineering_demonstra.Base.{ℕ, ◌+◌, ◌*◌, ◌/◌, ◌%◌, ◌≤◌, ◌<◌, ◌≡◌, ok, arith}
use ot_engineering_demonstra.Base.Int.{
  ℤ, pos, negsuc, pos_part, neg_part, ◌+ℤ◌, ◌-ℤ◌, ◌*ℤ◌, ◌≤ℤ◌, +ℤ_parts, -ℤ_parts, *ℤ_parts,
  one_part,
}
use ot_engineering_demonstra.Telemetry.{
  epoch, datetime_end, split_delta, instant_to_epoch_ms, epoch_ms_to_instant,
}

-- The normal form of a timedelta adds up to the number that it was made from.
split_delta_sum :
    (z : ℤ)
    → let d = split_delta z in
      pos_part z + neg_part d.days * 86400000000
      ≡ neg_part z + pos_part d.days * 86400000000 + d.seconds * 1000000 + d.microseconds
unfolding split_delta
split_delta_sum (pos n) = omega arith
split_delta_sum (negsuc n) = omega arith

split_delta_microseconds : (z : ℤ) → (split_delta z).microseconds < 1000000
unfolding split_delta
split_delta_microseconds (pos n) = omega arith
split_delta_microseconds (negsuc n) = omega arith

-- An instant is the epoch, so many milliseconds, and less than one more.
pub instant_to_epoch_ms_bounds :
    (t : ℕ)
    → let ms = instant_to_epoch_ms t in
      (epoch + pos_part ms * 1000 ≤ t + neg_part ms * 1000)
      × (t + neg_part ms * 1000 < epoch + pos_part ms * 1000 + 1000)
unfolding instant_to_epoch_ms
instant_to_epoch_ms_bounds t =
    let z = pos t -ℤ pos epoch in
    let d = split_delta z in
    let e = -ℤ_parts (pos t) (pos epoch) in
    let s = split_delta_sum z in
    let u = split_delta_microseconds z in
    let m = *ℤ_parts d.days 86400000 in
    let a = +ℤ_parts (d.days *ℤ 86400000) (pos (d.seconds * 1000)) in
    let b = +ℤ_parts (d.days *ℤ 86400000 +ℤ pos (d.seconds * 1000)) (pos (d.microseconds / 1000)) in
    (omega arith, omega arith)

-- A later instant never has an earlier epoch time.
pub instant_to_epoch_ms-mono : (t u : ℕ) → t ≤ u → instant_to_epoch_ms t ≤ℤ instant_to_epoch_ms u
instant_to_epoch_ms-mono t u h =
    omega (arith, instant_to_epoch_ms_bounds t, instant_to_epoch_ms_bounds u)

-- An instant of whole milliseconds, within the years that a datetime has, comes back exactly.
pub epoch_ms_to_instant-instant_to_epoch_ms :
    (t : ℕ) → t % 1000 ≡ 0 → t < datetime_end → epoch_ms_to_instant (instant_to_epoch_ms t) ≡ ok t
unfolding epoch_ms_to_instant
epoch_ms_to_instant-instant_to_epoch_ms t whole within =
    let ms = instant_to_epoch_ms t in
    let b = instant_to_epoch_ms_bounds t in
    let m = *ℤ_parts ms 1000 in
    let a = +ℤ_parts (pos epoch) (ms *ℤ 1000) in
    let o = one_part (pos epoch +ℤ ms *ℤ 1000) in
    let e : pos_part (pos epoch +ℤ ms *ℤ 1000) ≡ t = omega arith in
    let z : neg_part (pos epoch +ℤ ms *ℤ 1000) ≡ 0 = omega arith in ground arith
