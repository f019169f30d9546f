-- ===== src/Meter/Laws.antt =====
-- What the meter says after the server has spoken.
use lortnoc_tahc.Base.{ℕ, ◌≤◌, ◌<◌, min, ◌≡◌, ◌↔◌, true, false, arith, pos}
use lortnoc_tahc.Meter.{Meter, remaining, is_blocked, is_running_low, sync_from_server}

-- A send is blocked exactly if the meter is unpaid and at ten or more, and the warning shows
-- exactly if it is unpaid and one or two free sends remain.
pub meter_bands :
    (m : Meter)
    → ((is_blocked m ≡ true) ↔ ((m.paid ≡ false) × (10 ≤ m.sends)))
      × ((is_running_low m ≡ true) ↔ ((m.paid ≡ false) × (0 < remaining m) × (remaining m ≤ 2)))
unfolding is_blocked is_running_low remaining
meter_bands m = ground arith

-- After a non-member's count of `left` free sends the meter shows that count, at most ten, and blocks
-- exactly if it was unpaid and none is left.
pub sync_from_server_mirrors :
    (m : Meter) (left : ℕ)
    → (remaining (sync_from_server m (pos left) false) ≡ min left 10)
      × ((is_blocked (sync_from_server m (pos left) false) ≡ true)
          ↔ ((m.paid ≡ false) × (left ≡ 0)))
unfolding is_blocked remaining sync_from_server
sync_from_server_mirrors m left = ground arith
