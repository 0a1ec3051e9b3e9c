-- ===== src/Broker/Brake.antt =====
-- The brake: `getQuadrant` and `brakeAllows`.
use dns_plus_plus.Base.{
  ℕ, ◌-◌, Bool, true, false, List, [], ◌∷◌, ◌++◌, length, ltb, leb, if◌then◌else◌, Text, find_or,
  insert, inc_64, nat_eq, text_eq,
}
use dns_plus_plus.Geo.Numbers.{Floats}
use dns_plus_plus.Broker.State.{Broker, BrakeDir, Windows}

-- `while (!queue.empty() && now - queue.front() > window) queue.pop()`
unfoldable pub purge : ℕ → ℕ → List ℕ → List ℕ
purge now window [] = []
purge now window (t ∷ queue) = if ltb window (now - t) then purge now window queue else t ∷ queue

unfoldable pub queue_of : Text → ℕ → Windows → List ℕ
queue_of service q w = find_or [] q (find_or [] service w)

unfoldable pub set_queue : Text → ℕ → List ℕ → Windows → Windows
set_queue service q queue w = insert service (insert q queue (find_or [] service w)) w

-- One decision over one window: the queue that stays, and whether the publication passes.
unfoldable pub admit : ℕ → ℕ → ℕ → List ℕ → List ℕ × Bool
unfolding purge
admit limit window now queue =
    let rest = purge now window queue in
    if leb limit (length rest) then (rest, false) else (rest ++ (now ∷ []), true)

module _ (f : Floats) where
  open f use {Double, le, widen}

  -- `0.0f` is the pattern 0.
  unfoldable pub get_quadrant : ℕ → ℕ → ℕ
  get_quadrant lat lon =
      if le (widen 0) (widen lat)
      then (if le (widen 0) (widen lon) then 0 else 1)
      else (if le (widen 0) (widen lon) then 2 else 3)

  unfoldable pub windows_of : BrakeDir → Broker Double → Windows
  windows_of BrakeDir.up s = s.brake_count_up
  windows_of BrakeDir.local s = s.brake_count_local

  unfoldable pub set_windows : BrakeDir → Windows → Broker Double → Broker Double
  set_windows BrakeDir.up w s = record s { brake_count_up = w }
  set_windows BrakeDir.local w s = record s { brake_count_local = w }

  unfoldable pub count_braked : BrakeDir → Broker Double → Broker Double
  count_braked BrakeDir.up s = record s {
    stats = record s.stats { braked_up = inc_64 s.stats.braked_up };
  }
  count_braked BrakeDir.local s = record s {
    stats = record s.stats { braked_local = inc_64 s.stats.braked_local };
  }

  unfoldable pub brake_allows : BrakeDir → Text → ℕ → ℕ → ℕ → Broker Double → Broker Double × Bool
  unfolding admit queue_of set_queue get_quadrant windows_of set_windows count_braked
  brake_allows dir service lat lon now s =
      let q = get_quadrant lat lon in
      let w = windows_of dir s in
      let (queue, passes) =
        admit s.config.brake_limit s.config.brake_window_sec now (queue_of service q w) in
      let s' = set_windows dir (set_queue service q queue w) s in
      if passes then (s', true) else (count_braked dir s', false)
