-- ===== src/Broker/Isolation.antt =====
-- Proofs on `brakeAllows` and the windows that it reads and writes.
use dns_plus_plus.Base.{
  ℕ, ◌≡◌, refl, ap, ◌∙◌, inl, inr, Bool, true, false, ◌&&◌, List, [], if◌then◌else◌, ◌==◌,
  Bool-cases, Text, text_beq, text_beq_iff, find_or, insert, find_or-insert, nat_eq, text_eq,
}
use dns_plus_plus.Geo.Numbers.{Floats}
use dns_plus_plus.Broker.State.{Broker, BrakeDir, Windows}
use dns_plus_plus.Broker.Brake.{
  queue_of, set_queue, admit, get_quadrant, windows_of, set_windows, count_braked, brake_allows,
}

queue_of-set_queue :
    (service service' : Text) (q q' : ℕ) (queue : List ℕ) (w : Windows)
    → queue_of service' q' (set_queue service q queue w)
      ≡ (if text_beq service service' && q == q' then queue else queue_of service' q' w)
unfolding queue_of set_queue find_or
queue_of-set_queue service service' q q' queue w =
    ap (find_or [] q')
      (find_or-insert service service' (insert q queue (find_or [] service w)) [] w)
    ∙ elim (Bool-cases (text_beq service service')) [
      | inl same ↦
          let eq : service ≡ service' = (text_beq_iff service service').0 same in
          rw same (
            find_or-insert q q' queue [] (find_or [] service w)
            ∙ ap (λ t. if q == q' then queue else find_or [] q' (find_or [] t w)) eq)
      | inr other ↦ rw other refl
    ]

-- The window of one direction, service and quadrant.
abbrev pub same_dir : BrakeDir → BrakeDir → Bool
same_dir BrakeDir.up BrakeDir.up = true
same_dir BrakeDir.up BrakeDir.local = false
same_dir BrakeDir.local BrakeDir.up = false
same_dir BrakeDir.local BrakeDir.local = true

module _ (f : Floats) where
  open f use {Double}

  windows_of-count_braked :
      (dir dir' : BrakeDir) (s : Broker Double)
      → windows_of f dir' (count_braked f dir s) ≡ windows_of f dir' s
  unfolding windows_of count_braked
  windows_of-count_braked BrakeDir.up BrakeDir.up s = refl
  windows_of-count_braked BrakeDir.up BrakeDir.local s = refl
  windows_of-count_braked BrakeDir.local BrakeDir.up s = refl
  windows_of-count_braked BrakeDir.local BrakeDir.local s = refl

  windows_of-set_windows :
      (dir dir' : BrakeDir) (w : Windows) (s : Broker Double)
      → windows_of f dir' (set_windows f dir w s)
        ≡ (if same_dir dir dir' then w else windows_of f dir' s)
  unfolding windows_of set_windows
  windows_of-set_windows BrakeDir.up BrakeDir.up w s = refl
  windows_of-set_windows BrakeDir.up BrakeDir.local w s = refl
  windows_of-set_windows BrakeDir.local BrakeDir.up w s = refl
  windows_of-set_windows BrakeDir.local BrakeDir.local w s = refl

  windows_of-settled :
      (dir dir' : BrakeDir) (passes : Bool) (s : Broker Double)
      → (let r : Broker Double × Bool =
            if passes then (s, true) else (count_braked f dir s, false) in
          windows_of f dir' r.0)
        ≡ windows_of f dir' s
  windows_of-settled dir dir' true s = refl
  windows_of-settled dir dir' false s = windows_of-count_braked dir dir' s

  -- The decision over the one window that the direction, the service and the coordinates name.
  abbrev pub decision : BrakeDir → Text → ℕ → ℕ → ℕ → Broker Double → List ℕ × Bool
  decision dir service lat lon now s =
      admit s.config.brake_limit s.config.brake_window_sec now
        (queue_of service (get_quadrant f lat lon) (windows_of f dir s))

  -- After `brakeAllows`, the window of its direction, service and quadrant is the queue of the
  -- decision on that window, and every other window, by direction, service or quadrant, is as
  -- before.
  pub queue_of-brake_allows :
      (dir dir' : BrakeDir) (service service' : Text) (lat lon now q' : ℕ) (s : Broker Double)
      → queue_of service' q' (windows_of f dir' (brake_allows f dir service lat lon now s).0) ≡ (
          if same_dir dir dir'
          then (if text_beq service service' && get_quadrant f lat lon == q'
              then (decision dir service lat lon now s).0
              else queue_of service' q' (windows_of f dir s))
          else queue_of service' q' (windows_of f dir' s))
  unfolding brake_allows
  queue_of-brake_allows dir dir' service service' lat lon now q' s =
      let q = get_quadrant f lat lon in
      let w = set_queue service q (decision dir service lat lon now s).0 (windows_of f dir s) in
      ap (queue_of service' q') (
        windows_of-settled dir dir' (decision dir service lat lon now s).1 (set_windows f dir w s)
        ∙ windows_of-set_windows dir dir' w s)
      ∙ elim (Bool-cases (same_dir dir dir')) [
        | inl same ↦ rw same (
            queue_of-set_queue service service' q q' (decision dir service lat lon now s).0
              (windows_of f dir s))
        | inr other ↦ rw other refl
      ]
