-- ===== src/Broker/Arrival/Alike.antt =====
-- What a local delivery reads of the broker.
use dns_plus_plus.Base.{Map, ℕ, ◌≡◌, refl, Bool, true, false, List, if◌then◌else◌, Text, text_eq}
use dns_plus_plus.Geo.Numbers.{Floats}
use dns_plus_plus.Broker.State.{GeoClient, Broker, BrokerConfig, BrakeDir, Windows}
use dns_plus_plus.Broker.Brake.{admit, get_quadrant, queue_of, windows_of, brake_allows}
use dns_plus_plus.Broker.Publication.{Publication}
use dns_plus_plus.Broker.Publish.{brakes_local, gate}
use dns_plus_plus.Broker.Freshness.Keeps.{On}

module _ (f : Floats) where
  open f use {Double}

  -- What a local delivery reads of the broker is as in a state: a property as in Freshness.Keeps.
  abbrev pub AsIn :
      Broker Double
      → Map Text (List (GeoClient Double))
      → Map Text ℕ
      → BrokerConfig
      → Windows
      → Type 0
  AsIn s groups clocks config windows =
      (groups ≡ s.subscribers) × (config ≡ s.config) × (windows ≡ s.brake_count_local)

  -- Two states that a local delivery cannot tell apart.
  abbrev pub Alike : Broker Double → Broker Double → Type 0
  Alike s t = On f (AsIn s) t

  -- The decision of the local brake, from what it depends on.
  abbrev pub lets_pass : BrokerConfig → Windows → Publication → ℕ → Bool
  lets_pass c w p now =
      if brakes_local c.brake_scope
      then (admit c.brake_limit c.brake_window_sec now
          (queue_of p.key (get_quadrant f p.lat p.lon) w)).1
      else true

  pub gate-lets_pass :
      (p : Publication) (now : ℕ) (s : Broker Double)
      → (gate f (brakes_local s.config.brake_scope) BrakeDir.local p now s).1
        ≡ lets_pass s.config s.brake_count_local p now
  unfolding gate brake_allows windows_of
  gate-lets_pass p now s = braked (brakes_local s.config.brake_scope)
    where
      same :
          (b : Bool) (x y : Broker Double)
          → (let r : Broker Double × Bool = if b then (x, true) else (y, false) in r.1) ≡ b
      same true x y = refl
      same false x y = refl

      braked :
          (b : Bool)
          → (let r : Broker Double × Bool =
                if b then brake_allows f BrakeDir.local p.key p.lat p.lon now s else (s, true) in
              r.1)
            ≡ (if b
                then (admit s.config.brake_limit s.config.brake_window_sec now
                    (queue_of p.key (get_quadrant f p.lat p.lon) s.brake_count_local)).1
                else true)
      braked true = same _ _ _
      braked false = refl
