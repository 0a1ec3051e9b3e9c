-- ===== src/Broker/Arrival/Route.antt =====
-- Proofs on all that `handlePublish` sends: up, down and to the subscribers.
use dns_plus_plus.Base.{
  ℕ, ◌≡◌, refl, ap₂, sym, subst, ◌∙◌, Bool, true, false, not, ◌&&◌, List, [], ◌∷◌, ◌++◌,
  if◌then◌else◌, append-nil, done, ◌>>=◌, Returns, text_eq, fst-if,
}
use dns_plus_plus.Tlv.MsgFlags
use dns_plus_plus.Tlv.Builder.{build}
use dns_plus_plus.Geo.Numbers.{Floats}
use dns_plus_plus.Broker.State.{Broker, BrokerConfig, Windows, BrakeDir, Packet}
use dns_plus_plus.Broker.Brake.{
  admit, queue_of, get_quadrant, windows_of, brake_allows, set_windows, count_braked,
}
use dns_plus_plus.Broker.Send.{send, send_bytes}
use dns_plus_plus.Broker.Publication.{Publication, forward_message}
use dns_plus_plus.Broker.Publish.{brakes_upward, gate, count_up, forward_up}

module _ (f : Floats) where
  open f use {Double}

  -- The decision of the upward brake, from what it depends on.
  abbrev pub lets_up : BrokerConfig → Windows → Publication → ℕ → Bool
  lets_up c w p now =
      if brakes_upward c.brake_scope
      then (admit c.brake_limit c.brake_window_sec now
          (queue_of p.key (get_quadrant f p.lat p.lon) w)).1
      else true

  gate-lets_up :
      (p : Publication) (now : ℕ) (s : Broker Double)
      → (gate f (brakes_upward s.config.brake_scope) BrakeDir.up p now s).1
        ≡ lets_up s.config s.brake_count_up p now
  unfolding gate brake_allows windows_of
  gate-lets_up p now s = braked (brakes_upward s.config.brake_scope)
    where
      same :
          (b : Bool) (x y : Broker Double)
          → (let r : Broker Double × Bool = if b then (x, true) else (y, false) in r.1) ≡ b
      same true x y = refl
      same false x y = refl

      braked :
          (b : Bool)
          → (let r : Broker Double × Bool =
                if b then brake_allows f BrakeDir.up p.key p.lat p.lon now s else (s, true) in
              r.1)
            ≡ (if b
                then (admit s.config.brake_limit s.config.brake_window_sec now
                    (queue_of p.key (get_quadrant f p.lat p.lon) s.brake_count_up)).1
                else true)
      braked true = same _ _ _
      braked false = refl

  -- The packet for the parent, unless the publication came from there or the brake holds it back.
  abbrev pub packets_up : Publication → List ℕ → ℕ → Broker Double → List Packet
  packets_up p bytes now s =
      if s.has_parent && not p.from_parent
      then (if lets_up s.config s.brake_count_up p now
          then record { dest = s.parent_addr; bytes = bytes } ∷ []
          else [])
      else []

  -- The way up adds packets, and leaves the children and their interest as they are.
  abbrev pub Raised : List Packet → Broker Double → Broker Double → Type 0
  Raised new s t =
      (t.outbox ≡ s.outbox ++ new) × (t.children ≡ s.children) × (t.child_active ≡ s.child_active)

  gate_up-Raised :
      (braked : Bool) (p : Publication) (now : ℕ) (s : Broker Double)
      → (let t = (gate f braked BrakeDir.up p now s).0 in
          (t.outbox ≡ s.outbox)
          × (t.parent_addr ≡ s.parent_addr)
          × (t.children ≡ s.children)
          × (t.child_active ≡ s.child_active))
  unfolding gate brake_allows set_windows count_braked
  gate_up-Raised true p now s =
      fst-if
        (λ (t : Broker Double).
          (t.outbox ≡ s.outbox)
          × (t.parent_addr ≡ s.parent_addr)
          × (t.children ≡ s.children)
          × (t.child_active ≡ s.child_active))
        _ (_, true) (_, false) (refl, refl, refl, refl) (refl, refl, refl, refl)
  gate_up-Raised false p now s = (refl, refl, refl, refl)

  pub outbox-forward_up :
      (p : Publication) (bytes : List ℕ) (now : ℕ) (s : Broker Double)
      → build (forward_message MsgFlags.from_child p) ≡ done bytes
      → Returns (forward_up f p now s) (Raised (packets_up p bytes now s) s)
  unfolding forward_up send send_bytes count_up
  outbox-forward_up p bytes now s built =
      subst
        (λ c. Returns (forward_up f p now s) (Raised (up (s.has_parent && not p.from_parent) c) s))
        (gate-lets_up p now s)
        (choose (s.has_parent && not p.from_parent)
          (gate f (brakes_upward s.config.brake_scope) BrakeDir.up p now s).1)
    where
      gated : Broker Double
      gated = (gate f (brakes_upward s.config.brake_scope) BrakeDir.up p now s).0

      kept :
          (gated.outbox ≡ s.outbox)
          × (gated.parent_addr ≡ s.parent_addr)
          × (gated.children ≡ s.children)
          × (gated.child_active ≡ s.child_active)
      kept = gate_up-Raised (brakes_upward s.config.brake_scope) p now s

      up : Bool → Bool → List Packet
      up b c =
          if b then (if c then record { dest = s.parent_addr; bytes = bytes } ∷ [] else []) else []

      choose :
          (b c : Bool)
          → Returns
              (if b
                then (if c
                    then (send f gated.parent_addr (forward_message MsgFlags.from_child p) gated
                        >>= λ t. done (count_up f t))
                    else done gated)
                else done s)
              (Raised (up b c) s)
      choose true true = (
        count_up f (send_bytes f gated.parent_addr bytes gated),
        rw built refl,
        (ap₂ (λ o a. o ++ (record { dest = a; bytes = bytes } ∷ [])) kept.0 kept.1, kept.2, kept.3),
      )
      choose true false = (gated, refl, (kept.0 ∙ sym (append-nil s.outbox), kept.2, kept.3))
      choose false c = (s, refl, (sym (append-nil s.outbox), refl, refl))
