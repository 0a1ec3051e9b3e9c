-- ===== src/Broker/Freshness/Publishing.antt =====
-- Proofs on publications.
use dns_plus_plus.Base.{
  ℕ, Bool, true, false, not, ◌&&◌, List, [], ◌∷◌, none, some, if◌then◌else◌, if-cases, fst-if,
  snd-if, done, Text, text_beq, Map, find, text_eq,
}
use dns_plus_plus.Tlv.MsgFlags
use dns_plus_plus.Geo.{geo_distance}
use dns_plus_plus.Geo.Numbers.{Floats}
use dns_plus_plus.Broker.State.{
  BrokerConfig, Broker, Env, BrakeDir, GeoClient, ChildBroker, Windows,
}
use dns_plus_plus.Broker.Brake.{set_windows, count_braked, brake_allows}
use dns_plus_plus.Broker.Match.{count_call, count_hit, execute_match}
use dns_plus_plus.Crypto.Threshold.{match_test}
use dns_plus_plus.Broker.Send.{send, send_bytes}
use dns_plus_plus.Broker.Publication.{Publication, forward_message}
use dns_plus_plus.Broker.Publish.{
  brakes_upward, gate, count_up, forward_up, count_down, forward_to_child, forward_down,
  count_delivered, deliver_one, deliver_all,
}
use dns_plus_plus.Broker.Freshness.Keeps.{
  Keeps, Keeps-done, Keeps-bind, Keeps-if, Keeps-option, On, Only, send-Keeps,
}

module _ (f : Floats)
    (Q : Map Text (List (GeoClient (Floats.Double f)))
      → Map Text ℕ
      → BrokerConfig
      → Windows
      → Type 0) where
  open f use {Double, lt, widen}

  gate_up-On :
      (braked : Bool) (p : Publication) (now : ℕ) (s : Broker Double)
      → On f Q s
      → On f Q (gate f braked BrakeDir.up p now s).0
  unfolding gate brake_allows set_windows count_braked
  gate_up-On true p now s q = fst-if (On f Q) _ (_, true) (_, false) q q
  gate_up-On false p now s q = q

  pub forward_up-Keeps :
      (p : Publication) (now : ℕ) (s : Broker Double)
      → On f Q s
      → Keeps (forward_up f p now s) (On f Q)
  unfolding forward_up count_up
  forward_up-Keeps p now s q =
      let s' = (gate f (brakes_upward s.config.brake_scope) BrakeDir.up p now s).0 in
      let kept = gate_up-On (brakes_upward s.config.brake_scope) p now s q in
      Keeps-if (On f Q) (s.has_parent && not p.from_parent)
        (Keeps-if (On f Q) (gate f (brakes_upward s.config.brake_scope) BrakeDir.up p now s).1
          (Keeps-bind (On f Q) (send f s'.parent_addr (forward_message MsgFlags.from_child p) s')
            (λ s''. done (count_up f s''))
            (λ s'' e. Keeps-done (On f Q) (count_up f s'') (
              send-Keeps f Q s'.parent_addr (forward_message MsgFlags.from_child p) s' kept s'' e)))
          (Keeps-done (On f Q) s' kept))
        (Keeps-done (On f Q) s q)

  forward_to_child-Keeps :
      (p : Publication) (id : Text) (child : ChildBroker Double) (s : Broker Double)
      → On f Q s
      → Keeps (forward_to_child f p id child s) (On f Q)
  unfolding forward_to_child count_down
  forward_to_child-Keeps p id child s q =
      Keeps-if (On f Q) _
        (Keeps-bind (On f Q) (send f child.addr (forward_message MsgFlags.from_parent p) _)
          (λ s'. done (count_down f s'))
          (λ s' e.
            Keeps-done (On f Q) (count_down f s')
              (send-Keeps f Q child.addr (forward_message MsgFlags.from_parent p) _ q s' e)))
        (Keeps-done (On f Q) s q)

  pub forward_down-Keeps :
      (p : Publication) (ids : List Text) (s : Broker Double)
      → On f Q s
      → Keeps (forward_down f p ids s) (On f Q)
  unfolding forward_down
  forward_down-Keeps p [] s q = Keeps-done (On f Q) s q
  forward_down-Keeps p (id ∷ ids) s q =
      Keeps-bind (On f Q) _ (forward_down f p ids) (λ s' e. forward_down-Keeps p ids s' (one s' e))
    where
      one :
          Keeps
            (if text_beq id p.from_id then done s else elim (find id s.children) [
              | none ↦ done s
              | some child ↦ forward_to_child f p id child s
            ])
            (On f Q)
      one = Keeps-if (On f Q) (text_beq id p.from_id) (Keeps-done (On f Q) s q) (
          Keeps-option (On f Q) (find id s.children) (Keeps-done (On f Q) s q)
            (λ child _. forward_to_child-Keeps p id child s q))

  deliver_one-On :
      (p : Publication) (gc : GeoClient Double) (s : Broker Double)
      → On f Q s
      → On f Q (deliver_one f p gc s).1
  unfolding deliver_one count_delivered send_bytes
  deliver_one-On p gc s q =
      snd-if (On f Q)
        (lt (geo_distance f (widen p.lat) (widen p.lon) (widen gc.lat) (widen gc.lon))
          gc.cached_closest_dist)
        (_, _) (_, _) q q

  pub deliver_all-On :
      (p : Publication) (gcs : List (GeoClient Double)) (s : Broker Double)
      → On f Q s
      → On f Q (deliver_all f p gcs s).1
  unfolding deliver_all
  deliver_all-On p [] s q = q
  deliver_all-On p (gc ∷ gcs) s q = deliver_all-On p gcs _ (deliver_one-On p gc s q)

  pub execute_match-On :
      (env : Env) (n m1 m2 : Text) (s : Broker Double)
      → On f Q s
      → Keeps (execute_match f env n m1 m2 s) (λ r. On f Q r.0)
  unfolding execute_match count_call count_hit
  execute_match-On env n m1 m2 s q =
      Keeps-bind (λ r. On f Q r.0) (match_test env.gmp s.he_n s.he_mu s.he_n_sq n m1 m2)
        (λ hit. done (count_hit f env hit (count_call f env s), hit))
        (λ hit _. Keeps-done (λ r. On f Q r.0) _ (if-cases (On f Q) hit q q))

module _ (f : Floats)
    (Q : Map Text (List (GeoClient (Floats.Double f))) → Map Text ℕ → Type 0) where
  open f use {Double}

  pub gate_local-On :
      (braked : Bool) (p : Publication) (now : ℕ) (s : Broker Double)
      → On f (Only Q) s
      → On f (Only Q) (gate f braked BrakeDir.local p now s).0
  unfolding gate brake_allows set_windows count_braked
  gate_local-On true p now s q = fst-if (On f (Only Q)) _ (_, true) (_, false) q q
  gate_local-On false p now s q = q
