-- ===== src/Broker/Freshness/Handlers.antt =====
-- Proofs on the handlers of everything but publications.
use dns_plus_plus.Base.{
  ℕ, ◌≡◌, refl, sym, ap, subst, ◌∙◌, true, inl, inr, List, ◌&&◌, if_true, if_false, Bool-cases,
  Text, text_beq, text_beq_iff, Map, find, find_or, insert, find-insert, find_or-insert, text_eq,
}
use dns_plus_plus.Tlv.Message.{TlvMessage, get_service_name, get_coordinates, get_region}
use dns_plus_plus.Geo.{Region}
use dns_plus_plus.Geo.Numbers.{Floats}
use dns_plus_plus.Crypto.Threshold.{is_empty}
use dns_plus_plus.Broker.State.{BrokerConfig, Windows, Broker, Addr, Env, GeoClient, ChildBroker}
use dns_plus_plus.Broker.Send.{is_some, region_changed, find_child_by_addr}
use dns_plus_plus.Broker.Subscribe.{subscribe_child, grow_region}
use dns_plus_plus.Broker.Membership.{
  update_my_region, add_child, greet_child, handle_hello, widen_region, replace_region,
  handle_region_update, take_snapshot, handle_stats_request,
}
use dns_plus_plus.Broker.Freshness.Keeps.{
  Keeps, Keeps-done, Keeps-bind, Keeps-if, Keeps-option, On, send-Keeps,
  send_region_update_to_parent-Keeps, forward_subscription-Keeps,
}

module _ (f : Floats)
    (Q : Map Text (List (GeoClient (Floats.Double f)))
      → Map Text ℕ
      → BrokerConfig
      → Windows
      → Type 0) where
  open f use {Double}

  greet_child-Keeps :
      (id : Text) (addr : Addr) (coords : ℕ × ℕ) (s : Broker Double)
      → On f Q s
      → Keeps (greet_child f id addr coords s) (On f Q)
  unfolding greet_child add_child update_my_region
  greet_child-Keeps id addr (lat, lon) s q = send-Keeps f Q addr _ _ q

  pub handle_hello-Keeps :
      (m : TlvMessage) (addr : Addr) (s : Broker Double)
      → On f Q s
      → Keeps (handle_hello f m addr s) (On f Q)
  unfolding handle_hello
  handle_hello-Keeps m addr s q = Keeps-bind (On f Q) (get_service_name m) _ λ id_opt _.
      Keeps-bind (On f Q) (get_coordinates m) _ λ coords_opt _.
        Keeps-option (On f Q) id_opt (Keeps-done (On f Q) s q) λ id _.
          Keeps-option (On f Q) coords_opt (Keeps-done (On f Q) s q)
            λ coords _. greet_child-Keeps id addr coords s q

  replace_region-Keeps :
      (id : Text) (r : Region Double) (child : ChildBroker Double) (s : Broker Double)
      → On f Q s
      → Keeps (replace_region f id r child s) (On f Q)
  unfolding replace_region update_my_region
  replace_region-Keeps id r child s q =
      Keeps-if (On f Q) (s.has_parent && region_changed f _ s.my_region)
        (send_region_update_to_parent-Keeps f Q _ q) (Keeps-done (On f Q) _ q)

  pub handle_region_update-Keeps :
      (m : TlvMessage) (s : Broker Double) → On f Q s → Keeps (handle_region_update f m s) (On f Q)
  unfolding handle_region_update
  handle_region_update-Keeps m s q = Keeps-bind (On f Q) (get_service_name m) _ λ id_opt _.
      Keeps-bind (On f Q) (get_region m) _ λ region_opt _.
        Keeps-option (On f Q) id_opt (Keeps-done (On f Q) s q) λ id _.
          Keeps-option (On f Q) region_opt (Keeps-done (On f Q) s q) λ r _.
            Keeps-option (On f Q) (find id s.children) (Keeps-done (On f Q) s q)
              λ child _. replace_region-Keeps id (widen_region f r) child s q

  pub handle_stats_request-Keeps :
      (client : Addr) (s : Broker Double)
      → On f Q s
      → Keeps (handle_stats_request f client s) (On f Q)
  unfolding handle_stats_request take_snapshot
  handle_stats_request-Keeps client s q = send-Keeps f Q client _ _ q

  pub subscribe_child-Keeps :
      (env : Env) (name : Text) (client : Addr) (s : Broker Double)
      → On f Q s
      → Keeps (subscribe_child f env name client s) (On f Q)
  unfolding subscribe_child
  subscribe_child-Keeps env name client s q =
      Keeps-if (On f Q) (is_empty (find_child_by_addr f client s.children))
        (Keeps-done (On f Q) s q) (forward_subscription-Keeps f Q name _ q)

  pub grow_region-Keeps :
      (env : Env) (lat lon : ℕ) (s : Broker Double)
      → On f Q s
      → Keeps (grow_region f env lat lon s) (On f Q)
  unfolding grow_region
  grow_region-Keeps env lat lon s q =
      Keeps-if (On f Q) (s.has_parent && region_changed f _ s.my_region)
        (send_region_update_to_parent-Keeps f Q _ q) (Keeps-done (On f Q) _ q)

-- A property of every group and its last sign of life.
abbrev pub IsFresh {ℓ} : {V : Type ℓ} → (Text → ℕ → Type 0) → Map Text V → Map Text ℕ → Type 0
IsFresh Q groups clocks =
    (key : Text) → is_some (find key groups) ≡ true → Q key (find_or 0 key clocks)

module _ (Q : Text → ℕ → Type 0) where
  -- A group whose clock has the property may be there.
  pub IsFresh-insert {ℓ} :
      {V : Type ℓ} (key : Text) (group : V) (groups : Map Text V) (clocks : Map Text ℕ)
      → IsFresh Q groups clocks
      → Q key (find_or 0 key clocks)
      → IsFresh Q (insert key group groups) clocks
  IsFresh-insert key group groups clocks h k other there = elim (Bool-cases (text_beq key other)) [
    | inl same ↦ subst (λ t. Q t (find_or 0 t clocks)) ((text_beq_iff key other).0 same) k
    | inr differs ↦
        h other
          (ap is_some (sym (find-insert key other group groups ∙ if_false _ _ differs)) ∙ there)
  ]

  -- The clock of a key moves to `now`.
  pub find_or-insert_now :
      (now : ℕ) (key other : Text) (clocks : Map Text ℕ)
      → Q key now
      → Q other (find_or 0 other clocks)
      → Q other (find_or 0 other (insert key now clocks))
  find_or-insert_now now key other clocks h k = elim (Bool-cases (text_beq key other)) [
    | inl same ↦
        subst (λ (t : ℕ). Q other t)
          (sym (find_or-insert key other now 0 clocks ∙ if_true _ _ same))
          (subst (λ t. Q t now) ((text_beq_iff key other).0 same) h)
    | inr differs ↦
        subst (λ (t : ℕ). Q other t)
          (sym (find_or-insert key other now 0 clocks ∙ if_false _ _ differs)) k
  ]

  pub find_or-insert_self :
      (now : ℕ) (key : Text) (clocks : Map Text ℕ)
      → Q key now
      → Q key (find_or 0 key (insert key now clocks))
  find_or-insert_self now key clocks h =
      subst (λ (t : ℕ). Q key t)
        (sym (find_or-insert key key now 0 clocks ∙ if_true _ _ ((text_beq_iff key key).1 refl))) h
