-- ===== src/Broker/Links/Regions.antt =====
-- Proofs on the REGION_UPDATE of a child, as `handleRegionUpdate` of the parent takes it.
use dns_plus_plus.Base.{
  ℕ, ◌≤◌, ◌≡◌, refl, sym, ◌∙◌, true, false, [], ◌∷◌, ◌++◌, length, arith, done, Text, text_eq,
  if◌then◌else◌, if_true, if_false, some, find, insert, find-insert, text_beq, find-insert_self,
  ◌&&◌, ◌||◌, not, Bool,
}
use dns_plus_plus.Tlv.Message.{RegionBits}
use dns_plus_plus.Tlv.Frame.{encode}
use dns_plus_plus.Geo.{Region}
use dns_plus_plus.Geo.Numbers.{Floats, FloatBits}
use dns_plus_plus.Broker.State.{Broker, Addr, Env, ChildBroker}
use dns_plus_plus.Broker.Send.{
  send_bytes, region_bits, region_changed, send_region_update_to_parent,
}
use dns_plus_plus.Broker.Membership.{
  point_region, merge_children, update_my_region, widen_region, replace_region,
}
use dns_plus_plus.Broker.Service.{dispatch}
use dns_plus_plus.Broker.Links.Wire.{Reaches, receive-carrying}
use dns_plus_plus.Broker.Links.RegionFrame.{
  region_frame, region_frame-IsDatagram, region_bits-IsPatterns, send_region_update_lem,
  handle_region_update-Views,
}

module _ (f : Floats) where
  open f use {Double, eq, narrow, widen}

  -- A bound of one region is not that of the other.
  abbrev pub differs : Region Double → Region Double → Bool
  differs a b = not (
      eq a.min_lat b.min_lat
      && eq a.max_lat b.max_lat
      && eq a.min_lon b.min_lon
      && eq a.max_lon b.max_lon)

  -- A region rounded to floats, as it is sent.
  abbrev pub rounded : Region Double → RegionBits
  rounded r = record {
    min_lat = narrow r.min_lat;
    max_lat = narrow r.max_lat;
    min_lon = narrow r.min_lon;
    max_lon = narrow r.max_lon;
  }

  -- The doubles of the floats that are received.
  abbrev pub widened : RegionBits → Region Double
  widened r = record {
    min_lat = widen r.min_lat;
    max_lat = widen r.max_lat;
    min_lon = widen r.min_lon;
    max_lon = widen r.max_lon;
  }

  region_changed-differs : (a b : Region Double) → region_changed f a b ≡ differs a b
  unfolding region_changed
  region_changed-differs a b =
      any_not (eq a.min_lat b.min_lat) (eq a.max_lat b.max_lat) (eq a.min_lon b.min_lon)
        (eq a.max_lon b.max_lon)
    where
      any_not : (p q r t : Bool) → (not p || not q || not r || not t) ≡ not (p && q && r && t)
      any_not true true true true = refl
      any_not true true true false = refl
      any_not true true false t = refl
      any_not true false r t = refl
      any_not false q r t = refl

  -- What a REGION_UPDATE leaves with the parent: the child's entry has the region, the entries of the
  -- others are as they were, the region of the parent covers them anew, and the parent tells its own
  -- parent where that changed.
  pub record IsTold (id : Text) (child : ChildBroker Double) (r : Region Double)
      (s t : Broker Double) : Type 0 where
    pub told : find id t.children ≡ some (record child { region = r })
    pub others :
        (other : Text) → text_beq id other ≡ false → find other t.children ≡ find other s.children
    pub covers :
        t.my_region ≡ merge_children f t.children (point_region f s.config.lat s.config.lon)
    pub escalated : t.outbox ≡ (
        if s.has_parent && differs t.my_region s.my_region
        then s.outbox
          ++ (record {
            dest = s.parent_addr;
            bytes = encode (region_frame s.config.broker_id (rounded t.my_region));
          }
              ∷ [])
        else s.outbox)

  abbrev stored : Text → Region Double → ChildBroker Double → Broker Double → Broker Double
  stored id r child s =
      update_my_region f
        (record s { children = insert id (record child { region = r }) s.children })

  escalate :
      (b : Bool) (id : Text) (child : ChildBroker Double) (r : Region Double) (s : Broker Double)
      → (b ≡ true → s.has_parent ≡ true)
      → length s.config.broker_id ≤ 4000
      → (s.has_parent && differs (stored id r child s).my_region s.my_region) ≡ b
      → (t : Broker Double) × ((if b
            then send_region_update_to_parent f (stored id r child s)
            else done (stored id r child s))
          ≡ done t)
        × IsTold id child r s t
  unfolding update_my_region send_bytes region_bits
  escalate true id child r s on h e = (
    _,
    send_region_update_lem f (stored id r child s) (on refl) h,
    record {
      told = find-insert_self id _ s.children;
      others = λ other miss. find-insert id other _ s.children ∙ if_false _ _ miss;
      covers = refl;
      escalated = sym (if_true _ _ e);
    },
  )
  escalate false id child r s on h e = (
    _,
    refl,
    record {
      told = find-insert_self id _ s.children;
      others = λ other miss. find-insert id other _ s.children ∙ if_false _ _ miss;
      covers = refl;
      escalated = sym (if_false _ _ e);
    },
  )

  replace_region-IsTold :
      (id : Text) (child : ChildBroker Double) (r : Region Double) (s : Broker Double)
      → length s.config.broker_id ≤ 4000
      → (t : Broker Double) × (replace_region f id r child s ≡ done t) × IsTold id child r s t
  unfolding replace_region
  replace_region-IsTold id child r s h =
      rw (region_changed-differs (stored id r child s).my_region s.my_region)
        (escalate _ id child r s (λ e. ground arith) h refl)

  -- For two brokers whose ids have at most 4000 bytes, the child with a parent that knows it, and
  -- floats of 32 bits: the child's REGION_UPDATE is one datagram. The parent that receives it
  -- replaces the region of that child by the one sent, its bounds rounded to floats, keeps the
  -- entries of other children, merges its own region anew from its point and its children, and
  -- sends a REGION_UPDATE with its rounded bounds to its own parent exactly if it has one and a
  -- bound of its region is not equal to the one before.
  pub send_region_update-receive :
      (bits : FloatBits f) (env : Env) (child parent : Broker Double) (entry : ChildBroker Double)
      (sender : Addr) (now : ℕ)
      → child.has_parent ≡ true
      → length child.config.broker_id ≤ 4000
      → length parent.config.broker_id ≤ 4000
      → find child.config.broker_id parent.children ≡ some entry
      → Reaches f env
          (send_region_update_to_parent f child)
          child
          child.parent_addr
          sender
          now
          parent
          (IsTold child.config.broker_id entry (widened (rounded child.my_region)) parent)
  unfolding dispatch region_bits widen_region
  send_region_update-receive bits env child parent entry sender now on h k known =
      let id = child.config.broker_id in
      let sent = region_bits f child.my_region in
      let d = region_frame-IsDatagram id sent h in
      let (m, e, v) = receive-carrying f env (region_frame id sent) sender now parent d in
      let (t, replaced, told) = replace_region-IsTold id entry (widen_region f sent) parent k in
      record {
        bytes = encode (region_frame id sent);
        next = _;
        sent = send_region_update_lem f child on h;
        sent_alone = unfold send_bytes in refl;
        result = t;
        received =
            e
            ∙ rw v.same_kind (
                handle_region_update-Views f m id sent entry parent h
                  (region_bits-IsPatterns f bits child.my_region) known v)
            ∙ replaced;
        holds = told;
      }
