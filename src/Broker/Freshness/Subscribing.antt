-- ===== src/Broker/Freshness/Subscribing.antt =====
-- Proofs on subscriptions and heartbeats, which move the clocks.
use dns_plus_plus.Base.{
  ℕ, ◌≡◌, ◌∙◌, ap, done, Option, none, some, ◌&&◌, if◌then◌else◌, if-cases, Text, Map, find_or,
  insert, text_eq,
}
use dns_plus_plus.Tlv.MsgFlags
use dns_plus_plus.Tlv.MsgFlags.{has_flag}
use dns_plus_plus.Tlv.Message.{
  TlvMessage, get_service_name, get_coordinates, get_flags, get_blinded_value, get_blinded_value_hi,
}
use dns_plus_plus.Geo.Numbers.{Floats}
use dns_plus_plus.Broker.State.{Broker, Addr, Env, GeoClient, CachedPub}
use dns_plus_plus.Broker.Match.{hash_service_name}
use dns_plus_plus.Broker.Send.{is_some, value_or, send_bytes, forward_subscription}
use dns_plus_plus.Broker.Subscribe.{
  add_subscriber, grow_region, best_pub, answer, answer_query, subscribe_client, count_subscribe,
  handle_subscribe,
}
use dns_plus_plus.Broker.Membership.{handle_heartbeat}
use dns_plus_plus.Broker.Freshness.Keeps.{
  Only, Keeps, Keeps-done, Keeps-bind, Keeps-if, Keeps-option, forward_subscription-Keeps,
}
use dns_plus_plus.Broker.Freshness.Handlers.{
  IsFresh, IsFresh-insert, find_or-insert_now, find_or-insert_self, subscribe_child-Keeps,
  grow_region-Keeps,
}

-- Every group has the property, and so has the clock of a key.
abbrev pub IsMarked {ℓ} :
    {V : Type ℓ} → (Text → ℕ → Type 0) → Text → Map Text V → Map Text ℕ → Type 0
IsMarked Q key groups clocks = IsFresh Q groups clocks × Q key (find_or 0 key clocks)

module _ (f : Floats) (env : Env) (Q : Text → ℕ → Type 0) where
  open f use {Double, max_value}

  -- The whole state has the property.
  abbrev pub Fresh : Broker Double → Type 0
  Fresh s = IsFresh Q s.subscribers s.last_active

  pub handle_heartbeat-Fresh :
      (m : TlvMessage) (now : ℕ) (s : Broker Double)
      → ((name : Text) → get_service_name m ≡ done (some name) → Q name now)
      → Fresh s
      → Keeps (handle_heartbeat f m now s) Fresh
  unfolding handle_heartbeat
  handle_heartbeat-Fresh m now s h q = Keeps-bind Fresh (get_service_name m) _ λ name_opt e.
      Keeps-option Fresh name_opt (Keeps-done Fresh s q) λ name e'. Keeps-done Fresh _ (λ key there.
        find_or-insert_now Q now name key s.last_active (h name (e ∙ ap done e')) (q key there))

  add_subscriber-Marked :
      (key : Text) (gc : GeoClient Double) (now : ℕ) (s : Broker Double)
      → Q key now
      → Fresh s
      → IsMarked Q key
          (add_subscriber f env key gc now s).subscribers
          (add_subscriber f env key gc now s).last_active
  unfolding add_subscriber
  add_subscriber-Marked key gc now s h q = (
    IsFresh-insert Q key _ s.subscribers (insert key now s.last_active)
        (λ other there. find_or-insert_now Q now key other s.last_active h (q other there))
        (find_or-insert_self Q now key s.last_active h),
    find_or-insert_self Q now key s.last_active h,
  )

  answer-Fresh :
      (key : Text) (client : Addr) (best : Option CachedPub × Double) (s : Broker Double)
      → IsMarked Q key s.subscribers s.last_active
      → Fresh (answer f env key client best s)
  unfolding answer send_bytes
  answer-Fresh key client (none, d) s q = q.0
  answer-Fresh key client (some cp, d) s q =
      IsFresh-insert Q key _ s.subscribers s.last_active q.0 q.1

  answer_query-Fresh :
      (key : Text) (client : Addr) (lat lon flags : ℕ) (s : Broker Double)
      → IsMarked Q key s.subscribers s.last_active
      → Fresh (answer_query f env key client lat lon flags s)
  unfolding answer_query
  answer_query-Fresh key client lat lon flags s q =
      if-cases Fresh (has_flag flags MsgFlags.query_mode)
        (answer-Fresh key client (best_pub f env lat lon (find_or _ key s.pub_cache) none max_value)
          s q)
        q.0

  subscribe_client-Fresh :
      (name : Text) (client : Addr) (coords : ℕ × ℕ) (flags : ℕ) (m1 m2 : Option Text) (now : ℕ)
      (s : Broker Double)
      → Q name now
      → Q (hash_service_name f env name) now
      → Fresh s
      → Keeps (subscribe_client f env name client coords flags m1 m2 now s) Fresh
  unfolding subscribe_client
  subscribe_client-Fresh name client (lat, lon) flags m1 m2 now s h k q =
      let key : Text = if is_some m1 && s.he_enabled then hash_service_name f env name else name in
      Keeps-bind Fresh (grow_region f env lat lon _)
        (λ s₁. forward_subscription f key (answer_query f env key client lat lon flags s₁))
        (λ s₁ e. forward_subscription-Keeps f (Only (IsFresh Q)) key _ (
          answer_query-Fresh key client lat lon flags s₁ (
            grow_region-Keeps f (Only (IsMarked Q key)) env lat lon _
              (add_subscriber-Marked key _ now s
                (if-cases (λ t. Q t now) (is_some m1 && s.he_enabled) k h) q)
              s₁ e)))

  pub handle_subscribe-Fresh :
      (m : TlvMessage) (client : Addr) (now : ℕ) (s : Broker Double)
      → ((name : Text)
          → get_service_name m ≡ done (some name)
          → Q name now × Q (hash_service_name f env name) now)
      → Fresh s
      → Keeps (handle_subscribe f env m client now s) Fresh
  unfolding handle_subscribe count_subscribe
  handle_subscribe-Fresh m client now s h q = Keeps-bind Fresh (get_service_name m) _ λ name_opt e.
      Keeps-option Fresh name_opt (Keeps-done Fresh _ q) λ name e'.
        Keeps-bind Fresh (get_coordinates m) _ λ coords _.
          Keeps-bind Fresh (get_flags m) _ λ flags_opt _.
            Keeps-bind Fresh (get_blinded_value m) _ λ m1 _.
              Keeps-bind Fresh (get_blinded_value_hi m) _ λ m2 _.
                Keeps-if Fresh (has_flag (value_or 0 flags_opt) MsgFlags.from_child)
                  (subscribe_child-Keeps f (Only (IsFresh Q)) env name client
                    (count_subscribe f env s) q)
                  (subscribe_client-Fresh name client (value_or (0, 0) coords)
                    (value_or 0 flags_opt) m1 m2 now (count_subscribe f env s)
                    (h name (e ∙ ap done e')).0 (h name (e ∙ ap done e')).1 q)
