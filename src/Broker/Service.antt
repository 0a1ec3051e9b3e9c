-- ===== src/Broker/Service.antt =====
-- `cleanupExpired`, the dispatch of one datagram and the event loop of `start`.
use dns_plus_plus.Base.{
  ℕ, ◌-◌, List, [], ◌∷◌, if◌then◌else◌, ltb, ◌==◌, Access, done, ◌>>=◌, Text, Map, find, find_or,
  insert, erase, text_eq, length, take,
}
use dns_plus_plus.Tlv.MsgType
use dns_plus_plus.Tlv.Message.{TlvMessage, parse}
use dns_plus_plus.Tlv.Builder.{new_builder, add_service_name, add_coordinates}
use dns_plus_plus.Geo.Numbers.{Floats}
use dns_plus_plus.Broker.State.{Broker, Addr, Env}
use dns_plus_plus.Broker.Send.{send, is_some}
use dns_plus_plus.Broker.Subscribe.{handle_subscribe}
use dns_plus_plus.Broker.Publish.{handle_publish}
use dns_plus_plus.Broker.Membership.{
  handle_heartbeat, handle_hello, handle_region_update, handle_stats_request,
}

abbrev pub ttl_seconds : ℕ
ttl_seconds = 15

abbrev pub cleanup_interval_sec : ℕ
cleanup_interval_sec = 10

abbrev pub buffer_size : ℕ
buffer_size = 4096

-- A datagram as `recvfrom` gives it, with the clock at which it is handled.
pub record Datagram : Type 0 where
  pub sender : Addr
  pub bytes : List ℕ
  pub now : ℕ

module _ (f : Floats) (env : Env) where
  open f use {Double}

  -- `last_active[name]` makes the entry 0 where there is none.
  unfoldable pub touch : Text → Map Text ℕ → Map Text ℕ
  touch name m = if is_some (find name m) then m else insert name 0 m

  -- One round of the loop of `cleanupExpired`.
  unfoldable pub expire : ℕ → Text → Broker Double → Broker Double
  unfolding touch
  expire now name s =
      if ltb ttl_seconds (now - find_or 0 name s.last_active)
      then record s {
        last_active = erase name s.last_active;
        pub_cache = erase name s.pub_cache;
        brake_count_up = erase name s.brake_count_up;
        brake_count_local = erase name s.brake_count_local;
        subscribers = erase name s.subscribers;
      }
      else record s { last_active = touch name s.last_active }

  unfoldable pub expire_all {ℓ} : {A : Type ℓ} → ℕ → Map Text A → Broker Double → Broker Double
  unfolding expire
  expire_all now [] s = s
  expire_all now ((name, v) ∷ rest) s = expire_all now rest (expire now name s)

  unfoldable pub cleanup_expired : ℕ → Broker Double → Broker Double
  unfolding expire_all
  cleanup_expired now s = expire_all now s.subscribers s

  -- The `switch` on the type of a valid message.
  unfoldable pub dispatch : TlvMessage → Addr → ℕ → Broker Double → Access (Broker Double)
  dispatch msg client now s =
      if msg.msg_type == MsgType.subscribe
      then handle_subscribe f env msg client now s
      else (if msg.msg_type == MsgType.region_update
          then handle_region_update f msg s
          else (if msg.msg_type == MsgType.publish
              then handle_publish f env msg client now s
              else (if msg.msg_type == MsgType.heartbeat
                  then handle_heartbeat f msg now s
                  else (if msg.msg_type == MsgType.hello
                      then handle_hello f msg client s
                      else (if msg.msg_type == MsgType.stats_request
                          then handle_stats_request f client s
                          else done s)))))

  -- One datagram, cut to the buffer; an empty one is skipped.
  unfoldable pub receive : Datagram → Broker Double → Access (Broker Double)
  unfolding dispatch
  receive d s =
      if length d.bytes == 0
      then done s
      else (parse (take buffer_size d.bytes) >>= λ msg.
          if msg.valid then dispatch msg d.sender d.now s else done s)

  unfoldable pub receive_all : List Datagram → Broker Double → Access (Broker Double)
  unfolding receive
  receive_all [] s = done s
  receive_all (d ∷ ds) s = receive d s >>= receive_all ds

  -- One round of the loop: a batch of datagrams, then the cleanup if it is due. The second part of
  -- the result is `last_cleanup`.
  unfoldable pub serve_round : List Datagram → ℕ → ℕ → Broker Double → Access (Broker Double × ℕ)
  unfolding receive_all cleanup_expired
  serve_round ds now last_cleanup s = receive_all ds s >>= λ s'.
      if ltb cleanup_interval_sec (now - last_cleanup)
      then done (cleanup_expired now s', now)
      else done (s', last_cleanup)

  -- The HELLO that `start` sends to the parent before the loop.
  unfoldable pub say_hello : Broker Double → Access (Broker Double)
  unfolding send
  say_hello s =
      if s.has_parent
      then send f s.parent_addr
          (add_coordinates s.config.lat s.config.lon
            (add_service_name s.config.broker_id (new_builder MsgType.hello)))
          s
      else done s
