-- ===== src/Broker/Safety/Receiving.antt =====
-- Proofs on the dispatch, the event loop and the cleanup.
use dns_plus_plus.Base.{
  ℕ, ◌≡◌, refl, inl, inr, true, List, [], ◌∷◌, length, All, take, ltb, ◌==◌, if◌then◌else◌, done,
  Returns, Returns-bind, Returns-if, Text, Map, IsByte, erase-Values, if-cases, text_eq, ◌-◌,
  find_or, ◌≤◌, zero, suc,
}
use dns_plus_plus.Tlv.MsgType
use dns_plus_plus.Tlv.Message.{TlvMessage, parse}
use dns_plus_plus.Tlv.Accept.{parse_cases}
use dns_plus_plus.Tlv.Total.{IsParsed}
use dns_plus_plus.Geo.Numbers.{Floats}
use dns_plus_plus.Broker.State.{Broker, Addr, Env}
use dns_plus_plus.Broker.Publish.{max_pub_cache}
use dns_plus_plus.Broker.Service.{
  ttl_seconds, cleanup_interval_sec, buffer_size, Datagram, expire, expire_all, cleanup_expired,
  dispatch, receive, receive_all, serve_round,
}
use dns_plus_plus.Broker.Valid.{IsValid}
use dns_plus_plus.Broker.Safety.Subscribing.{handle_subscribe-Returns}
use dns_plus_plus.Broker.Safety.Publishing.{handle_publish-Returns}
use dns_plus_plus.Broker.Safety.Members.{
  handle_heartbeat-Returns, handle_hello-Returns, handle_region_update-Returns,
  handle_stats_request-Returns,
}

pub All-take : (n : ℕ) (xs : List ℕ) → All IsByte xs → All IsByte (take n xs)
All-take zero xs h = tt
All-take (suc n) [] h = tt
All-take (suc n) (x ∷ xs) h = (h.0, All-take n xs h.1)

module _ (f : Floats) (env : Env) where
  open f use {Double}

  pub dispatch-Returns :
      (msg : TlvMessage) (client : Addr) (now : ℕ) (s : Broker Double)
      → IsParsed msg
      → IsValid f s
      → Returns (dispatch f env msg client now s) (IsValid f)
  unfolding dispatch
  dispatch-Returns msg client now s p v =
      Returns-if (msg.msg_type == MsgType.subscribe)
        (λ _. handle_subscribe-Returns f env msg client now s p v)
        (λ _.
          Returns-if (msg.msg_type == MsgType.region_update)
            (λ _. handle_region_update-Returns f msg s p v)
            (λ _.
              Returns-if (msg.msg_type == MsgType.publish)
                (λ _. handle_publish-Returns f env msg client now s p v)
                (λ _.
                  Returns-if (msg.msg_type == MsgType.heartbeat)
                    (λ _. handle_heartbeat-Returns f msg now s p v)
                    (λ _.
                      Returns-if (msg.msg_type == MsgType.hello)
                        (λ _. handle_hello-Returns f msg client s p v)
                        (λ _.
                          Returns-if (msg.msg_type == MsgType.stats_request)
                            (λ _. handle_stats_request-Returns f client s v)
                            (λ _. (s, refl, v)))))))

  -- A message that the constructor makes from bytes is handled where it is valid.
  handle_parsed :
      (msg : TlvMessage) (client : Addr) (now : ℕ) (s : Broker Double)
      → (msg.valid ≡ true → IsParsed msg)
      → IsValid f s
      → Returns (if msg.valid then dispatch f env msg client now s else done s) (IsValid f)
  handle_parsed msg client now s p v =
      Returns-if msg.valid (λ on. dispatch-Returns msg client now s (p on) v) (λ _. (s, refl, v))

  pub receive-Returns :
      (d : Datagram) (s : Broker Double)
      → All IsByte d.bytes
      → IsValid f s
      → Returns (receive f env d s) (IsValid f)
  unfolding receive
  receive-Returns d s b v =
      let (msg, parsed, same, views) =
        parse_cases (take buffer_size d.bytes) (All-take buffer_size d.bytes b) in
      Returns-if (length d.bytes == 0) (λ _. (s, refl, v))
        (λ _.
          Returns-bind {P = λ m. m.valid ≡ true → IsParsed m} (parse (take buffer_size d.bytes)) _
            (
              msg,
              parsed,
              λ on. elim views [
                | inl off ↦ cc
                | inr (fr, rest, fits, shows) ↦ record {
                  frame = fr;
                  rest = rest;
                  is_frame = fits;
                  views = shows;
                }
              ],
            )
            (λ m p. handle_parsed m d.sender d.now s p v))

  pub receive_all-Returns :
      (ds : List Datagram) (s : Broker Double)
      → All (λ d. All IsByte d.bytes) ds
      → IsValid f s
      → Returns (receive_all f env ds s) (IsValid f)
  unfolding receive_all
  receive_all-Returns [] s b v = (s, refl, v)
  receive_all-Returns (d ∷ ds) s b v =
      Returns-bind (receive f env d s) (receive_all f env ds) (receive-Returns d s b.0 v)
        (λ t w. receive_all-Returns ds t b.1 w)

  pub expire-IsValid :
      (now : ℕ) (name : Text) (s : Broker Double)
      → IsValid f s
      → IsValid f (expire f env now name s)
  unfolding expire
  expire-IsValid now name s v =
      if-cases (IsValid f) (ltb ttl_seconds (now - find_or 0 name s.last_active))
        (record {
          moduli = v.moduli;
          caches = erase-Values (λ cps. length cps ≤ max_pub_cache) name s.pub_cache v.caches;
        })
        (record { moduli = v.moduli; caches = v.caches })

  expire_all-IsValid {ℓ} :
      {A : Type ℓ} (now : ℕ) (m : Map Text A) (s : Broker Double)
      → IsValid f s
      → IsValid f (expire_all f env now m s)
  unfolding expire_all
  expire_all-IsValid now [] s v = v
  expire_all-IsValid now ((name, a) ∷ rest) s v =
      expire_all-IsValid now rest _ (expire-IsValid now name s v)

  -- One round of the event loop, on any batch of datagrams whose contents are bytes and from any
  -- valid state, returns: it never reads outside a buffer, divides by zero, fails an assertion or
  -- runs out of fuel. The state it returns is valid: in encrypted mode the moduli are not zero,
  -- and no key has more than ten cached publications.
  pub serve_round-Returns :
      (ds : List Datagram) (now last_cleanup : ℕ) (s : Broker Double)
      → All (λ d. All IsByte d.bytes) ds
      → IsValid f s
      → Returns (serve_round f env ds now last_cleanup s) (λ r. IsValid f r.0)
  unfolding serve_round cleanup_expired
  serve_round-Returns ds now last_cleanup s b v =
      Returns-bind (receive_all f env ds s) _ (receive_all-Returns ds s b v) λ t w.
        Returns-if (ltb cleanup_interval_sec (now - last_cleanup))
          (λ _. (_, refl, expire_all-IsValid now t.subscribers t w)) (λ _. (_, refl, w))
