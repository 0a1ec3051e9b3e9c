-- ===== src/Broker/Safety/Starting.antt =====
-- Proofs on `start`: every run of the loop.
use dns_plus_plus.Base.{ℕ, refl, List, [], ◌∷◌, All, Returns, Returns-bind, Returns-if, IsByte}
use dns_plus_plus.Tlv.Total.{
  add_service_name-Buildable, add_coordinates-Buildable, new_builder-Buildable,
}
use dns_plus_plus.Geo.Numbers.{Floats}
use dns_plus_plus.Broker.State.{Broker, Env}
use dns_plus_plus.Broker.Service.{serve_round, say_hello}
use dns_plus_plus.Broker.EventLoop.{Wait, Setup, serve, start}
use dns_plus_plus.Broker.Valid.{IsValid, send-Returns}
use dns_plus_plus.Broker.Safety.Receiving.{serve_round-Returns}

-- The contents of every datagram are bytes.
abbrev pub IsReadable : Wait → Type 0
IsReadable (Wait.ready ds now) = All (λ d. All IsByte d.bytes) ds
IsReadable Wait.interrupted = Unit
IsReadable Wait.failed = Unit

module _ (f : Floats) (env : Env) where
  open f use {Double}

  say_hello-Returns : (s : Broker Double) → IsValid f s → Returns (say_hello f env s) (IsValid f)
  unfolding say_hello
  say_hello-Returns s v =
      Returns-if s.has_parent
        (λ _.
          send-Returns f s.parent_addr _ s
            (add_coordinates-Buildable _ _
              (add_service_name-Buildable s.config.broker_id (new_builder-Buildable _)))
            v)
        (λ _. (s, refl, v))

  serve-Returns :
      (ws : List Wait) (last_cleanup : ℕ) (s : Broker Double)
      → All IsReadable ws
      → IsValid f s
      → Returns (serve f env ws last_cleanup s) (λ r. IsValid f r.0)
  unfolding serve
  serve-Returns [] last_cleanup s b v = (_, refl, v)
  serve-Returns (Wait.interrupted ∷ ws) last_cleanup s b v = serve-Returns ws last_cleanup s b.1 v
  serve-Returns (Wait.failed ∷ ws) last_cleanup s b v = (_, refl, v)
  serve-Returns (Wait.ready ds now ∷ ws) last_cleanup s b v =
      Returns-bind (serve_round f env ds now last_cleanup s) _
        (serve_round-Returns f env ds now last_cleanup s b.0 v)
        (λ r w. serve-Returns ws r.1 r.0 b.1 w)

  -- Every run of `start` from a valid state returns a valid state, whatever epoll answers: calls
  -- before the loop that fail, rounds with any datagrams whose contents are bytes, interruptions,
  -- and an error that ends the loop.
  pub start-Returns :
      (setup : Setup) (ws : List Wait) (s : Broker Double)
      → All IsReadable ws
      → IsValid f s
      → Returns (start f env setup ws s) (IsValid f)
  unfolding start
  start-Returns setup ws s b v =
      Returns-if setup.created
        (λ _.
          Returns-if setup.watching
            (λ _. Returns-bind (say_hello f env s) _ (say_hello-Returns s v) (λ s₁ v₁.
              Returns-bind {P = λ r. IsValid f r.0} (serve f env ws setup.started_at s₁) _
                (serve-Returns ws setup.started_at s₁ b v₁) (λ r w. (r.0, refl, w))))
            (λ _. (s, refl, v)))
        (λ _. (s, refl, v))
