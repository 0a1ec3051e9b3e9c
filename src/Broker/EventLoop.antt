-- ===== src/Broker/EventLoop.antt =====
-- `start`: epoll is set up, the parent is greeted, and the loop runs until `epoll_wait` fails. What the
-- kernel answers is an argument.
use dns_plus_plus.Base.{ℕ, Bool, List, [], ◌∷◌, if◌then◌else◌, Access, done, ◌>>=◌}
use dns_plus_plus.Geo.Numbers.{Floats}
use dns_plus_plus.Broker.State.{Broker, Env}
use dns_plus_plus.Broker.Service.{Datagram, serve_round, say_hello}

-- What `epoll_wait` answers: datagrams that are ready, with the clock after they are handled; an
-- interruption by a signal; or an error.
pub data Wait : Type 0 where
  ready : List Datagram → ℕ → Wait
  interrupted failed : Wait

-- What the calls before the loop answer, and the clock when it starts.
pub record Setup : Type 0 where
  pub created : Bool
  pub watching : Bool
  pub started_at : ℕ

module _ (f : Floats) (env : Env) where
  open f use {Double}

  -- The rounds of `while (true)`, and `last_cleanup`. At the end of the list the loop waits.
  unfoldable pub serve : List Wait → ℕ → Broker Double → Access (Broker Double × ℕ)
  serve [] last_cleanup s = done (s, last_cleanup)
  serve (Wait.interrupted ∷ ws) last_cleanup s = serve ws last_cleanup s
  serve (Wait.failed ∷ ws) last_cleanup s = done (s, last_cleanup)
  serve (Wait.ready ds now ∷ ws) last_cleanup s =
      serve_round f env ds now last_cleanup s >>= λ (s', last_cleanup'). serve ws last_cleanup' s'

  unfoldable pub start : Setup → List Wait → Broker Double → Access (Broker Double)
  unfolding serve
  start setup ws s =
      if setup.created
      then (if setup.watching
          then (say_hello f env s >>= λ s₁.
              serve ws setup.started_at s₁ >>= λ (s₂, last_cleanup). done s₂)
          else done s)
      else done s
