-- ===== src/Broker/Freshness/Signs.antt =====
-- The signs of life that datagrams bring, and proofs on the handling of datagrams.
use dns_plus_plus.Base.{
  ℕ, ◌⊎◌, some, ◌≤◌, ◌≡◌, refl, inl, inr, List, [], ◌∷◌, All, length, take, ◌==◌, done, Text,
  text_eq, arith,
}
use dns_plus_plus.Tlv.MsgType
use dns_plus_plus.Tlv.Message.{TlvMessage, parse, get_service_name}
use dns_plus_plus.Geo.Numbers.{Floats}
use dns_plus_plus.Broker.State.{Broker, Addr, Env}
use dns_plus_plus.Broker.Match.{hash_service_name}
use dns_plus_plus.Broker.Service.{buffer_size, Datagram, dispatch, receive, receive_all}
use dns_plus_plus.Broker.EventLoop.{Wait}
use dns_plus_plus.Broker.Dispatch.{dispatch-cases}
use dns_plus_plus.Broker.Freshness.Keeps.{Only, Keeps, Keeps-done, Keeps-bind, Keeps-if}
use dns_plus_plus.Broker.Freshness.Handlers.{
  IsFresh, handle_hello-Keeps, handle_region_update-Keeps, handle_stats_request-Keeps,
}
use dns_plus_plus.Broker.Freshness.Subscribing.{
  Fresh, handle_subscribe-Fresh, handle_heartbeat-Fresh,
}
use dns_plus_plus.Broker.Freshness.Delivering.{handle_publish-Fresh}

module _ (f : Floats) (env : Env) where
  open f use {Double}

  -- A message that is a sign of life of a group: a subscription of its name, or of a name whose hash it
  -- is, or a heartbeat of its name.
  abbrev pub IsSign : TlvMessage → Text → Type 0
  IsSign m key =
      (name : Text) × (get_service_name m ≡ done (some name))
      × (((m.msg_type ≡ MsgType.subscribe) × ((key ≡ name) ⊎ (key ≡ hash_service_name f env name)))
          ⊎ ((m.msg_type ≡ MsgType.heartbeat) × (key ≡ name)))

  -- A datagram that brings one at a time.
  abbrev pub IsHeardIn : Datagram → Text → ℕ → Type 0
  IsHeardIn d key time =
      (m : TlvMessage) × (parse (take buffer_size d.bytes) ≡ done m) × IsSign m key × (time ≡ d.now)

  abbrev pub IsHeardOf : List Datagram → Text → ℕ → Type 0
  IsHeardOf [] key time = ⊥
  IsHeardOf (d ∷ ds) key time = IsHeardIn d key time ⊎ IsHeardOf ds key time

  -- One of the datagrams of a run brings one.
  abbrev pub IsHeard : List Wait → Text → ℕ → Type 0
  IsHeard [] key time = ⊥
  IsHeard (Wait.ready ds now ∷ ws) key time = IsHeardOf ds key time ⊎ IsHeard ws key time
  IsHeard (Wait.interrupted ∷ ws) key time = IsHeard ws key time
  IsHeard (Wait.failed ∷ ws) key time = ⊥

  module _ (Q : Text → ℕ → Type 0) where
    dispatch-Fresh :
        (m : TlvMessage) (client : Addr) (now : ℕ) (s : Broker Double)
        → ((key : Text) → IsSign m key → Q key now)
        → Fresh f env Q s
        → Keeps (dispatch f env m client now s) (Fresh f env Q)
    dispatch-Fresh m client now s h q =
        dispatch-cases f env (λ r. Keeps r (Fresh f env Q)) m client now s
          (λ kind.
            handle_subscribe-Fresh f env Q m client now s
              (λ name e. (
                h name (name, e, inl (kind, inl refl)),
                h (hash_service_name f env name) (name, e, inl (kind, inr refl)),
              ))
              q)
          (λ _. handle_region_update-Keeps f (Only (IsFresh Q)) m s q)
          (λ _. handle_publish-Fresh f env Q m client now s q)
          (λ kind.
            handle_heartbeat-Fresh f env Q m now s (λ name e. h name (name, e, inr (kind, refl))) q)
          (λ _. handle_hello-Keeps f (Only (IsFresh Q)) m client s q)
          (λ _. handle_stats_request-Keeps f (Only (IsFresh Q)) client s q)
          (Keeps-done (Fresh f env Q) s q)

    receive-Fresh :
        (d : Datagram) (s : Broker Double)
        → ((key : Text) → IsHeardIn d key d.now → Q key d.now)
        → Fresh f env Q s
        → Keeps (receive f env d s) (Fresh f env Q)
    unfolding receive
    receive-Fresh d s h q =
        Keeps-if (Fresh f env Q) (length d.bytes == 0) (Keeps-done (Fresh f env Q) s q) (
          Keeps-bind (Fresh f env Q) (parse (take buffer_size d.bytes)) _ (λ msg e.
            Keeps-if (Fresh f env Q) msg.valid
              (dispatch-Fresh msg d.sender d.now s (λ key sign. h key (msg, e, sign, refl)) q)
              (Keeps-done (Fresh f env Q) s q)))

    pub receive_all-Fresh :
        (ds : List Datagram) (s : Broker Double)
        → ((key : Text) (time : ℕ) → IsHeardOf ds key time → Q key time)
        → Fresh f env Q s
        → Keeps (receive_all f env ds s) (Fresh f env Q)
    unfolding receive_all
    receive_all-Fresh [] s h q = Keeps-done (Fresh f env Q) s q
    receive_all-Fresh (d ∷ ds) s h q =
        Keeps-bind (Fresh f env Q) (receive f env d s) (receive_all f env ds) (λ s' e.
          receive_all-Fresh ds s' (λ key time heard. h key time (inr heard))
            (receive-Fresh d s (λ key heard. h key d.now (inl heard)) q s' e))

  -- The times of the datagrams are later than a time.
  pub IsHeardOf-later :
      (ds : List Datagram) (t : ℕ) (key : Text) (time : ℕ)
      → All (λ d. t ≤ d.now) ds
      → IsHeardOf ds key time
      → t ≤ time
  IsHeardOf-later [] t key time h heard = absurd heard
  IsHeardOf-later (d ∷ ds) t key time h (inl (m, e, sign, same)) = omega (arith, same, h.0)
  IsHeardOf-later (d ∷ ds) t key time h (inr heard) = IsHeardOf-later ds t key time h.1 heard
