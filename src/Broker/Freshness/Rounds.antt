-- ===== src/Broker/Freshness/Rounds.antt =====
-- Proofs on the event loop.
use dns_plus_plus.Base.{
  ℕ, subst, if_false, ◌+◌, ◌-◌, ◌≤◌, ◌≡◌, refl, ap, sym, ◌∙◌, inl, inr, Bool, true, false,
  Bool-cases, List, [], ◌∷◌, All, ltb, if◌then◌else◌, if_true, done, Returns, Text, find, find_or,
  text_eq, arith,
}
use dns_plus_plus.Geo.Numbers.{Floats}
use dns_plus_plus.Broker.State.{Broker, Env}
use dns_plus_plus.Broker.Send.{is_some}
use dns_plus_plus.Broker.Service.{
  ttl_seconds, cleanup_interval_sec, Datagram, cleanup_expired, receive_all, serve_round, say_hello,
}
use dns_plus_plus.Broker.EventLoop.{Wait, Setup, serve, start}
use dns_plus_plus.Broker.Expiry.{is_expired, last_active-expire_all, find-cleanup_expired}
use dns_plus_plus.Broker.Valid.{IsValid}
use dns_plus_plus.Broker.Safety.Starting.{IsReadable, start-Returns}
use dns_plus_plus.Broker.Freshness.Keeps.{Keeps, Keeps-done, Keeps-bind, Keeps-if, send-Keeps}
use dns_plus_plus.Broker.Freshness.Subscribing.{Fresh}
use dns_plus_plus.Broker.Freshness.Signs.{IsHeardOf, IsHeard, IsHeardOf-later, receive_all-Fresh}

-- The clock of a run does not go back: no datagram is handled, and no round ends, before the end of the
-- round before.
abbrev pub IsTimed : ℕ → List Wait → Type 0
IsTimed t [] = Unit
IsTimed t (Wait.ready ds now ∷ ws) = All (λ d. t ≤ d.now) ds × (t ≤ now) × IsTimed now ws
IsTimed t (Wait.interrupted ∷ ws) = IsTimed t ws
IsTimed t (Wait.failed ∷ ws) = Unit

-- The clock at the end of the last round.
abbrev pub end_time : ℕ → List Wait → ℕ
end_time t [] = t
end_time t (Wait.ready ds now ∷ ws) = end_time now ws
end_time t (Wait.interrupted ∷ ws) = end_time t ws
end_time t (Wait.failed ∷ ws) = t

module _ (f : Floats) (env : Env) where
  open f use {Double}

  module _ (Q : Text → ℕ → Type 0) where
    -- A sign of life that counts, and is not too old at a time.
    abbrev Young : ℕ → Text → ℕ → Type 0
    Young c key time = Q key time × (c ≤ time + ttl_seconds)

    -- Those that the cleanup leaves are young.
    cleanup_expired-Fresh :
        (c now : ℕ) (s : Broker Double)
        → Fresh f env (Young c) s
        → Fresh f env (Young now) (cleanup_expired f env now s)
    cleanup_expired-Fresh c now s q key there = elim (Bool-cases (is_expired f env now key s)) [
      | inl old ↦
          let gone = find-cleanup_expired f env now key s ∙ if_true _ _ old in
          let wrong : false ≡ true = sym (ap is_some gone) ∙ there in absurd (cc)
      | inr young ↦
          let before = find-cleanup_expired f env now key s ∙ if_false _ _ young in
          let same : find_or 0 key (cleanup_expired f env now s).last_active
              ≡ find_or 0 key s.last_active =
            unfold cleanup_expired in last_active-expire_all f env now key s.subscribers s young in
          subst (Young now key) (sym same)
            ((q key (ap is_some (sym before) ∙ there)).0, ground (arith, young))
    ]

    -- After a round the groups are young at the time of the last cleanup, which is not long ago.
    abbrev IsSwept : ℕ → Broker Double × ℕ → Type 0
    IsSwept now (s, last) =
        Fresh f env (Young last) s × (last ≤ now) × (now ≤ last + cleanup_interval_sec)

    serve_round-IsSwept :
        (ds : List Datagram) (now last : ℕ) (s : Broker Double)
        → ((key : Text) (time : ℕ) → IsHeardOf f env ds key time → Q key time × (last ≤ time))
        → last ≤ now
        → Fresh f env (Young last) s
        → Keeps (serve_round f env ds now last s) (IsSwept now)
    unfolding serve_round
    serve_round-IsSwept ds now last s heard h q =
        Keeps-bind (IsSwept now) (receive_all f env ds s) _ (λ s' e.
          swept s'
            (receive_all-Fresh f env (Young last) ds s
              (λ key time sign.
                let (counts, later) = heard key time sign in (counts, omega (arith, later)))
              q s' e)
            _ refl)
      where
        swept :
            (s' : Broker Double)
            → Fresh f env (Young last) s'
            → (due : Bool) → ltb cleanup_interval_sec (now - last) ≡ due
            → Keeps
                (if due then done (cleanup_expired f env now s', now) else done (s', last))
                (IsSwept now)
        swept s' q' true e =
            Keeps-done (IsSwept now) _
              (cleanup_expired-Fresh last now s' q', omega arith, omega arith)
        swept s' q' false e = Keeps-done (IsSwept now) _ (q', h, ground arith)

    serve-IsSwept :
        (ws : List Wait) (t last : ℕ) (s : Broker Double)
        → ((key : Text) (time : ℕ) → IsHeard f env ws key time → Q key time)
        → IsTimed t ws
        → IsSwept t (s, last)
        → Keeps (serve f env ws last s) (IsSwept (end_time t ws))
    unfolding serve
    serve-IsSwept [] t last s heard timed q = Keeps-done (IsSwept t) (s, last) q
    serve-IsSwept (Wait.interrupted ∷ ws) t last s heard timed q =
        serve-IsSwept ws t last s heard timed q
    serve-IsSwept (Wait.failed ∷ ws) t last s heard timed q = Keeps-done (IsSwept t) (s, last) q
    serve-IsSwept (Wait.ready ds now ∷ ws) t last s heard timed q =
        Keeps-bind (IsSwept (end_time now ws)) (serve_round f env ds now last s) _ (λ r e.
          serve-IsSwept ws now r.1 r.0 (λ key time sign. heard key time (inr sign)) timed.2
            (serve_round-IsSwept ds now last s
              (λ key time sign. (
                heard key time (inl sign),
                omega (arith, IsHeardOf-later f env ds t key time timed.0 sign, q.1),
              ))
              (omega (arith, timed.1, q.1)) q.0 r e))

  -- Every group had a sign of life, brought by a datagram of the run, in the last so many seconds before
  -- a time.
  abbrev pub IsLately : ℕ → ℕ → List Wait → Broker Double → Type 0
  IsLately seconds end ws s =
      (key : Text)
      → is_some (find key s.subscribers) ≡ true
      → (time : ℕ) × IsHeard f env ws key time × (end ≤ time + seconds)

  none_there :
      (s : Broker Double) (key : Text)
      → s.subscribers ≡ []
      → ¬ (is_some (find key s.subscribers) ≡ true)
  unfolding find
  none_there s key empty there =
      let wrong : false ≡ true = sym (ap (λ m. is_some (find key m)) empty) ∙ there in cc

  say_hello-Keeps :
      (s : Broker Double) → s.subscribers ≡ [] → Keeps (say_hello f env s) (λ t. t.subscribers ≡ [])
  unfolding say_hello
  say_hello-Keeps s h =
      Keeps-if (λ t. t.subscribers ≡ []) s.has_parent
        (send-Keeps f (λ groups clocks config windows. groups ≡ []) s.parent_addr _ s h)
        (Keeps-done (λ t. t.subscribers ≡ []) s h)

  start-Keeps :
      (setup : Setup) (ws : List Wait) (s : Broker Double)
      → IsTimed setup.started_at ws
      → s.subscribers ≡ []
      → Keeps
          (start f env setup ws s)
          (IsLately (ttl_seconds + cleanup_interval_sec) (end_time setup.started_at ws) ws)
  unfolding start
  start-Keeps setup ws s timed h =
      Keeps-if Lately setup.created
        (Keeps-if Lately setup.watching
          (Keeps-bind Lately (say_hello f env s) _ (λ s₁ e₁.
            Keeps-bind Lately (serve f env ws setup.started_at s₁) _ (λ r e. Keeps-done Lately r.0 (
              let q =
                serve-IsSwept (IsHeard f env ws) ws setup.started_at setup.started_at s₁
                  (λ key time sign. sign) timed
                  (
                    λ key there. absurd (none_there s₁ key (say_hello-Keeps s h s₁ e₁) there),
                    omega arith,
                    omega arith,
                  )
                  r e in
              λ key there.
                let (heard, young) = q.0 key there in
                (find_or 0 key (r.0).last_active, heard, omega (arith, young, q.2))))))
          (Keeps-done Lately s (λ key there. absurd (none_there s key h there))))
        (Keeps-done Lately s (λ key there. absurd (none_there s key h there)))
    where
      Lately : Broker Double → Type 0
      Lately = IsLately (ttl_seconds + cleanup_interval_sec) (end_time setup.started_at ws) ws

  -- In a run of `start` from a valid state without subscribers, whose datagrams are bytes and
  -- whose clock does not go back: for every group of subscribers at the end of the run, a datagram
  -- of the run parses to a subscription of the group's name, or of a name whose hash it is, or to
  -- a heartbeat of the name, and was handled at most 25 seconds before the end of the last round.
  pub start-IsLately :
      (setup : Setup) (ws : List Wait) (s : Broker Double)
      → All IsReadable ws
      → IsTimed setup.started_at ws
      → IsValid f s
      → s.subscribers ≡ []
      → Returns
          (start f env setup ws s)
          (IsLately (ttl_seconds + cleanup_interval_sec) (end_time setup.started_at ws) ws)
  start-IsLately setup ws s readable timed v h =
      let (t, e, w) = start-Returns f env setup ws s readable v in
      (t, e, start-Keeps setup ws s timed h t e)
