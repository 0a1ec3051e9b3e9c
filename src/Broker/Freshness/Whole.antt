-- ===== src/Broker/Freshness/Whole.antt =====
-- Proofs on the whole program.
use dns_plus_plus.Base.{
  done-inj, ℕ, ◌+◌, ◌≡◌, ◌≢◌, refl, sym, subst, ◌∙◌, Bool, true, false, List, [], All, Option, none,
  some, if◌then◌else◌, Access, done, ◌>>=◌, Returns, Returns-bind, Returns-if, Text, ℤ, pos,
}
use dns_plus_plus.Geo.Numbers.{Floats}
use dns_plus_plus.Crypto.Gmp.{Gmp}
use dns_plus_plus.Crypto.Paillier.{Paillier, key_gen}
use dns_plus_plus.Crypto.Threshold.{is_empty}
use dns_plus_plus.Broker.State.{Broker, BrokerConfig, Addr, Env}
use dns_plus_plus.Broker.Startup.{
  KeyFiles, ip_and_port, leaf_key, enable, init_root, init_leaf, of_leaf, of_root, init_crypto,
  construct,
}
use dns_plus_plus.Broker.Config.{parse_config}
use dns_plus_plus.Broker.EventLoop.{start}
use dns_plus_plus.Broker.Program.{Machine, broker_of, new_broker, main}
use dns_plus_plus.Broker.Service.{ttl_seconds, cleanup_interval_sec}
use dns_plus_plus.Broker.Valid.{IsValid}
use dns_plus_plus.Broker.Keys.{init_crypto-IsValid}
use dns_plus_plus.Broker.Safety.Starting.{IsReadable, start-Returns}
use dns_plus_plus.Broker.Freshness.Rounds.{IsLately, IsTimed, end_time, start-IsLately}

module _ (f : Floats) where
  open f use {Double}

  -- A broker that starts has the subscribers that it had.
  abbrev Quiet : Broker Double → Option (Broker Double × Option KeyFiles) → Type 0
  Quiet s none = Unit
  Quiet s (some (t, files)) = t.subscribers ≡ s.subscribers

  init_leaf-Quiet :
      (gmp : Gmp) (lines : Option (List Text)) (s : Broker Double)
      → Quiet s (of_leaf f (init_leaf f gmp lines s))
  unfolding init_leaf enable
  init_leaf-Quiet gmp lines s = keyed (leaf_key gmp lines)
    where
      plain :
          (b : Bool)
          → Quiet s (of_leaf f (if b then none else some (record s { he_enabled = false })))
      plain true = tt
      plain false = refl

      keyed :
          (key : Option (ℤ × ℤ))
          → Quiet s (
              of_leaf f (elim key [
                | none ↦
                    if s.config.require_he then none else some (record s { he_enabled = false })
                | some (n, mu) ↦ some (enable f n mu s)
              ]))
      keyed none = plain s.config.require_he
      keyed (some (n, mu)) = refl

  abbrev Rooted : Broker Double → Option (Broker Double × KeyFiles) → Type 0
  Rooted s none = Unit
  Rooted s (some (t, files)) = t.subscribers ≡ s.subscribers

  init_root-Rooted :
      (gmp : Gmp) (key_opens full_opens : Bool) (p : Paillier) (s : Broker Double)
      → Returns (key_gen gmp 2048 p) (λ k. Unit {0})
      → Returns (init_root f gmp key_opens full_opens p s) (Rooted s)
  unfolding init_root enable
  init_root-Rooted gmp key_opens full_opens p s made =
      Returns-bind (key_gen gmp 2048 p) _ made (λ k _.
        Returns-if key_opens
          (λ _. Returns-if full_opens (λ _. (_, refl, refl)) (λ _. (none, refl, tt)))
          (λ _. (none, refl, tt)))

  init_crypto-Quiet :
      (gmp : Gmp) (key_opens full_opens : Bool) (p : Paillier) (lines : Option (List Text))
      (s : Broker Double)
      → Returns (key_gen gmp 2048 p) (λ k. Unit {0})
      → Returns (init_crypto f gmp key_opens full_opens p lines s) (Quiet s)
  unfolding init_crypto
  init_crypto-Quiet gmp key_opens full_opens p lines s made =
      Returns-if s.has_parent (λ _. (_, refl, init_leaf-Quiet gmp lines s))
        (λ _.
          Returns-bind (init_root f gmp key_opens full_opens p s) _
            (init_root-Rooted gmp key_opens full_opens p s made) (λ r q. (_, refl, rooted r q)))
    where
      rooted : (r : Option (Broker Double × KeyFiles)) → Rooted s r → Quiet s (of_root f r)
      rooted none q = tt
      rooted (some (t, files)) q = q

  -- A broker before its first datagram.
  abbrev IsNew : Broker Double → Type 0
  IsNew s = IsValid f s × (s.subscribers ≡ [])

  construct-IsNew :
      (port_of : Text → Access ℕ) (inet_pton : Text → ℕ) (config : BrokerConfig) (unset : Addr)
      → Returns (port_of (ip_and_port config.parent_addr).1) (λ n. Unit {0})
      → Returns (construct f port_of inet_pton config unset) IsNew
  unfolding construct
  construct-IsNew port_of inet_pton config unset number =
      Returns-if (is_empty config.parent_addr)
        (λ _. (_, refl, (record { moduli = λ on. cc; caches = tt }, refl)))
        (λ _.
          Returns-bind (port_of (ip_and_port config.parent_addr).1) _ number
            (λ port _. (_, refl, (record { moduli = λ on. cc; caches = tt }, refl))))

module _ (f : Floats) (env : Env) (w : Machine) where
  open f use {Double}

  -- The outside world behaves: the port in the parent's address is a number, the key generation of a root
  -- returns, and zero is not a number of 2048 bits.
  pub record IsCalm : Type 0 where
    pub number :
        (config : BrokerConfig)
        → parse_config f w.stoi w.stof w.config_lines ≡ some config
        → Returns (w.port_of (ip_and_port config.parent_addr).1) (λ n. Unit {0})
    pub generated : Returns (key_gen env.gmp 2048 w.paillier) (λ k. Unit {0})
    pub sized : Gmp.size_in_base_2 env.gmp (pos 0) ≢ 2048

  abbrev Made : Option (Broker Double) → Type 0
  Made none = Unit
  Made (some s) = IsNew f s

  new_broker-Made :
      (config : BrokerConfig)
      → parse_config f w.stoi w.stof w.config_lines ≡ some config
      → IsCalm
      → Returns (new_broker f env w config) Made
  unfolding new_broker
  new_broker-Made config parsed calm =
      Returns-if w.socket_opens
        (λ _.
          Returns-if w.binds
            (λ _.
              Returns-bind (construct f w.port_of w.inet_pton config w.unset) _
                (construct-IsNew f w.port_of w.inet_pton config w.unset (calm.number config parsed))
                (λ s new.
                  let (r, e, quiet) =
                    init_crypto-Quiet f env.gmp w.key_opens w.full_opens w.paillier w.key_lines s
                      calm.generated in
                  (broker_of f env r, rw e refl, started s new r e quiet)))
            (λ _. (none, refl, tt)))
        (λ _. (none, refl, tt))
    where
      started :
          (s : Broker Double)
          → IsNew f s
          → (r : Option (Broker Double × Option KeyFiles))
          → init_crypto f env.gmp w.key_opens w.full_opens w.paillier w.key_lines s ≡ done r
          → Quiet f s r
          → Made (broker_of f env r)
      started s new none e quiet = tt
      started s new (some (t, files)) e quiet = (
        init_crypto-IsValid f env.gmp w.key_opens w.full_opens w.paillier w.key_lines s t files
            calm.sized new.0 e,
        quiet ∙ new.1,
      )

  -- The exit code is 1 without a broker and 0 with one, which is then valid and swept.
  abbrev pub Outcome : ℕ × Option (Broker Double) → Type 0
  Outcome (code, none) = code ≡ 1
  Outcome (code, some t) =
      (code ≡ 0)
      × IsValid f t
      × IsLately f env (ttl_seconds + cleanup_interval_sec) (end_time w.setup.started_at w.waits)
          w.waits t

  -- If the port in the parent's address is a number, the key generation of a root returns a key
  -- and zero is not a number of 2048 bits: on every finite list of answers of epoll, with
  -- datagrams of bytes and a clock that does not go back, the program returns, taken as stopped
  -- where the list ends: with exit code 1 and no broker, or with exit code 0 and a valid broker,
  -- for each of whose groups a datagram with a subscription or a heartbeat was handled in the 25
  -- seconds before the last round ended.
  pub main-Returns :
      IsCalm
      → All IsReadable w.waits
      → IsTimed w.setup.started_at w.waits
      → Returns (main f env w) Outcome
  unfolding main
  main-Returns calm readable timed =
      Returns-if w.has_argument (λ _. configured (parse_config f w.stoi w.stof w.config_lines) refl)
        (λ _. ((1, none), refl, refl))
    where
      run :
          (made : Option (Broker Double))
          → Made made
          → Returns
              (elim made [
                | none ↦ done (1, none)
                | some s ↦ (start f env w.setup w.waits s >>= λ t. done (0, some t))
              ])
              Outcome
      run none new = ((1, none), refl, refl)
      run (some s) new =
          let (t, e, valid) = start-Returns f env w.setup w.waits s readable new.0 in
          let (t', e', lately) =
            start-IsLately f env w.setup w.waits s readable timed new.0 new.1 in
          let same : t' ≡ t = done-inj (sym e' ∙ e) in
          (
            (0, some t),
            rw e refl,
            (
              refl,
              valid,
              subst
                  (IsLately f env (ttl_seconds + cleanup_interval_sec)
                    (end_time w.setup.started_at w.waits) w.waits)
                  same lately,
            ),
          )

      configured :
          (config : Option BrokerConfig)
          → parse_config f w.stoi w.stof w.config_lines ≡ config
          → Returns
              (elim config [
                | none ↦ done (1, none)
                | some c ↦
                    (new_broker f env w c >>= λ made. elim made [
                      | none ↦ done (1, none)
                      | some s ↦ (start f env w.setup w.waits s >>= λ t. done (0, some t))
                    ])
              ])
              Outcome
      configured none e = ((1, none), refl, refl)
      configured (some c) e = Returns-bind (new_broker f env w c) _ (new_broker-Made c e calm) run
