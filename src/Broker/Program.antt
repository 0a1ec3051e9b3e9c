-- ===== src/Broker/Program.antt =====
-- The whole program: `main` of main.cpp and the constructor that it calls. `none` as a broker is
-- `exit(EXIT_FAILURE)`, or `main` without a broker.
use dns_plus_plus.Base.{
  ℕ, Bool, List, Option, none, some, if◌then◌else◌, Access, done, ◌>>=◌, Text, ℤ,
}
use dns_plus_plus.Geo.Numbers.{Floats}
use dns_plus_plus.Crypto.Paillier.{Paillier}
use dns_plus_plus.Broker.State.{Broker, BrokerConfig, Addr, Env}
use dns_plus_plus.Broker.Startup.{KeyFiles, construct, init_crypto}
use dns_plus_plus.Broker.Config.{parse_config}
use dns_plus_plus.Broker.EventLoop.{Wait, Setup, start}

-- What the program finds outside: its argument and the lines of the file that it names, what the calls
-- of the operating system and of the standard library answer, the generator of GMP after its seed, the
-- key file, and the run of epoll.
pub record Machine : Type 0 where
  pub has_argument : Bool
  pub config_lines : Option (List Text)
  pub stoi : Text → Option (ℤ × ℕ)
  pub stof : Text → Option ℕ
  pub port_of : Text → Access ℕ
  pub inet_pton : Text → ℕ
  pub unset : Addr
  pub socket_opens : Bool
  pub binds : Bool
  pub key_opens : Bool
  pub full_opens : Bool
  pub paillier : Paillier
  pub key_lines : Option (List Text)
  pub setup : Setup
  pub waits : List Wait

module _ (f : Floats) (env : Env) where
  open f use {Double}

  -- What `initCrypto` leaves of the broker, without the files.
  abbrev pub broker_of : Option (Broker Double × Option KeyFiles) → Option (Broker Double)
  broker_of none = none
  broker_of (some (s, files)) = some s

  -- The constructor.
  unfoldable pub new_broker : Machine → BrokerConfig → Access (Option (Broker Double))
  new_broker w config =
      if w.socket_opens
      then (if w.binds
          then (construct f w.port_of w.inet_pton config w.unset >>= λ s.
              init_crypto f env.gmp w.key_opens w.full_opens w.paillier w.key_lines s >>= λ r.
              done (broker_of r))
          else done none)
      else done none

  -- The exit code, and the broker where the loop ended.
  unfoldable pub main : Machine → Access (ℕ × Option (Broker Double))
  unfolding new_broker
  main w =
      if w.has_argument
      then elim (parse_config f w.stoi w.stof w.config_lines) [
        | none ↦ done (1, none)
        | some config ↦
            (new_broker w config >>= λ made. elim made [
              | none ↦ done (1, none)
              | some s ↦ (start f env w.setup w.waits s >>= λ t. done (0, some t))
            ])
      ]
      else done (1, none)
