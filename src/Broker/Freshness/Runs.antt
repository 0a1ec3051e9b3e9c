-- ===== src/Broker/Freshness/Runs.antt =====
-- Runs of the broker of Broker.Samples, and the theorems on the whole of `start`.
use dns_plus_plus.Base.{
  ◌≡◌, ℕ, ◌+◌, refl, true, some, none, done, if◌then◌else◌, pos, eq_ℤ, [], ◌∷◌, List, Returns, All,
  text_eq, arith,
}
use dns_plus_plus.Crypto.Gmp.{Gmp}
use dns_plus_plus.Crypto.Paillier.{
  gen_prime, gen_modulus, finish_key, key_gen, l_function, one_for_zero,
}
use dns_plus_plus.Crypto.Runs.{toy_gmp, small_paillier}
use dns_plus_plus.Tlv.MsgType
use dns_plus_plus.Broker.Startup.{split_first}
use dns_plus_plus.Broker.Config.{parse_config}
use dns_plus_plus.Broker.Program.{Machine, main}
use dns_plus_plus.Broker.Freshness.Whole.{IsCalm, Outcome, main-Returns}
use dns_plus_plus.Broker.State.{Broker, BrokerConfig, Env}
use dns_plus_plus.Broker.EventLoop.{Wait, Setup, start}
use dns_plus_plus.Broker.Valid.{IsValid}
use dns_plus_plus.Broker.Safety.Starting.{IsReadable}
use dns_plus_plus.Broker.Service.{Datagram, ttl_seconds, cleanup_interval_sec}
use dns_plus_plus.Broker.Freshness.Rounds.{IsLately, end_time, start-IsLately}
use dns_plus_plus.Broker.Samples.{whole, signed, env, broker, datagrams}

abbrev setup : Setup
setup = record { created = true; watching = true; started_at = 100 }

-- A SUBSCRIBE of "a" without coordinates.
abbrev subscription : Datagram
subscription = record {
  sender = record { ip = 10; port = 3 };
  bytes = 0 ∷ MsgType.subscribe ∷ 0 ∷ 1 ∷ 0 ∷ 0 ∷ 0 ∷ 0 ∷ 0 ∷ 3 ∷ 0 ∷ 1 ∷ b'a' ∷ [];
  now = 101;
}

-- A round with three datagrams, a signal, a round without any, and an error.
abbrev waits : List Wait
waits =
    Wait.ready (subscription ∷ datagrams) 102
    ∷ Wait.interrupted
    ∷ Wait.ready [] 120
    ∷ Wait.failed
    ∷ []

waits-IsReadable : All IsReadable waits
waits-IsReadable = (omega arith, (tt, (tt, (tt, tt))))

-- Before any subscription.
abbrev fresh_broker : Broker ℕ
fresh_broker = record broker { subscribers = []; last_active = [] }

fresh_broker-IsValid : IsValid whole fresh_broker
fresh_broker-IsValid = record { moduli = λ on. (λ e. cc, λ e. cc); caches = tt }

start-IsLately_example :
    Returns
      (start whole env setup waits fresh_broker)
      (IsLately whole env (ttl_seconds + cleanup_interval_sec) (end_time 100 waits) waits)
start-IsLately_example =
    start-IsLately whole env setup waits fresh_broker waits-IsReadable
      ((omega arith, (omega arith, (omega arith, tt))), omega arith, (tt, omega arith, tt))
      fresh_broker-IsValid refl

-- The program on a file of three lines, without a parent.
abbrev machine : Machine
machine = record {
  has_argument = true;
  config_lines = some (
      (b'b' ∷ b'r' ∷ b'o' ∷ b'k' ∷ b'e' ∷ b'r' ∷ b'_' ∷ b'i' ∷ b'd' ∷ b'=' ∷ b'x' ∷ [])
      ∷ (b'l' ∷ b'i' ∷ b's' ∷ b't' ∷ b'e' ∷ b'n' ∷ b'_' ∷ b'p' ∷ b'o' ∷ b'r' ∷ b't' ∷ b'=' ∷ b'9'
          ∷ [])
      ∷ (b'c' ∷ b'o' ∷ b'o' ∷ b'r' ∷ b'd' ∷ b's' ∷ b'=' ∷ b'5' ∷ b',' ∷ b'5' ∷ [])
      ∷ []);
  stoi = λ t. some (pos 9, 1);
  stof = λ t. some 5;
  port_of = λ t. done 9;
  inet_pton = λ t. 1;
  unset = record { ip = 0; port = 0 };
  socket_opens = true;
  binds = true;
  key_opens = true;
  full_opens = true;
  paillier = small_paillier;
  key_lines = none;
  setup = setup;
  waits = waits;
}

-- Every prime is 3, a number of 1024 bits; every power is 1.
abbrev quick_gmp : Gmp
quick_gmp = record (toy_gmp 1) {
  powm = λ b e m. done (pos 1);
  size_in_base_2 = λ a. if eq_ℤ a (pos 0) then 0 else (if eq_ℤ a (pos 3) then 1024 else 2048);
  next_prime = λ a. pos 3;
}

abbrev quick_env : Env
quick_env = record env { gmp = quick_gmp }

-- The file is accepted, and the program starts as a root in encrypted mode.
machine_config :
    (c : BrokerConfig) × (parse_config signed machine.stoi machine.stof machine.config_lines
      ≡ some c)
unfolding parse_config split_first
machine_config = (_, refl)

machine_calm : IsCalm signed quick_env machine
unfolding key_gen gen_modulus gen_prime finish_key l_function one_for_zero
machine_calm = record {
  number = λ c e. (9, refl, tt);
  generated = (_, refl, tt);
  sized = λ e. omega (arith, e);
}

main-Returns_example : Returns (main signed quick_env machine) (Outcome signed quick_env machine)
main-Returns_example =
    main-Returns signed quick_env machine machine_calm waits-IsReadable
      ((omega arith, (omega arith, (omega arith, tt))), omega arith, (tt, omega arith, tt))
