-- ===== src/Broker/Samples.antt =====
-- A concrete broker, on whole numbers in place of doubles.
use dns_plus_plus.Base.{
  ℕ, ◌+◌, ◌-◌, ◌*◌, ◌/◌, ◌%◌, ◌^◌, List, [], ◌∷◌, true, false, if◌then◌else◌, none, ltb, leb, ◌==◌,
  text_eq, pos, arith,
}
use dns_plus_plus.Tlv.MsgType
use dns_plus_plus.Geo.Numbers.{Floats, FloatLaws, FloatBits, OrderLaws}
use dns_plus_plus.Crypto.Runs.{toy_gmp}
use dns_plus_plus.Broker.State.{Env, GeoClient, BrakeScope, Broker}
use dns_plus_plus.Broker.Valid.{IsValid}
use dns_plus_plus.Broker.Publication.{Publication}
use dns_plus_plus.Broker.Service.{Datagram}

abbrev pub whole : Floats
whole = record {
  Double = ℕ;
  lt = ltb;
  le = leb;
  eq = ◌==◌;
  add = ◌+◌;
  sub = λ a b. a - b + (b - a);
  mul = ◌*◌;
  div = ◌/◌;
  cos = λ a. 1;
  sqrt = λ a. a;
  two = 2;
  pi = 3;
  one_eighty = 180;
  max_value = 1000000;
  widen = λ bits. bits;
  narrow = λ a. a % 2 ^ 32;
}

-- Patterns above the one of -0.0 are negative numbers: all below 0 here.
abbrev pub signed : Floats
signed = record whole { widen = λ bits. if ltb 0x80000000 bits then 0 else bits + 1 }

pub whole-FloatLaws : FloatLaws whole
whole-FloatLaws = record { lt_irrefl = λ a. ground arith }

pub whole-FloatBits : FloatBits whole
whole-FloatBits = record { narrow_fits = λ a. omega arith }

pub whole-OrderLaws : OrderLaws whole
whole-OrderLaws = record {
  lt_trans = λ a b c h k. ground (arith, h, k);
  le_trans = λ a b c h k. ground (arith, h, k);
  lt_le = λ a b h. ground (arith, h);
  not_lt_le = λ a b m n h. ground (arith, h);
}

abbrev pub env : Env
env = record { gmp = toy_gmp 1; to_string = λ n. n ∷ []; inet_ntoa = λ ip. ip ∷ [] }

abbrev pub near_client : GeoClient ℕ
near_client = record {
  addr = record { ip = 10; port = 1 };
  lat = 4;
  lon = 4;
  cached_closest_dist = 1000000;
  blinded_m1 = [];
  blinded_m2 = [];
}

abbrev pub far_client : GeoClient ℕ
far_client = record near_client { addr = record { ip = 10; port = 2 }; cached_closest_dist = 0 }

-- A broker with a parent and one group, whose last sign of life is at 100.
abbrev pub broker : Broker ℕ
broker = record {
  config = record {
    broker_id = b'x' ∷ [];
    listen_port = 9000;
    parent_addr = [];
    lat = 3;
    lon = 3;
    brake_limit = 2;
    brake_window_sec = 5;
    brake_scope = BrakeScope.both;
    require_he = false;
  };
  my_region = record { min_lat = 3; max_lat = 3; min_lon = 3; max_lon = 3 };
  has_parent = true;
  parent_addr = record { ip = 1; port = 9001 };
  children = [];
  subscribers = (b'a' ∷ [], near_client ∷ far_client ∷ []) ∷ [];
  pub_cache = [];
  last_active = (b'a' ∷ [], 100) ∷ [];
  brake_count_up = [];
  brake_count_local = [];
  child_active = [];
  ot_parent = [];
  stats = record {
    forward_up = 0;
    forward_down = 0;
    delivered_local = 0;
    braked_up = 0;
    braked_local = 0;
    match_calls = 0;
    match_hits = 0;
    pub_received = 0;
    sub_received = 0;
    sub_groups = 0;
    he_mode = 0;
  };
  he_n = pos 15;
  he_mu = pos 4;
  he_n_sq = pos 225;
  he_enabled = true;
  outbox = [];
}

pub broker-IsValid : IsValid whole broker
broker-IsValid = record { moduli = λ on. (λ e. cc, λ e. cc); caches = tt }

abbrev pub publication : Publication
publication = record {
  key = b'a' ∷ [];
  lat = 5;
  lon = 5;
  from_child = false;
  from_parent = false;
  from_id = [];
  payload = none;
  blinded = none;
  raw = 1 ∷ 2 ∷ 3 ∷ [];
}

-- A PUBLISH of "a" without coordinates, and a datagram that is too short.
abbrev pub datagrams : List Datagram
datagrams =
    record {
      sender = record { ip = 10; port = 3 };
      bytes = 0 ∷ MsgType.publish ∷ 0 ∷ 1 ∷ 0 ∷ 0 ∷ 0 ∷ 0 ∷ 0 ∷ 3 ∷ 0 ∷ 1 ∷ b'a' ∷ [];
      now = 101;
    }
    ∷ record { sender = record { ip = 10; port = 3 }; bytes = 255 ∷ 0 ∷ []; now = 102 }
    ∷ []
