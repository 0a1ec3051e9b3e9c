-- ===== src/Broker/State.antt =====
-- The data of broker/broker.h. The sockets are an `outbox`: the datagrams sent, oldest first.
use dns_plus_plus.Base.{ℕ, Bool, List, Text, Map, ℤ}
use dns_plus_plus.Geo.{Region, Four}
use dns_plus_plus.Crypto.Gmp.{Gmp}

-- `struct sockaddr_in`.
pub record Addr : Type 0 where
  pub ip : ℕ
  pub port : ℕ

-- The code that the broker only calls: GMP and `std::hash`, `std::to_string` and `inet_ntoa`.
pub record Env : Type 0 where
  pub gmp : Gmp
  pub to_string : ℕ → Text
  pub inet_ntoa : ℕ → Text

pub record GeoClient (D : Type 0) : Type 0 where
  pub addr : Addr
  pub lat : ℕ
  pub lon : ℕ
  pub cached_closest_dist : D
  pub blinded_m1 : Text
  pub blinded_m2 : Text

pub record CachedPub : Type 0 where
  pub lat : ℕ
  pub lon : ℕ
  pub raw_message : List ℕ

pub record ChildBroker (D : Type 0) : Type 0 where
  pub id : Text
  pub addr : Addr
  pub lat : ℕ
  pub lon : ℕ
  pub region : Region D
  pub active : Bool
  pub closest_quad : Four D

pub data BrakeScope : Type 0 where
  upward local both : BrakeScope

pub data BrakeDir : Type 0 where
  up local : BrakeDir

-- `brake_limit` and `brake_window_sec` are positive numbers: the configuration parser refuses others.
pub record BrokerConfig : Type 0 where
  pub broker_id : Text
  pub listen_port : ℕ
  pub parent_addr : Text
  pub lat : ℕ
  pub lon : ℕ
  pub brake_limit : ℕ
  pub brake_window_sec : ℕ
  pub brake_scope : BrakeScope
  pub require_he : Bool

pub record Stats : Type 0 where
  pub forward_up : ℕ
  pub forward_down : ℕ
  pub delivered_local : ℕ
  pub braked_up : ℕ
  pub braked_local : ℕ
  pub match_calls : ℕ
  pub match_hits : ℕ
  pub pub_received : ℕ
  pub sub_received : ℕ
  pub sub_groups : ℕ
  pub he_mode : ℕ

pub record Packet : Type 0 where
  pub dest : Addr
  pub bytes : List ℕ

abbrev pub Windows : Type 0
Windows = Map Text (Map ℕ (List ℕ))

pub record Broker (D : Type 0) : Type 0 where
  pub config : BrokerConfig
  pub my_region : Region D
  pub has_parent : Bool
  pub parent_addr : Addr
  pub children : Map Text (ChildBroker D)
  pub subscribers : Map Text (List (GeoClient D))
  pub pub_cache : Map Text (List CachedPub)
  pub last_active : Map Text ℕ
  pub brake_count_up : Windows
  pub brake_count_local : Windows
  pub child_active : Map Text (List Text)
  pub ot_parent : List Text
  pub stats : Stats
  pub he_n : ℤ
  pub he_mu : ℤ
  pub he_n_sq : ℤ
  pub he_enabled : Bool
  pub outbox : List Packet
