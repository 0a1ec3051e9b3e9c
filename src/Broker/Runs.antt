-- ===== src/Broker/Runs.antt =====
-- The theorems on the broker of Broker.Samples.
use dns_plus_plus.Base.{
  Text, some, ℕ, ◌≡◌, refl, List, [], ◌∷◌, ◌++◌, true, false, none, ◌==◌, ◌&&◌, if◌then◌else◌, done,
  Returns, text_beq, text_eq, find, pos, arith, read_16,
}
use dns_plus_plus.Tlv.Builder.{build, add_flags, add_coordinates, add_service_name, new_builder}
use dns_plus_plus.Crypto.Gmp.{Gmp}
use dns_plus_plus.Crypto.Runs.{toy_gmp, toy_laws, small_paillier, wide_heps}
use dns_plus_plus.Crypto.Heps.{load_state}
use dns_plus_plus.Broker.Startup.{
  split_first, KeyFiles, key_files, enable, leaf_key, init_leaf, init_crypto,
}
use dns_plus_plus.Broker.Config.{parse_config}
use dns_plus_plus.Broker.Settings.{IsUsable, parse_config-IsUsable}
use dns_plus_plus.Broker.Keys.{key_files-read, init_crypto-IsValid}
use dns_plus_plus.Broker.State.{BrokerConfig, BrakeScope, BrakeDir, Broker}
use dns_plus_plus.Broker.Brake.{brake_allows, get_quadrant, queue_of, windows_of}
use dns_plus_plus.Broker.Window.{decisions, allowed, decisions-allowed}
use dns_plus_plus.Broker.Valid.{IsValid}
use dns_plus_plus.Broker.Send.{forward_subscription}
use dns_plus_plus.Broker.Publish.{deliver_all}
use dns_plus_plus.Broker.Service.{serve_round, cleanup_expired}
use dns_plus_plus.Broker.Safety.Receiving.{serve_round-Returns}
use dns_plus_plus.Broker.Expiry.{is_expired, find-cleanup_expired}
use dns_plus_plus.Broker.Delivery.{packets, outbox-deliver_all, deliver_all_again}
use dns_plus_plus.Broker.Forwards.{forward_subscription_again}
use dns_plus_plus.Broker.Isolation.{decision, same_dir, queue_of-brake_allows}
use dns_plus_plus.Broker.Samples.{
  whole, signed, whole-FloatLaws, env, near_client, far_client, broker, broker-IsValid, publication,
  datagrams,
}

serve_round-Returns_example :
    Returns (serve_round whole env datagrams 120 100 broker) (λ r. IsValid whole r.0)
serve_round-Returns_example =
    serve_round-Returns whole env datagrams 120 100 broker (omega arith) broker-IsValid

decisions-allowed_example :
    decisions 2 5 (0 ∷ 1 ∷ 2 ∷ 7 ∷ []) [] ≡ allowed 2 5 (0 ∷ 1 ∷ 2 ∷ 7 ∷ []) []
decisions-allowed_example = decisions-allowed 2 5 (0 ∷ 1 ∷ 2 ∷ 7 ∷ []) (omega arith)

find-cleanup_expired_example :
    find (b'a' ∷ []) (cleanup_expired whole env 120 broker).subscribers ≡ (
      if is_expired whole env 120 (b'a' ∷ []) broker
      then none
      else find (b'a' ∷ []) broker.subscribers)
find-cleanup_expired_example = find-cleanup_expired whole env 120 (b'a' ∷ []) broker

outbox-deliver_all_example :
    (deliver_all whole publication (near_client ∷ far_client ∷ []) broker).1.outbox
    ≡ broker.outbox ++ packets whole publication (near_client ∷ far_client ∷ [])
outbox-deliver_all_example =
    outbox-deliver_all whole publication (near_client ∷ far_client ∷ []) broker

deliver_all_again_example :
    deliver_all whole publication
      (deliver_all whole publication (near_client ∷ far_client ∷ []) broker).0
      broker
    ≡ ((deliver_all whole publication (near_client ∷ far_client ∷ []) broker).0, broker)
deliver_all_again_example =
    deliver_all_again whole whole-FloatLaws publication (near_client ∷ far_client ∷ []) broker
      broker

abbrev forwarded : Broker ℕ
forwarded = record broker {
  ot_parent = (b'a' ∷ []) ∷ [];
  outbox =
      record {
        dest = broker.parent_addr;
        bytes =
            0 ∷ 1 ∷ 0 ∷ 3 ∷ 0 ∷ 0 ∷ 0 ∷ 0 ∷ 0 ∷ 3 ∷ 0 ∷ 1 ∷ b'a' ∷ 0 ∷ 1 ∷ 0 ∷ 8 ∷ 0 ∷ 0 ∷ 0 ∷ 3 ∷ 0
            ∷ 0 ∷ 0 ∷ 3 ∷ 0 ∷ 2 ∷ 0 ∷ 4 ∷ 0 ∷ 0 ∷ 0 ∷ 2 ∷ [];
      }
      ∷ [];
}

forward_once : forward_subscription whole (b'a' ∷ []) broker ≡ done forwarded
unfolding forward_subscription build add_flags add_coordinates add_service_name new_builder read_16
forward_once = refl

forward_subscription_again_example :
    forward_subscription whole (b'a' ∷ []) forwarded ≡ done forwarded
forward_subscription_again_example =
    forward_subscription_again whole (b'a' ∷ []) broker forwarded forward_once

queue_of-brake_allows_example :
    queue_of
      (b'a' ∷ [])
      0
      (windows_of whole BrakeDir.up (brake_allows whole BrakeDir.up (b'a' ∷ []) 3 3 7 broker).0)
    ≡ (if same_dir BrakeDir.up BrakeDir.up
        then (if text_beq (b'a' ∷ []) (b'a' ∷ []) && get_quadrant whole 3 3 == 0
            then (decision whole BrakeDir.up (b'a' ∷ []) 3 3 7 broker).0
            else queue_of (b'a' ∷ []) 0 (windows_of whole BrakeDir.up broker))
        else queue_of (b'a' ∷ []) 0 (windows_of whole BrakeDir.up broker))
queue_of-brake_allows_example =
    queue_of-brake_allows whole BrakeDir.up BrakeDir.up (b'a' ∷ []) (b'a' ∷ []) 3 3 7 0 broker

key_files-read_example :
    (init_leaf whole
        (toy_gmp 1)
        (some (KeyFiles.public_lines (key_files (toy_gmp 1) small_paillier)))
        broker
      ≡ some (record broker { he_n = pos 15; he_mu = pos 4; he_n_sq = pos 225; he_enabled = true }))
    × (load_state
          (toy_gmp 1)
          (some (KeyFiles.full_lines (key_files (toy_gmp 1) small_paillier)))
          wide_heps
        ≡ (
          record {
            paillier = record wide_heps.paillier {
              n = pos 15;
              g = pos 16;
              mu = pos 4;
              lambda = small_paillier.lambda;
              n_sq = pos 225;
              e_m = small_paillier.e_m;
              d_m = small_paillier.d_m;
              r_m = small_paillier.r_m;
            };
            n = pos 15;
            mu = pos 4;
          },
          true,
        ))
key_files-read_example =
    key_files-read whole (toy_gmp 1) (toy_laws 1) small_paillier broker wide_heps (λ e. cc)

abbrev small_gmp : Gmp
small_gmp = record (toy_gmp 1) { size_in_base_2 = λ a. 1 }

start_leaf :
    init_crypto whole small_gmp true true small_paillier
      (some ((0 ∷ 15 ∷ []) ∷ (0 ∷ 4 ∷ []) ∷ []))
      broker
    ≡ done (some (enable whole (pos 15) (pos 4) broker, none))
unfolding init_crypto init_leaf leaf_key
start_leaf = refl

init_crypto-IsValid_example : IsValid whole (enable whole (pos 15) (pos 4) broker)
init_crypto-IsValid_example =
    init_crypto-IsValid whole small_gmp true true small_paillier
      (some ((0 ∷ 15 ∷ []) ∷ (0 ∷ 4 ∷ []) ∷ [])) broker (enable whole (pos 15) (pos 4) broker) none
      (λ e. cc) broker-IsValid start_leaf

abbrev config_lines : List Text
config_lines =
    (b'b' ∷ b'r' ∷ b'o' ∷ b'k' ∷ b'e' ∷ b'r' ∷ b'_' ∷ b'i' ∷ b'd' ∷ b'=' ∷ b'x' ∷ [])
    ∷ (b'#' ∷ b' ' ∷ b'n' ∷ b'o' ∷ b' ' ∷ b'p' ∷ b'a' ∷ b'r' ∷ b'e' ∷ b'n' ∷ b't' ∷ [])
    ∷ (b'l' ∷ b'i' ∷ b's' ∷ b't' ∷ b'e' ∷ b'n' ∷ b'_' ∷ b'p' ∷ b'o' ∷ b'r' ∷ b't' ∷ b'=' ∷ b'9'
        ∷ [])
    ∷ (b'c' ∷ b'o' ∷ b'o' ∷ b'r' ∷ b'd' ∷ b's' ∷ b'=' ∷ b'5' ∷ b',' ∷ b'5' ∷ [])
    ∷ []

abbrev config : BrokerConfig
config = record {
  broker_id = b'x' ∷ [];
  listen_port = 9;
  parent_addr = [];
  lat = 5;
  lon = 5;
  brake_limit = 2;
  brake_window_sec = 10;
  brake_scope = BrakeScope.both;
  require_he = false;
}

parse_config-lines :
    parse_config signed (λ t. some (pos 9, 1)) (λ t. some 5) (some config_lines) ≡ some config
unfolding parse_config split_first
parse_config-lines = refl

parse_config-IsUsable_example : IsUsable config
parse_config-IsUsable_example =
    parse_config-IsUsable signed (λ t. some (pos 9, 1)) (λ t. some 5) config_lines config
      parse_config-lines
