-- ===== src/Broker/Match.antt =====
-- `executeMatch`, with the counters that it moves, and `hashServiceName`.
use dns_plus_plus.Base.{Bool, if◌then◌else◌, Access, done, ◌>>=◌, Text, inc_64}
use dns_plus_plus.Geo.Numbers.{Floats}
use dns_plus_plus.Crypto.Gmp.{Gmp}
use dns_plus_plus.Crypto.Threshold.{match_test}
use dns_plus_plus.Broker.State.{Broker, Env}

module _ (f : Floats) (env : Env) where
  open f use {Double}

  unfoldable pub count_call : Broker Double → Broker Double
  count_call s = record s { stats = record s.stats { match_calls = inc_64 s.stats.match_calls } }

  unfoldable pub count_hit : Bool → Broker Double → Broker Double
  count_hit hit s =
      if hit
      then record s { stats = record s.stats { match_hits = inc_64 s.stats.match_hits } }
      else s

  unfoldable pub execute_match : Text → Text → Text → Broker Double → Access (Broker Double × Bool)
  unfolding count_call count_hit
  execute_match bval_n bval_m1 bval_m2 s = do
    hit ← match_test env.gmp s.he_n s.he_mu s.he_n_sq bval_n bval_m1 bval_m2
    done (count_hit hit (count_call s), hit)

  unfoldable pub hash_service_name : Text → Text
  hash_service_name name = env.to_string (Gmp.hash env.gmp name)
