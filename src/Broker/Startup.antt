-- ===== src/Broker/Startup.antt =====
-- The constructor of the broker and `initCrypto`. A file is the list of its lines, `none` where it
-- cannot be opened; `none` as a result is `exit(EXIT_FAILURE)`.
use dns_plus_plus.Base.{
  ℕ, ◌%◌, ◌^◌, Bool, true, false, not, List, [], ◌∷◌, Option, none, some, if◌then◌else◌, Access,
  done, ◌>>=◌, Text, ◌==◌, ℤ, pos, ◌*ℤ◌, eq_ℤ,
}
use dns_plus_plus.Geo.Numbers.{Floats}
use dns_plus_plus.Crypto.Gmp.{Gmp}
use dns_plus_plus.Crypto.Paillier.{Paillier, key_gen}
use dns_plus_plus.Crypto.Threshold.{is_empty}
use dns_plus_plus.Broker.State.{Broker, BrokerConfig, Addr}
use dns_plus_plus.Broker.Membership.{point_region}

-- What the root writes for the leaf brokers and for the clients.
pub record KeyFiles : Type 0 where
  pub public_lines : List Text
  pub full_lines : List Text

-- The text before and behind the first separator.
unfoldable pub split_first : ℕ → Text → Option (Text × Text)
split_first sep [] = none
split_first sep (c ∷ cs) =
    if c == sep
    then some ([], cs)
    else elim (split_first sep cs) [ none ↦ none | some (a, b) ↦ some (c ∷ a, b) ]

-- At the first colon; without one, `npos + 1` is 0 and both are the whole.
unfoldable pub ip_and_port : Text → Text × Text
unfolding split_first
ip_and_port t = elim (split_first b':' t) [ none ↦ (t, t) | some parts ↦ parts ]

module _ (gmp : Gmp) where
  open gmp use {from_hex, to_hex}

  unfoldable pub key_files : Paillier → KeyFiles
  key_files k = record {
    public_lines = to_hex k.n ∷ to_hex k.mu ∷ [];
    full_lines =
        to_hex k.n
        ∷ to_hex k.mu
        ∷ to_hex k.lambda
        ∷ to_hex k.e_m
        ∷ to_hex k.d_m
        ∷ to_hex k.r_m
        ∷ [];
  }

  -- The public key in the file of a leaf broker: two lines, and a modulus that is not 0.
  unfoldable pub leaf_key : Option (List Text) → Option (ℤ × ℤ)
  leaf_key none = none
  leaf_key (some []) = none
  leaf_key (some (n_hex ∷ [])) = none
  leaf_key (some (n_hex ∷ mu_hex ∷ lines)) =
      if eq_ℤ (from_hex n_hex) (pos 0) then none else some (from_hex n_hex, from_hex mu_hex)

module _ (f : Floats) where
  open f use {Double}

  unfoldable pub enable : ℤ → ℤ → Broker Double → Broker Double
  enable n mu s = record s { he_n = n; he_mu = mu; he_n_sq = n *ℤ n; he_enabled = true }

  -- The root: a new key, and both files written.
  unfoldable pub init_root :
      Gmp → Bool → Bool → Paillier → Broker Double → Access (Option (Broker Double × KeyFiles))
  unfolding key_files enable
  init_root gmp key_opens full_opens p s = key_gen gmp 2048 p >>= λ k.
      if key_opens
      then (if full_opens then done (some (enable k.n k.mu s, key_files gmp k)) else done none)
      else done none

  -- A leaf: encrypted with the key of the file, else plaintext or the end.
  unfoldable pub init_leaf : Gmp → Option (List Text) → Broker Double → Option (Broker Double)
  unfolding leaf_key enable
  init_leaf gmp lines s = elim (leaf_key gmp lines) [
    | none ↦ if s.config.require_he then none else some (record s { he_enabled = false })
    | some (n, mu) ↦ some (enable n mu s)
  ]

  -- A leaf writes no files, the root writes both.
  abbrev pub of_leaf : Option (Broker Double) → Option (Broker Double × Option KeyFiles)
  of_leaf none = none
  of_leaf (some s) = some (s, none)

  abbrev pub of_root : Option (Broker Double × KeyFiles) → Option (Broker Double × Option KeyFiles)
  of_root none = none
  of_root (some (s, files)) = some (s, some files)

  -- `initCrypto`, with the files that it writes.
  unfoldable pub init_crypto :
      Gmp
      → Bool
      → Bool
      → Paillier
      → Option (List Text)
      → Broker Double
      → Access (Option (Broker Double × Option KeyFiles))
  unfolding init_root init_leaf
  init_crypto gmp key_opens full_opens p lines s =
      if s.has_parent
      then done (of_leaf (init_leaf gmp lines s))
      else (init_root gmp key_opens full_opens p s >>= λ r. done (of_root r))

  -- The members before `initCrypto`; `std::stoi` and `inet_pton` are parameters.
  unfoldable pub construct :
      (Text → Access ℕ) → (Text → ℕ) → BrokerConfig → Addr → Access (Broker Double)
  unfolding ip_and_port
  construct stoi inet_pton config unset =
      let parts = ip_and_port config.parent_addr in
      let blank : Addr → Broker Double = λ parent. record {
        config = config;
        my_region = point_region f config.lat config.lon;
        has_parent = not (is_empty config.parent_addr);
        parent_addr = parent;
        children = [];
        subscribers = [];
        pub_cache = [];
        last_active = [];
        brake_count_up = [];
        brake_count_local = [];
        child_active = [];
        ot_parent = [];
        stats = record {
          forward_up = 0;
          forward_down = 0;
          delivered_local = 0;
          braked_up = 0;
          braked_local = 0;
          match_calls = 0;
          match_hits = 0;
          pub_received = 0;
          sub_received = 0;
          sub_groups = 0;
          he_mode = 0;
        };
        he_n = pos 0;
        he_mu = pos 0;
        he_n_sq = pos 0;
        he_enabled = false;
        outbox = [];
      } in
      if is_empty config.parent_addr
      then done (blank unset)
      else (stoi parts.1 >>= λ port.
          done (blank (record { ip = inet_pton parts.0; port = port % 2 ^ 16 })))
