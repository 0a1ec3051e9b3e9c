-- ===== src/Broker/Settings.antt =====
-- Proofs on `parseConfig`.
use dns_plus_plus.Base.{
  ℕ, ◌≤◌, ◌≡◌, refl, subst, Bool, true, false, ◌&&◌, ◌||◌, List, [], ◌∷◌, Option, none, some,
  if◌then◌else◌, if-cases, ◌==◌, Text, text_beq, ℤ, arith,
}
use dns_plus_plus.Geo.Numbers.{Floats}
use dns_plus_plus.Crypto.Threshold.{is_empty}
use dns_plus_plus.Broker.State.{BrokerConfig}
use dns_plus_plus.Broker.Startup.{split_first}
use dns_plus_plus.Broker.Config.{
  Parsing, defaults, set_port, set_limit, set_window, drop_return, parse_int_field, set_int,
  set_coords, set_field, parse_line, parse_lines, finish_config, parse_config,
}
use dns_plus_plus.Broker.Setters.{
  IsRead, Keeps, set_broker_id-Keeps, set_port-Keeps, set_limit-Keeps, set_window-Keeps,
  set_parent_addr-Keeps, set_require_he-Keeps, set_scope-Keeps,
}

-- The record of a configuration that may start a broker.
pub record IsUsable (c : BrokerConfig) : Type 0 where
  pub limit : 1 ≤ c.brake_limit
  pub window : 1 ≤ c.brake_window_sec
  pub id : is_empty c.broker_id ≡ false
  pub port : (1 ≤ c.listen_port) × (c.listen_port ≤ 65535)

module _ (f : Floats) (stoi : Text → Option (ℤ × ℕ)) (stof : Text → Option ℕ) where
  open f use {lt, widen}

  set_int-Keeps :
      (set : ℤ → Parsing → Option Parsing) (val : Text) (p : Parsing)
      → ((v : ℤ) → Keeps (set v p))
      → Keeps (set_int f stoi stof set val p)
  unfolding set_int
  set_int-Keeps set val p keeps = found (parse_int_field f stoi stof val)
    where
      found : (o : Option ℤ) → Keeps (elim o [ none ↦ none | some v ↦ set v p ])
      found none = tt
      found (some v) = keeps v

  set_coords-Keeps : (val : Text) (p : Parsing) → IsRead p → Keeps (set_coords f stoi stof val p)
  unfolding set_coords
  set_coords-Keeps val p r = found (split_first b',' val)
    where
      outside : ℕ → ℕ → Bool
      outside lat lon =
          lt (widen lat) (widen 0xC2B40000)
          || lt (widen 0x42B40000) (widen lat)
          || lt (widen lon) (widen 0xC3340000)
          || lt (widen 0x43340000) (widen lon)

      placed : ℕ → ℕ → Option Parsing
      placed lat lon =
          if outside lat lon
          then none
          else some (record p { cfg = record p.cfg { lat = lat; lon = lon }; have_coords = true })

      with_lon :
          (lat : ℕ) (o : Option ℕ) → Keeps (elim o [ none ↦ none | some lon ↦ placed lat lon ])
      with_lon lat none = tt
      with_lon lat (some lon) =
          if-cases Keeps (outside lat lon) tt
            (record { limit = r.limit; window = r.window; id = r.id; port = r.port })

      with_lat :
          (t : Text) (o : Option ℕ)
          → Keeps (elim o [
            | none ↦ none
            | some lat ↦ elim (stof t) [ none ↦ none | some lon ↦ placed lat lon ]
          ])
      with_lat t none = tt
      with_lat t (some lat) = with_lon lat (stof t)

      found :
          (o : Option (Text × Text))
          → Keeps (elim o [
            | none ↦ none
            | some (a, b) ↦ elim (stof a) [
              | none ↦ none
              | some lat ↦ elim (stof b) [ none ↦ none | some lon ↦ placed lat lon ]
            ]
          ])
      found none = tt
      found (some (a, b)) = with_lat b (stof a)

  set_field-Keeps :
      (key val : Text) (p : Parsing) → IsRead p → Keeps (set_field f stoi stof key val p)
  unfolding set_field
  set_field-Keeps key val p r =
      if-cases Keeps
        (text_beq key (b'b' ∷ b'r' ∷ b'o' ∷ b'k' ∷ b'e' ∷ b'r' ∷ b'_' ∷ b'i' ∷ b'd' ∷ []))
        (set_broker_id-Keeps val p r)
        (if-cases Keeps
          (text_beq key
            (b'l' ∷ b'i' ∷ b's' ∷ b't' ∷ b'e' ∷ b'n' ∷ b'_' ∷ b'p' ∷ b'o' ∷ b'r' ∷ b't' ∷ []))
          (set_int-Keeps set_port val p (λ v. set_port-Keeps v p r))
          (if-cases Keeps
            (text_beq key
              (b'p' ∷ b'a' ∷ b'r' ∷ b'e' ∷ b'n' ∷ b't' ∷ b'_' ∷ b'a' ∷ b'd' ∷ b'd' ∷ b'r' ∷ []))
            (set_parent_addr-Keeps val p r)
            (if-cases Keeps (text_beq key (b'c' ∷ b'o' ∷ b'o' ∷ b'r' ∷ b'd' ∷ b's' ∷ []))
              (set_coords-Keeps val p r)
              (if-cases Keeps
                (text_beq key
                  (b'b' ∷ b'r' ∷ b'a' ∷ b'k' ∷ b'e' ∷ b'_' ∷ b'l' ∷ b'i' ∷ b'm' ∷ b'i' ∷ b't' ∷ []))
                (set_int-Keeps set_limit val p (λ v. set_limit-Keeps v p r))
                (if-cases Keeps
                  (text_beq key (
                    b'b' ∷ b'r' ∷ b'a' ∷ b'k' ∷ b'e' ∷ b'_' ∷ b'w' ∷ b'i' ∷ b'n' ∷ b'd' ∷ b'o'
                    ∷ b'w' ∷ []))
                  (set_int-Keeps set_window val p (λ v. set_window-Keeps v p r))
                  (if-cases Keeps
                    (text_beq key
                      (b'r' ∷ b'e' ∷ b'q' ∷ b'u' ∷ b'i' ∷ b'r' ∷ b'e' ∷ b'_' ∷ b'h' ∷ b'e' ∷ []))
                    (set_require_he-Keeps val p r)
                    (if-cases Keeps
                      (text_beq key (
                        b'b' ∷ b'r' ∷ b'a' ∷ b'k' ∷ b'e' ∷ b'_' ∷ b's' ∷ b'c' ∷ b'o' ∷ b'p' ∷ b'e'
                        ∷ []))
                      (set_scope-Keeps val p r) tt)))))))

  parse_line-Keeps : (line : Text) (p : Parsing) → IsRead p → Keeps (parse_line f stoi stof line p)
  unfolding parse_line
  parse_line-Keeps [] p r = r
  parse_line-Keeps (c ∷ cs) p r = if-cases Keeps (c == b'#') r (found (split_first b'=' (c ∷ cs)))
    where
      found :
          (o : Option (Text × Text))
          → Keeps (elim o [ none ↦ none | some (key, val) ↦ set_field f stoi stof key val p ])
      found none = tt
      found (some (key, val)) = set_field-Keeps key val p r

  parse_lines-Keeps :
      (lines : List Text) (p : Parsing) → IsRead p → Keeps (parse_lines f stoi stof lines p)
  unfolding parse_lines
  parse_lines-Keeps [] p r = r
  parse_lines-Keeps (line ∷ lines) p r =
      next (parse_line f stoi stof (drop_return line) p) (parse_line-Keeps (drop_return line) p r)
        (λ p' r'. parse_lines-Keeps lines p' r')
    where
      next :
          (o : Option Parsing)
          → Keeps o
          → ((p' : Parsing) → IsRead p' → Keeps (parse_lines f stoi stof lines p'))
          → Keeps (elim o [ none ↦ none | some p' ↦ parse_lines f stoi stof lines p' ])
      next none k later = tt
      next (some p') k later = later p' k

  finish_config-IsUsable :
      (p : Parsing) (c : BrokerConfig)
      → IsRead p
      → finish_config f stoi stof p ≡ some c
      → IsUsable c
  unfolding finish_config
  finish_config-IsUsable p c r e =
      all_there p.have_broker_id p.have_listen_port p.have_coords refl refl e
    where
      all_there :
          (a b d : Bool)
          → p.have_broker_id ≡ a
          → p.have_listen_port ≡ b
          → (if a && b && d then some p.cfg else none) ≡ some c
          → IsUsable c
      all_there true true true x y h =
          let eq : p.cfg ≡ c = cc in
          subst IsUsable eq
            (record { limit = r.limit; window = r.window; id = r.id x; port = r.port y })
      all_there true true false x y h = cc
      all_there true false d x y h = cc
      all_there false b d x y h = cc

  -- Every configuration that `parseConfig` accepts has a brake limit and a brake window of at
  -- least one, a broker id that is not empty and a port from 1 to 65535.
  pub parse_config-IsUsable :
      (lines : List Text) (c : BrokerConfig)
      → parse_config f stoi stof (some lines) ≡ some c
      → IsUsable c
  unfolding parse_config
  parse_config-IsUsable lines c e =
      parsed (parse_lines f stoi stof lines defaults)
        (parse_lines-Keeps lines defaults
          (record { limit = omega arith; window = omega arith; id = λ on. cc; port = λ on. cc }))
        e
    where
      parsed :
          (o : Option Parsing)
          → Keeps o
          → elim o [ none ↦ none | some p ↦ finish_config f stoi stof p ] ≡ some c
          → IsUsable c
      parsed none k h = cc
      parsed (some p) k h = finish_config-IsUsable p c k h
