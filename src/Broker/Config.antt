-- ===== src/Broker/Config.antt =====
-- `parseConfig` of main.cpp. `none` is `configError`, which ends the process; `std::stoi` with the
-- position it stops at and `std::stof` are parameters, `none` where they throw.
use dns_plus_plus.Base.{
  ℕ, Bool, true, false, ◌&&◌, ◌||◌, List, [], ◌∷◌, Option, none, some, if◌then◌else◌, ltb, ◌==◌,
  length, Text, text_beq, ℤ, pos, negsuc,
}
use dns_plus_plus.Geo.Numbers.{Floats}
use dns_plus_plus.Crypto.Threshold.{is_empty}
use dns_plus_plus.Broker.State.{BrokerConfig, BrakeScope}
use dns_plus_plus.Broker.Startup.{split_first}

-- The local variables of the loop.
pub record Parsing : Type 0 where
  pub cfg : BrokerConfig
  pub have_broker_id : Bool
  pub have_listen_port : Bool
  pub have_coords : Bool

abbrev pub defaults : Parsing
defaults = record {
  cfg = record {
    broker_id = [];
    listen_port = 0;
    parent_addr = [];
    lat = 0;
    lon = 0;
    brake_limit = 2;
    brake_window_sec = 10;
    brake_scope = BrakeScope.both;
    require_he = false;
  };
  have_broker_id = false;
  have_listen_port = false;
  have_coords = false;
}

unfoldable pub set_broker_id : Text → Parsing → Option Parsing
set_broker_id val p =
    if is_empty val
    then none
    else some (record p { cfg = record p.cfg { broker_id = val }; have_broker_id = true })

unfoldable pub set_port : ℤ → Parsing → Option Parsing
set_port (pos n) p =
    if ltb n 1 || ltb 65535 n
    then none
    else some (record p { cfg = record p.cfg { listen_port = n }; have_listen_port = true })
set_port (negsuc n) p = none

unfoldable pub set_parent_addr : Text → Parsing → Option Parsing
set_parent_addr val p = elim (split_first b':' val) [
  | none ↦
      if is_empty val then some (record p { cfg = record p.cfg { parent_addr = val } }) else none
  | some parts ↦ some (record p { cfg = record p.cfg { parent_addr = val } })
]

unfoldable pub set_limit : ℤ → Parsing → Option Parsing
set_limit (pos n) p =
    if ltb n 1 then none else some (record p { cfg = record p.cfg { brake_limit = n } })
set_limit (negsuc n) p = none

unfoldable pub set_window : ℤ → Parsing → Option Parsing
set_window (pos n) p =
    if ltb n 1 then none else some (record p { cfg = record p.cfg { brake_window_sec = n } })
set_window (negsuc n) p = none

unfoldable pub set_require_he : Text → Parsing → Option Parsing
set_require_he val p =
    if text_beq val (b't' ∷ b'r' ∷ b'u' ∷ b'e' ∷ []) || text_beq val (b'1' ∷ [])
    then some (record p { cfg = record p.cfg { require_he = true } })
    else (if text_beq val (b'f' ∷ b'a' ∷ b'l' ∷ b's' ∷ b'e' ∷ []) || text_beq val (b'0' ∷ [])
        then some (record p { cfg = record p.cfg { require_he = false } })
        else none)

unfoldable pub set_scope : Text → Parsing → Option Parsing
set_scope val p =
    if text_beq val (b'u' ∷ b'p' ∷ b'w' ∷ b'a' ∷ b'r' ∷ b'd' ∷ [])
    then some (record p { cfg = record p.cfg { brake_scope = BrakeScope.upward } })
    else (if text_beq val (b'l' ∷ b'o' ∷ b'c' ∷ b'a' ∷ b'l' ∷ [])
        then some (record p { cfg = record p.cfg { brake_scope = BrakeScope.local } })
        else (if text_beq val (b'b' ∷ b'o' ∷ b't' ∷ b'h' ∷ [])
            then some (record p { cfg = record p.cfg { brake_scope = BrakeScope.both } })
            else none))

-- A line without the `\r` at its end.
unfoldable pub drop_return : Text → Text
drop_return [] = []
drop_return (c ∷ []) = if c == 13 then [] else c ∷ []
drop_return (c ∷ d ∷ cs) = c ∷ drop_return (d ∷ cs)

module _ (f : Floats) (stoi : Text → Option (ℤ × ℕ)) (stof : Text → Option ℕ) where
  open f use {lt, widen}

  unfoldable pub parse_int_field : Text → Option ℤ
  parse_int_field val = elim (stoi val) [
    | none ↦ none
    | some (parsed, at) ↦ if at == length val then some parsed else none
  ]

  unfoldable pub set_int : (ℤ → Parsing → Option Parsing) → Text → Parsing → Option Parsing
  unfolding parse_int_field
  set_int set val p = elim (parse_int_field val) [ none ↦ none | some v ↦ set v p ]

  -- The bounds are the patterns of -90, 90, -180 and 180.
  unfoldable pub set_coords : Text → Parsing → Option Parsing
  set_coords val p = elim (split_first b',' val) [
    | none ↦ none
    | some (lat_text, lon_text) ↦ elim (stof lat_text) [
      | none ↦ none
      | some lat ↦ elim (stof lon_text) [
        | none ↦ none
        | some lon ↦
            if lt (widen lat) (widen 0xC2B40000)
              || lt (widen 0x42B40000) (widen lat)
              || lt (widen lon) (widen 0xC3340000)
              || lt (widen 0x43340000) (widen lon)
            then none
            else some (record p { cfg = record p.cfg { lat = lat; lon = lon }; have_coords = true })
      ]
    ]
  ]

  -- The chain on the key.
  unfoldable pub set_field : Text → Text → Parsing → Option Parsing
  unfolding set_broker_id set_port set_parent_addr set_limit set_window set_require_he set_scope
      set_int set_coords
  set_field key val p =
      if text_beq key (b'b' ∷ b'r' ∷ b'o' ∷ b'k' ∷ b'e' ∷ b'r' ∷ b'_' ∷ b'i' ∷ b'd' ∷ [])
      then set_broker_id val p
      else (if text_beq key
            (b'l' ∷ b'i' ∷ b's' ∷ b't' ∷ b'e' ∷ b'n' ∷ b'_' ∷ b'p' ∷ b'o' ∷ b'r' ∷ b't' ∷ [])
          then set_int set_port val p
          else (if text_beq key
                (b'p' ∷ b'a' ∷ b'r' ∷ b'e' ∷ b'n' ∷ b't' ∷ b'_' ∷ b'a' ∷ b'd' ∷ b'd' ∷ b'r' ∷ [])
              then set_parent_addr val p
              else (if text_beq key (b'c' ∷ b'o' ∷ b'o' ∷ b'r' ∷ b'd' ∷ b's' ∷ [])
                  then set_coords val p
                  else (if text_beq key (
                        b'b' ∷ b'r' ∷ b'a' ∷ b'k' ∷ b'e' ∷ b'_' ∷ b'l' ∷ b'i' ∷ b'm' ∷ b'i' ∷ b't'
                        ∷ [])
                      then set_int set_limit val p
                      else (if text_beq key (
                            b'b' ∷ b'r' ∷ b'a' ∷ b'k' ∷ b'e' ∷ b'_' ∷ b'w' ∷ b'i' ∷ b'n' ∷ b'd'
                            ∷ b'o' ∷ b'w' ∷ [])
                          then set_int set_window val p
                          else (if text_beq key (
                                b'r' ∷ b'e' ∷ b'q' ∷ b'u' ∷ b'i' ∷ b'r' ∷ b'e' ∷ b'_' ∷ b'h' ∷ b'e'
                                ∷ [])
                              then set_require_he val p
                              else (if text_beq key (
                                    b'b' ∷ b'r' ∷ b'a' ∷ b'k' ∷ b'e' ∷ b'_' ∷ b's' ∷ b'c' ∷ b'o'
                                    ∷ b'p' ∷ b'e' ∷ [])
                                  then set_scope val p
                                  else none)))))))

  -- One line: empty ones and comments are skipped.
  unfoldable pub parse_line : Text → Parsing → Option Parsing
  unfolding set_field
  parse_line [] p = some p
  parse_line (c ∷ cs) p =
      if c == b'#'
      then some p
      else elim (split_first b'=' (c ∷ cs)) [ none ↦ none | some (key, val) ↦ set_field key val p ]

  unfoldable pub parse_lines : List Text → Parsing → Option Parsing
  unfolding parse_line drop_return
  parse_lines [] p = some p
  parse_lines (line ∷ lines) p = elim (parse_line (drop_return line) p) [
    | none ↦ none
    | some p' ↦ parse_lines lines p'
  ]

  unfoldable pub finish_config : Parsing → Option BrokerConfig
  finish_config p =
      if p.have_broker_id && p.have_listen_port && p.have_coords then some p.cfg else none

  unfoldable pub parse_config : Option (List Text) → Option BrokerConfig
  unfolding parse_lines finish_config
  parse_config none = none
  parse_config (some lines) = elim (parse_lines lines defaults) [
    | none ↦ none
    | some p ↦ finish_config p
  ]
