-- ===== src/Tlv/Message.antt =====
-- `class TlvMessage`: the parser over a received buffer. A `float` is its 32-bit pattern.
use dns_plus_plus.Base.{
  ℕ, zero, suc, ◌+◌, Bool, true, false, not, ◌||◌, Option, none, some, List, length, take, drop,
  ltb, ◌==◌, if◌then◌else◌, Access, done, fault, ◌>>=◌, read_16, read_32, Text,
}
use dns_plus_plus.Tlv.MsgType
use dns_plus_plus.Tlv.TlvType

-- `raw_data` is `data_`, whose length is `len_`.
pub record TlvMessage : Type 0 where
  pub raw_data : List ℕ
  pub valid : Bool
  pub msg_type : ℕ
  pub num_tlvs : ℕ
  pub payload_len : ℕ
  pub payload_offset : ℕ

-- The loop of the constructor with `k` rounds left. `none` is the early return.
unfoldable pub scan_tlvs : ℕ → List ℕ → ℕ → Access (Option ℕ)
scan_tlvs zero buf cursor = done (some cursor)
scan_tlvs (suc k) buf cursor =
    let next : ℕ → Access (Option ℕ) = λ tlv_len.
      let cursor' = cursor + (4 + tlv_len) in
      let rest = scan_tlvs k buf cursor' in if ltb (length buf) cursor' then done none else rest in
    if ltb (length buf) (cursor + 4) then done none else (read_16 buf (cursor + 2) >>= next)

-- The end of the constructor: the payload must fit behind the last field.
unfoldable pub accept : TlvMessage → Option ℕ → TlvMessage
accept m none = m
accept m (some cursor) =
    if ltb (length m.raw_data) (cursor + m.payload_len)
    then record m { payload_offset = cursor }
    else record m { payload_offset = cursor; valid = true }

abbrev pub blank : List ℕ → TlvMessage
blank buf = record {
  raw_data = buf;
  valid = false;
  msg_type = MsgType.subscribe;
  num_tlvs = 0;
  payload_len = 0;
  payload_offset = 0;
}

unfoldable pub parse_header : List ℕ → Access TlvMessage
parse_header buf = do
  raw_type ← read_16 buf 0
  num ← read_16 buf 2
  plen ← read_32 buf 4
  scanned ← scan_tlvs num buf 8
  done (
      accept (record (blank buf) { msg_type = raw_type; num_tlvs = num; payload_len = plen })
        scanned)

-- The constructor `TlvMessage(data, len)`.
unfoldable pub parse : List ℕ → Access TlvMessage
unfolding parse_header accept scan_tlvs
parse buf = if ltb (length buf) 8 then done (blank buf) else parse_header buf

-- The loop of `findTlv` with `k` rounds left: the offset and the length of the value.
unfoldable pub find_from : ℕ → List ℕ → ℕ → ℕ → Access (Option (ℕ × ℕ))
find_from zero buf kind cursor = done none
find_from (suc k) buf kind cursor = read_16 buf cursor >>= λ tlv_type.
    read_16 buf (cursor + 2) >>= λ tlv_len.
    let rest = find_from k buf kind (cursor + (4 + tlv_len)) in
    if tlv_type == kind then done (some (cursor + 4, tlv_len)) else rest

-- `none` is the null pointer.
unfoldable pub find_tlv : TlvMessage → ℕ → Access (Option (ℕ × ℕ))
unfolding find_from
find_tlv m kind = if m.valid then find_from m.num_tlvs m.raw_data kind 8 else done none

-- `getFlags`, `getBrakeLimit` (whose `int32_t` is its bit pattern) read one word.
unfoldable pub word_at_hit : List ℕ → Option (ℕ × ℕ) → Access (Option ℕ)
word_at_hit buf none = done none
word_at_hit buf (some (v, len)) =
    if ltb len 4 then done none else (read_32 buf v >>= λ w. done (some w))

unfoldable pub get_word : TlvMessage → ℕ → Access (Option ℕ)
unfolding find_tlv word_at_hit
get_word m kind = find_tlv m kind >>= word_at_hit m.raw_data

unfoldable pub get_flags : TlvMessage → Access (Option ℕ)
unfolding get_word
get_flags m = get_word m TlvType.flags

unfoldable pub get_brake_limit : TlvMessage → Access (Option ℕ)
unfolding get_word
get_brake_limit m = get_word m TlvType.brake_limit

unfoldable pub coordinates_at_hit : List ℕ → Option (ℕ × ℕ) → Access (Option (ℕ × ℕ))
coordinates_at_hit buf none = done none
coordinates_at_hit buf (some (v, len)) =
    if ltb len 8
    then done none
    else do lat ← read_32 buf v; lon ← read_32 buf (v + 4); done (some (lat, lon))

unfoldable pub get_coordinates : TlvMessage → Access (Option (ℕ × ℕ))
unfolding find_tlv coordinates_at_hit
get_coordinates m = find_tlv m TlvType.coordinates >>= coordinates_at_hit m.raw_data

-- The four `float`s of a region: min_lat, max_lat, min_lon, max_lon.
pub record RegionBits : Type 0 where
  pub min_lat : ℕ
  pub max_lat : ℕ
  pub min_lon : ℕ
  pub max_lon : ℕ

unfoldable pub region_at_hit : List ℕ → Option (ℕ × ℕ) → Access (Option RegionBits)
region_at_hit buf none = done none
region_at_hit buf (some (v, len)) = if ltb len 16 then done none else do
  a ← read_32 buf v
  b ← read_32 buf (v + 4)
  c ← read_32 buf (v + 8)
  d ← read_32 buf (v + 12)
  done (some (record { min_lat = a; max_lat = b; min_lon = c; max_lon = d }))

unfoldable pub get_region : TlvMessage → Access (Option RegionBits)
unfolding find_tlv region_at_hit
get_region m = find_tlv m TlvType.region >>= region_at_hit m.raw_data

-- `std::string(v, len)`: the copy of `len` bytes from an offset.
unfoldable pub read_text : List ℕ → ℕ → ℕ → Access Text
read_text buf at len = if ltb (length buf) (at + len) then fault else done (take len (drop at buf))

unfoldable pub text_at_hit : List ℕ → Option (ℕ × ℕ) → Access (Option Text)
unfolding read_text
text_at_hit buf none = done none
text_at_hit buf (some (v, len)) = read_text buf v len >>= λ s. done (some s)

unfoldable pub get_text : TlvMessage → ℕ → Access (Option Text)
unfolding find_tlv text_at_hit
get_text m kind = find_tlv m kind >>= text_at_hit m.raw_data

unfoldable pub get_service_name : TlvMessage → Access (Option Text)
unfolding get_text
get_service_name m = get_text m TlvType.service_name

unfoldable pub get_blinded_value : TlvMessage → Access (Option Text)
unfolding get_text
get_blinded_value m = get_text m TlvType.blinded_value

unfoldable pub get_blinded_value_hi : TlvMessage → Access (Option Text)
unfolding get_text
get_blinded_value_hi m = get_text m TlvType.blinded_value_hi

-- `none` is the null pointer of `getPayload`.
unfoldable pub get_payload : TlvMessage → Option ℕ
get_payload m = if not m.valid || m.payload_len == 0 then none else some m.payload_offset

unfoldable pub get_payload_size : TlvMessage → ℕ
get_payload_size m = m.payload_len

-- The bytes that a caller copies from `getPayload()`, `getPayloadSize()` of them.
unfoldable pub payload_bytes : TlvMessage → ℕ → Access (List ℕ)
unfolding read_text get_payload_size
payload_bytes m at = read_text m.raw_data at (get_payload_size m)
