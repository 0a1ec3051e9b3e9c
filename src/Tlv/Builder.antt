-- ===== src/Tlv/Builder.antt =====
-- `class TlvMessageBuilder`.
use dns_plus_plus.Base.{
  ℕ, zero, suc, ◌+◌, ◌%◌, ◌^◌, List, [], ◌++◌, length, take, ltb, if◌then◌else◌, Access, done,
  stuck, ◌>>=◌, read_16, bytes_16, bytes_32, Text,
}
use dns_plus_plus.Tlv.TlvType
use dns_plus_plus.Tlv.Message.{RegionBits}

pub record Builder : Type 0 where
  pub kind : ℕ
  pub tlv_bytes : List ℕ
  pub payload : List ℕ

unfoldable pub new_builder : ℕ → Builder
new_builder kind = record { kind = kind; tlv_bytes = []; payload = [] }

-- `addTlv(type, data, len)` copies the first `len` bytes of `data`.
unfoldable pub add_tlv : ℕ → List ℕ → ℕ → Builder → Builder
add_tlv kind value len b = record b {
  tlv_bytes = b.tlv_bytes ++ (bytes_16 kind ++ (bytes_16 len ++ take len value));
}

unfoldable pub add_coordinates : ℕ → ℕ → Builder → Builder
unfolding add_tlv
add_coordinates lat lon b = add_tlv TlvType.coordinates (bytes_32 lat ++ bytes_32 lon) 8 b

unfoldable pub add_flags : ℕ → Builder → Builder
unfolding add_tlv
add_flags flags b = add_tlv TlvType.flags (bytes_32 flags) 4 b

-- The length is cast to `uint16_t`.
unfoldable pub add_text : ℕ → Text → Builder → Builder
unfolding add_tlv
add_text kind text b = add_tlv kind text (length text % 2 ^ 16) b

unfoldable pub add_service_name : Text → Builder → Builder
unfolding add_text
add_service_name name b = add_text TlvType.service_name name b

unfoldable pub add_blinded_value : Text → Builder → Builder
unfolding add_text
add_blinded_value hex b = add_text TlvType.blinded_value hex b

unfoldable pub add_blinded_value_hi : Text → Builder → Builder
unfolding add_text
add_blinded_value_hi hex b = add_text TlvType.blinded_value_hi hex b

unfoldable pub add_brake_limit : ℕ → Builder → Builder
unfolding add_tlv
add_brake_limit limit b = add_tlv TlvType.brake_limit (bytes_32 limit) 4 b

unfoldable pub add_region : RegionBits → Builder → Builder
unfolding add_tlv
add_region r b =
    add_tlv TlvType.region
      (bytes_32 r.min_lat ++ (bytes_32 r.max_lat ++ (bytes_32 r.min_lon ++ bytes_32 r.max_lon))) 16
      b

unfoldable pub set_payload : List ℕ → Builder → Builder
set_payload bytes b = record b { payload = bytes }

-- The loop of `build` that counts the fields, in a `uint16_t`.
unfoldable pub count_tlvs : ℕ → List ℕ → ℕ → ℕ → Access ℕ
count_tlvs zero buf cursor count = if ltb cursor (length buf) then stuck else done count
count_tlvs (suc fuel) buf cursor count =
    let next : ℕ → Access ℕ =
      λ tlen. count_tlvs fuel buf (cursor + (4 + tlen)) ((count + 1) % 2 ^ 16) in
    if ltb cursor (length buf) then (read_16 buf (cursor + 2) >>= next) else done count

-- Every field takes four bytes at least, so the length of the buffer is fuel enough.
unfoldable pub build : Builder → Access (List ℕ)
unfolding count_tlvs
build b = do
  count ← count_tlvs (length b.tlv_bytes) b.tlv_bytes 0 0
  done (
      bytes_16 b.kind
      ++ (bytes_16 count ++ (bytes_32 (length b.payload % 2 ^ 32) ++ (b.tlv_bytes ++ b.payload))))

-- `build(buffer, max_len)`: what is copied to the buffer; nothing if it does not fit.
unfoldable pub build_into : ℕ → Builder → Access (List ℕ)
unfolding build
build_into max_len b = do bytes ← build b; done (if ltb max_len (length bytes) then [] else bytes)
