-- ===== src/Tlv/Runs.antt =====
-- Concrete messages, and the theorems at concrete inputs.
use dns_plus_plus.Base.{
  ◌+◌, ◌*◌, ◌^◌, ◌≡◌, refl, [], ◌∷◌, ◌++◌, none, some, false, if◌then◌else◌, ◌==◌, length, ◌>>=◌,
  done, arith, read_16,
}
use dns_plus_plus.Tlv.MsgType
use dns_plus_plus.Tlv.TlvType
use dns_plus_plus.Tlv.Message.{
  TlvMessage, parse, get_service_name, get_blinded_value, get_blinded_value_hi, get_flags,
  get_brake_limit, get_coordinates, get_region, payload_bytes, get_payload, get_payload_size,
}
use dns_plus_plus.Tlv.Builder.{Builder, new_builder, add_text, add_tlv, build, build_into}
use dns_plus_plus.Tlv.Frame.{Frame, encode, encode_fields, field_of, IsFrame, Views}
use dns_plus_plus.Tlv.Parse.{parse-encode}
use dns_plus_plus.Tlv.Accept.{parse_cases, Outcome}
use dns_plus_plus.Tlv.Fields.{getters-Views}
use dns_plus_plus.Tlv.Build.{
  Holds, new_builder-Holds, add_text-Holds, parse-build, build_into-encode, payload_bytes-Views,
}

-- A PUBLISH of "ab" at two coordinates, with a flag and a payload.
abbrev sample : Frame
sample = record {
  kind = MsgType.publish;
  fields =
      (TlvType.service_name, b'a' ∷ b'b' ∷ [])
      ∷ (TlvType.coordinates, 66 ∷ 0 ∷ 0 ∷ 0 ∷ 67 ∷ 0 ∷ 0 ∷ 1 ∷ [])
      ∷ (TlvType.flags, 0 ∷ 0 ∷ 0 ∷ 2 ∷ [])
      ∷ [];
  payload = 7 ∷ 8 ∷ 9 ∷ [];
}

sample-IsFrame : IsFrame sample
sample-IsFrame = record {
  kind_fits = omega arith;
  fields_fit = omega arith;
  count_fits = omega arith;
  payload_fits = omega arith;
}

abbrev sample_view : TlvMessage
sample_view = (parse-encode sample (0 ∷ []) sample-IsFrame).0

sample-Views : Views sample_view sample (0 ∷ [])
sample-Views = (parse-encode sample (0 ∷ []) sample-IsFrame).2

abbrev sample_builder : Builder
sample_builder = add_text TlvType.service_name (b'a' ∷ []) (new_builder MsgType.hello_ack)

abbrev ack : Frame
ack = record {
  kind = MsgType.hello_ack;
  fields = (TlvType.service_name, b'a' ∷ []) ∷ [];
  payload = [];
}

ack-IsFrame : IsFrame ack
ack-IsFrame = record {
  kind_fits = omega arith;
  fields_fit = omega arith;
  count_fits = omega arith;
  payload_fits = omega arith;
}

ack-Holds : Holds sample_builder ack
ack-Holds = add_text-Holds TlvType.service_name (b'a' ∷ []) (omega arith) (new_builder-Holds _)

build_ack : build sample_builder ≡ done (0 ∷ 5 ∷ 0 ∷ 1 ∷ 0 ∷ 0 ∷ 0 ∷ 0 ∷ 0 ∷ 3 ∷ 0 ∷ 1 ∷ 97 ∷ [])
unfolding build add_text add_tlv new_builder read_16
build_ack = refl

parse_short : (parse (0 ∷ 1 ∷ []) >>= λ m. done m.valid) ≡ done false
unfolding parse
parse_short = refl

parse-encode_example :
    (m : TlvMessage) × (parse (encode sample ++ (0 ∷ [])) ≡ done m) × Views m sample (0 ∷ [])
parse-encode_example = parse-encode sample (0 ∷ []) sample-IsFrame

parse_cases_example : Outcome (0 ∷ 1 ∷ 0 ∷ 9 ∷ 0 ∷ 0 ∷ 0 ∷ 0 ∷ 1 ∷ [])
parse_cases_example = parse_cases (0 ∷ 1 ∷ 0 ∷ 9 ∷ 0 ∷ 0 ∷ 0 ∷ 0 ∷ 1 ∷ []) (omega arith)

getters-Views_example :
    (get_service_name sample_view ≡ done (field_of TlvType.service_name sample.fields))
    × (get_blinded_value sample_view ≡ done none)
    × (get_blinded_value_hi sample_view ≡ done none)
    × (get_flags sample_view ≡ done (some 2))
    × (get_brake_limit sample_view ≡ done none)
    × (get_coordinates sample_view ≡ done (some (66 * 2 ^ 24, 67 * 2 ^ 24 + 1)))
    × (get_region sample_view ≡ done none)
getters-Views_example = getters-Views sample_view sample (0 ∷ []) sample-IsFrame sample-Views

parse-build_example :
    (m : TlvMessage) × ((build sample_builder >>= parse) ≡ done m) × Views m ack []
parse-build_example = parse-build sample_builder ack ack-IsFrame ack-Holds

build_into-encode_example : build_into 12 sample_builder ≡ done []
build_into-encode_example = build_into-encode 12 sample_builder ack ack-IsFrame ack-Holds

payload_bytes-Views_example :
    (get_payload sample_view ≡ (
      if length sample.payload == 0 then none else some (8 + length (encode_fields sample.fields))))
    × (get_payload_size sample_view ≡ 3)
    × (payload_bytes sample_view (8 + length (encode_fields sample.fields)) ≡ done (7 ∷ 8 ∷ 9 ∷ []))
payload_bytes-Views_example = payload_bytes-Views sample_view sample (0 ∷ []) sample-Views
