-- ===== src/Tlv/Frame.antt =====
-- The format on the wire, as an independent description: a message is its type, its fields and its
-- payload.
use dns_plus_plus.Base.{
  ℕ, ◌+◌, ◌^◌, ◌<◌, ◌≡◌, List, [], ◌∷◌, ◌++◌, Option, none, some, true, length, All, ◌==◌,
  if◌then◌else◌, bytes_16, bytes_32,
}
use dns_plus_plus.Tlv.Message.{TlvMessage}

pub record Frame : Type 0 where
  pub kind : ℕ
  pub fields : List (ℕ × List ℕ)
  pub payload : List ℕ

abbrev pub encode_field : ℕ × List ℕ → List ℕ
encode_field (kind, value) = bytes_16 kind ++ (bytes_16 (length value) ++ value)

abbrev pub encode_fields : List (ℕ × List ℕ) → List ℕ
encode_fields [] = []
encode_fields (f ∷ fs) = encode_field f ++ encode_fields fs

abbrev pub encode : Frame → List ℕ
encode fr =
    bytes_16 fr.kind
    ++ (bytes_16 (length fr.fields)
        ++ (bytes_32 (length fr.payload) ++ (encode_fields fr.fields ++ fr.payload)))

abbrev pub IsField : ℕ × List ℕ → Type 0
IsField (kind, value) = (kind < 2 ^ 16) × (length value < 2 ^ 16)

pub record IsFrame (fr : Frame) : Type 0 where
  pub kind_fits : fr.kind < 2 ^ 16
  pub fields_fit : All IsField fr.fields
  pub count_fits : length fr.fields < 2 ^ 16
  pub payload_fits : length fr.payload < 2 ^ 32

-- The value of the first field of a type.
abbrev pub field_of : ℕ → List (ℕ × List ℕ) → Option (List ℕ)
field_of kind [] = none
field_of kind ((k, value) ∷ fs) = if k == kind then some value else field_of kind fs

-- A parsed message shows a frame, followed by bytes that belong to no part of it.
pub record Views (m : TlvMessage) (fr : Frame) (rest : List ℕ) : Type 0 where
  pub framed : m.raw_data ≡ encode fr ++ rest
  pub is_valid : m.valid ≡ true
  pub same_kind : m.msg_type ≡ fr.kind
  pub same_count : m.num_tlvs ≡ length fr.fields
  pub same_payload_len : m.payload_len ≡ length fr.payload
  pub offset : m.payload_offset ≡ 8 + length (encode_fields fr.fields)
