-- ===== src/Broker/Publication.antt =====
-- The local variables of `handlePublish`, and the messages that it forwards.
use dns_plus_plus.Base.{
  ℕ, Bool, not, ◌&&◌, List, [], ◌∷◌, ◌++◌, Option, none, some, if◌then◌else◌, ltb, Access, done,
  ◌>>=◌, Text, Map,
}
use dns_plus_plus.Tlv.MsgType
use dns_plus_plus.Tlv.MsgFlags
use dns_plus_plus.Tlv.MsgFlags.{has_flag}
use dns_plus_plus.Tlv.Message.{
  TlvMessage, get_coordinates, get_flags, get_blinded_value, get_payload, get_payload_size,
  payload_bytes,
}
use dns_plus_plus.Tlv.Builder.{
  Builder, new_builder, add_service_name, add_coordinates, add_flags, add_blinded_value,
  set_payload,
}
use dns_plus_plus.Geo.Numbers.{Floats}
use dns_plus_plus.Broker.State.{Broker, Addr, Env, ChildBroker}
use dns_plus_plus.Broker.Match.{hash_service_name}
use dns_plus_plus.Broker.Send.{value_or, is_some, find_child_by_addr}

-- `payload` is what `msg.getPayload()` gives where it is not null and not empty.
pub record Publication : Type 0 where
  pub key : Text
  pub lat : ℕ
  pub lon : ℕ
  pub from_child : Bool
  pub from_parent : Bool
  pub from_id : Text
  pub payload : Option (List ℕ)
  pub blinded : Option Text
  pub raw : List ℕ

-- The bytes that `fwd.setPayload` copies.
unfoldable pub copy_payload : TlvMessage → Access (Option (List ℕ))
copy_payload msg = elim (get_payload msg) [
  | none ↦ done none
  | some at ↦
      if ltb 0 (get_payload_size msg)
      then (payload_bytes msg at >>= λ bytes. done (some bytes))
      else done none
]

unfoldable pub add_payload : Option (List ℕ) → Builder → Builder
add_payload none b = b
add_payload (some bytes) b = set_payload bytes b

unfoldable pub add_blinded : Option Text → Builder → Builder
add_blinded none b = b
add_blinded (some hex) b = add_blinded_value hex b

-- The PUBLISH that goes up or down, with the flag of its direction.
unfoldable pub forward_message : ℕ → Publication → Builder
unfolding add_payload add_blinded
forward_message flag p = add_flags flag (
    add_blinded p.blinded (
      add_payload p.payload
        (add_coordinates p.lat p.lon (add_service_name p.key (new_builder MsgType.publish)))))

-- "parent"
abbrev pub parent_text : Text
parent_text = b'p' ∷ b'a' ∷ b'r' ∷ b'e' ∷ b'n' ∷ b't' ∷ []

module _ (f : Floats) (env : Env) where
  open f use {Double}

  -- Only an original publication is hashed; a forwarded one carries its key already.
  unfoldable pub pub_key_of : Option Text → Bool → Bool → Text → Broker Double → Text
  pub_key_of blinded from_child from_parent name s =
      if is_some blinded && s.he_enabled && not from_child && not from_parent
      then hash_service_name f env name
      else name

  -- `clientAddrStr`: the address and the port, with a colon between them.
  unfoldable pub client_addr_str : Addr → Text
  client_addr_str addr = env.inet_ntoa addr.ip ++ (b':' ∷ env.to_string addr.port)

  unfoldable pub from_id_of : Bool → Bool → Addr → Map Text (ChildBroker Double) → Text
  unfolding client_addr_str
  from_id_of from_child from_parent client children =
      if from_child
      then find_child_by_addr f client children
      else (if from_parent then parent_text else client_addr_str client)

  -- What `handlePublish` reads from the message, past its name.
  unfoldable pub read_publication : TlvMessage → Addr → Text → Broker Double → Access Publication
  unfolding copy_payload pub_key_of from_id_of
  read_publication msg client name s = do
    coords ← get_coordinates msg
    flags_opt ← get_flags msg
    blinded ← get_blinded_value msg
    payload ← copy_payload msg
    let from_child = has_flag (value_or 0 flags_opt) MsgFlags.from_child
    let from_parent = has_flag (value_or 0 flags_opt) MsgFlags.from_parent
    let (lat, lon) = value_or (0, 0) coords
    done (record {
      key = pub_key_of blinded from_child from_parent name s;
      lat = lat;
      lon = lon;
      from_child = from_child;
      from_parent = from_parent;
      from_id = from_id_of from_child from_parent client s.children;
      payload = payload;
      blinded = blinded;
      raw = msg.raw_data;
    })
