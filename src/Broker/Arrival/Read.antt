-- ===== src/Broker/Arrival/Read.antt =====
-- What `handlePublish` reads from a message.
use dns_plus_plus.Base.{
  done-inj, ℕ, ◌≡◌, refl, ap, sym, ◌∙◌, List, [], ◌∷◌, ◌++◌, none, if◌then◌else◌, Text, Map,
  text_eq,
}
use dns_plus_plus.Tlv.MsgFlags
use dns_plus_plus.Tlv.MsgFlags.{has_flag}
use dns_plus_plus.Tlv.TlvType
use dns_plus_plus.Tlv.Message.{TlvMessage, get_coordinates, get_flags, get_blinded_value}
use dns_plus_plus.Tlv.Frame.{Frame, field_of, IsFrame, Views}
use dns_plus_plus.Tlv.Fields.{
  get_word-Views, word_of, get_text-Views, get_coordinates-Views, coordinates_of,
}
use dns_plus_plus.Geo.Numbers.{Floats}
use dns_plus_plus.Broker.State.{Broker, ChildBroker, Addr, Env}
use dns_plus_plus.Broker.Send.{value_or, find_child_by_addr}
use dns_plus_plus.Broker.Publication.{
  Publication, copy_payload, pub_key_of, from_id_of, client_addr_str, parent_text, read_publication,
}
use dns_plus_plus.Broker.Safety.Forwarding.{copy_payload-Views}
use dns_plus_plus.Broker.Freshness.Keeps.{Keeps, Keeps-done, Keeps-bind}

module _ (f : Floats) (env : Env) where
  open f use {Double}

  -- The flags of a frame, none where it has no such field.
  abbrev pub flags_of : Frame → ℕ
  flags_of fr = value_or 0 (word_of (field_of TlvType.flags fr.fields))

  -- A publication as a message shows it, to a broker with these children.
  pub record IsRead (m : TlvMessage) (fr : Frame) (name : Text) (client : Addr)
      (children : Map Text (ChildBroker Double)) (p : Publication) : Type 0 where
    pub same_key : p.key ≡ name
    pub same_raw : p.raw ≡ m.raw_data
    pub same_place :
        (p.lat, p.lon) ≡ value_or (0, 0) (coordinates_of (field_of TlvType.coordinates fr.fields))
    pub plain : p.blinded ≡ none
    pub same_from_child : p.from_child ≡ has_flag (flags_of fr) MsgFlags.from_child
    pub same_from_parent : p.from_parent ≡ has_flag (flags_of fr) MsgFlags.from_parent
    pub same_from_id : p.from_id ≡ (
        if has_flag (flags_of fr) MsgFlags.from_child
        then find_child_by_addr f client children
        else (if has_flag (flags_of fr) MsgFlags.from_parent
            then parent_text
            else env.inet_ntoa client.ip ++ (b':' ∷ env.to_string client.port)))
    pub same_payload : value_or [] p.payload ≡ fr.payload

  pub read_publication-IsRead :
      (m : TlvMessage) (fr : Frame) (rest : List ℕ) (client : Addr) (name : Text)
      (s : Broker Double)
      → IsFrame fr
      → Views m fr rest
      → field_of TlvType.blinded_value fr.fields ≡ none
      → Keeps (read_publication f env m client name s) (IsRead m fr name client s.children)
  unfolding read_publication pub_key_of get_blinded_value get_flags from_id_of client_addr_str
  read_publication-IsRead m fr rest client name s i v unblinded =
      Keeps-bind Read (get_coordinates m) _ λ coords e₁.
        Keeps-bind Read (get_flags m) _ λ flags_opt e₂.
          Keeps-bind Read (get_blinded_value m) _ λ blinded e₃.
            Keeps-bind Read (copy_payload m) _ λ payload e₄.
              let place = done-inj (sym e₁ ∙ get_coordinates-Views m fr rest i v) in
              let flags = done-inj (sym e₂ ∙ get_word-Views m fr rest i v TlvType.flags) in
              let none_there : blinded ≡ none =
                done-inj (sym e₃ ∙ get_text-Views m fr rest i v TlvType.blinded_value)
                ∙ unblinded in
              let (copied, e₅, whole) = copy_payload-Views m fr rest v in
              Keeps-done Read _ (record {
                same_key = rw none_there refl;
                same_raw = refl;
                same_place = ap (value_or (0, 0)) place;
                plain = none_there;
                same_from_child = ap (λ o. has_flag (value_or 0 o) MsgFlags.from_child) flags;
                same_from_parent = ap (λ o. has_flag (value_or 0 o) MsgFlags.from_parent) flags;
                same_from_id = ap (λ o. source (value_or 0 o)) flags;
                same_payload = ap (value_or []) (done-inj (sym e₄ ∙ e₅)) ∙ whole;
              })
    where
      Read : Publication → Type 0
      Read = IsRead m fr name client s.children

      source : ℕ → Text
      source word =
          if has_flag word MsgFlags.from_child
          then find_child_by_addr f client s.children
          else (if has_flag word MsgFlags.from_parent
              then parent_text
              else env.inet_ntoa client.ip ++ (b':' ∷ env.to_string client.port))
