-- ===== src/Tlv/Fields.antt =====
-- Proofs on the getters of `TlvMessage`, for a message that shows a frame.
use dns_plus_plus.Base.{
  ℕ, suc, ◌+◌, ◌≤◌, ◌≡◌, refl, sym, ap, ◌∙◌, inl, inr, List, [], ◌∷◌, ◌++◌, Option, none, some,
  Bool-cases, length, drop, All, ltb, ◌==◌, arith, done, read_16, read_32, head_16, head_32,
  bytes_16, drop-drop, append_assoc, take-append, be_32, drop-append_le, head_32-be_32, length-drop,
  head_16-bytes_16, ltb-eq_false, if◌then◌else◌, Access,
}
use dns_plus_plus.Tlv.TlvType
use dns_plus_plus.Tlv.Message.{
  TlvMessage, RegionBits, find_from, find_tlv, get_text, get_word, get_coordinates, get_region,
  text_at_hit, word_at_hit, coordinates_at_hit, region_at_hit, get_service_name, get_blinded_value,
  get_blinded_value_hi, get_flags, get_brake_limit,
}
use dns_plus_plus.Tlv.Frame.{Frame, encode_fields, encode_field, field_of, IsField, IsFrame, Views}
use dns_plus_plus.Tlv.Parse.{read_16_at, length_at_field, drop_field, regroup_fields, length-encode}

-- A hit of `findTlv` and the value that it stands for.
abbrev Located : List ℕ → Option (ℕ × ℕ) → Option (List ℕ) → Type 0
Located buf none none = Unit
Located buf none (some v) = ⊥
Located buf (some hit) none = ⊥
Located buf (some (at, len)) (some v) =
    (len ≡ length v) × (at + length v ≤ length buf) × ((more : List ℕ) × (drop at buf ≡ v ++ more))

abbrev Finds : List ℕ → Access (Option (ℕ × ℕ)) → Option (List ℕ) → Type 0
Finds buf r value = (hit : Option (ℕ × ℕ)) × (r ≡ done hit) × Located buf hit value

find_from_field :
    (k kind wanted : ℕ) (value more buf : List ℕ) (cursor : ℕ) (fs : List (ℕ × List ℕ))
    → IsField (kind, value)
    → cursor ≤ length buf
    → drop cursor buf ≡ encode_field (kind, value) ++ more
    → Finds buf (find_from k buf wanted (cursor + (4 + length value))) (field_of wanted fs)
    → Finds buf (find_from (suc k) buf wanted cursor) (field_of wanted ((kind, value) ∷ fs))
unfolding find_from
find_from_field k kind wanted value more buf cursor fs f h e ih =
    elim (Bool-cases (kind == wanted)) [
      | inl same ↦
          rw (head, size, same)
            (
              some (cursor + 4, length value),
              refl,
              (
                refl,
                omega (arith, length_at_field kind cursor value more buf h e),
                (more, sym (drop-drop 4 cursor buf) ∙ ap (drop 4) e),
              ),
            )
      | inr other ↦ rw (head, size, other) ih
    ]
  where
    head : read_16 buf cursor ≡ done kind
    head =
        unfold read_16 in
        ap head_16 e ∙ head_16-bytes_16 kind (bytes_16 (length value) ++ (value ++ more)) f.0

    size : read_16 buf (cursor + 2) ≡ done (length value)
    size = read_16_at buf (value ++ more) cursor 2 (length value) f.1 (ap (drop 2) e)

find_from-field_of :
    (fs : List (ℕ × List ℕ)) (wanted : ℕ) (rest buf : List ℕ) (cursor : ℕ)
    → All IsField fs
    → cursor ≤ length buf
    → drop cursor buf ≡ encode_fields fs ++ rest
    → Finds buf (find_from (length fs) buf wanted cursor) (field_of wanted fs)
find_from-field_of [] wanted rest buf cursor a h e = (none, unfold find_from in refl, tt)
find_from-field_of ((kind, value) ∷ fs) wanted rest buf cursor a h e =
    find_from_field (length fs) kind wanted value _ buf cursor fs a.0 h e' (
      find_from-field_of fs wanted rest buf (cursor + (4 + length value)) a.1
        (omega (arith, length_at_field kind cursor value _ buf h e'))
        (drop_field kind cursor value _ buf h e'))
  where
    e' : drop cursor buf ≡ encode_field (kind, value) ++ (encode_fields fs ++ rest)
    e' = e ∙ regroup_fields kind value rest fs

-- `findTlv` finds the first field of the type, and only that.
find_tlv-Views :
    (m : TlvMessage) (fr : Frame) (rest : List ℕ) (wanted : ℕ)
    → IsFrame fr
    → Views m fr rest
    → Finds m.raw_data (find_tlv m wanted) (field_of wanted fr.fields)
unfolding find_tlv
find_tlv-Views m fr rest wanted i v =
    rw (v.is_valid, v.same_count)
      (find_from-field_of fr.fields wanted (fr.payload ++ rest) m.raw_data 8 i.fields_fit
        (omega (arith, ap length v.framed, length-encode fr rest))
        (ap (drop 8) v.framed ∙ append_assoc (encode_fields fr.fields) fr.payload rest))

text_at_hit-Located :
    (buf : List ℕ) (hit : Option (ℕ × ℕ)) (value : Option (List ℕ))
    → Located buf hit value
    → text_at_hit buf hit ≡ done value
unfolding text_at_hit
text_at_hit-Located buf none none l = refl
text_at_hit-Located buf none (some v) l = absurd l
text_at_hit-Located buf (some hit) none l = absurd l
text_at_hit-Located buf (some (at, len)) (some v) (size, fits, (more, e)) =
    rw (size, ltb-eq_false (length buf) (at + length v) fits, e, take-append v more)

-- One word of a value that was found.
read_32-Located :
    (buf : List ℕ) (at n : ℕ) (v more : List ℕ)
    → drop at buf ≡ v ++ more
    → n + 4 ≤ length v
    → read_32 buf (at + n) ≡ done (be_32 (drop n v))
unfolding read_32
read_32-Located buf at n v more e h =
    ap head_32 (sym (drop-drop n at buf) ∙ ap (drop n) e ∙ drop-append_le n v more (omega arith))
    ∙ head_32-be_32 (drop n v) more (omega (arith, length-drop n v))

first_word-Located :
    (buf : List ℕ) (at : ℕ) (v more : List ℕ)
    → drop at buf ≡ v ++ more
    → 4 ≤ length v
    → read_32 buf at ≡ done (be_32 v)
unfolding read_32
first_word-Located buf at v more e h = ap head_32 e ∙ head_32-be_32 v more h

-- What the fixed-size getters make of a value: nothing if it is too short, and its words otherwise.
abbrev pub word_of : Option (List ℕ) → Option ℕ
word_of none = none
word_of (some v) = if ltb (length v) 4 then none else some (be_32 v)

abbrev pub coordinates_of : Option (List ℕ) → Option (ℕ × ℕ)
coordinates_of none = none
coordinates_of (some v) = if ltb (length v) 8 then none else some (be_32 v, be_32 (drop 4 v))

abbrev pub region_of : Option (List ℕ) → Option RegionBits
region_of none = none
region_of (some v) =
    if ltb (length v) 16
    then none
    else some (record {
      min_lat = be_32 v;
      max_lat = be_32 (drop 4 v);
      min_lon = be_32 (drop 8 v);
      max_lon = be_32 (drop 12 v);
    })

word_at_hit-Located :
    (buf : List ℕ) (hit : Option (ℕ × ℕ)) (value : Option (List ℕ))
    → Located buf hit value
    → word_at_hit buf hit ≡ done (word_of value)
unfolding word_at_hit
word_at_hit-Located buf none none l = refl
word_at_hit-Located buf none (some v) l = absurd l
word_at_hit-Located buf (some hit) none l = absurd l
word_at_hit-Located buf (some (at, len)) (some v) (size, fits, (more, e)) =
    rw size (elim (Bool-cases (ltb (length v) 4)) [
      | inl short ↦ rw short
      | inr long ↦ rw (long, first_word-Located buf at v more e (ground arith))
    ])

coordinates_at_hit-Located :
    (buf : List ℕ) (hit : Option (ℕ × ℕ)) (value : Option (List ℕ))
    → Located buf hit value
    → coordinates_at_hit buf hit ≡ done (coordinates_of value)
unfolding coordinates_at_hit
coordinates_at_hit-Located buf none none l = refl
coordinates_at_hit-Located buf none (some v) l = absurd l
coordinates_at_hit-Located buf (some hit) none l = absurd l
coordinates_at_hit-Located buf (some (at, len)) (some v) (size, fits, (more, e)) =
    rw size (elim (Bool-cases (ltb (length v) 8)) [
      | inl short ↦ rw short
      | inr long ↦ rw (
        long,
        first_word-Located buf at v more e (ground arith),
        read_32-Located buf at 4 v more e (ground arith),
      )
    ])

region_at_hit-Located :
    (buf : List ℕ) (hit : Option (ℕ × ℕ)) (value : Option (List ℕ))
    → Located buf hit value
    → region_at_hit buf hit ≡ done (region_of value)
unfolding region_at_hit
region_at_hit-Located buf none none l = refl
region_at_hit-Located buf none (some v) l = absurd l
region_at_hit-Located buf (some hit) none l = absurd l
region_at_hit-Located buf (some (at, len)) (some v) (size, fits, (more, e)) =
    rw size (elim (Bool-cases (ltb (length v) 16)) [
      | inl short ↦ rw short
      | inr long ↦ rw (
        long,
        first_word-Located buf at v more e (ground arith),
        read_32-Located buf at 4 v more e (ground arith),
        read_32-Located buf at 8 v more e (ground arith),
        read_32-Located buf at 12 v more e (ground arith),
      )
    ])

module _ (m : TlvMessage) (fr : Frame) (rest : List ℕ) (i : IsFrame fr) (v : Views m fr rest) where
  -- One getter at a time.
  pub get_text-Views : (wanted : ℕ) → get_text m wanted ≡ done (field_of wanted fr.fields)
  unfolding get_text
  get_text-Views wanted =
      let (hit, found, l) = find_tlv-Views m fr rest wanted i v in
      rw found (text_at_hit-Located m.raw_data hit (field_of wanted fr.fields) l)

  pub get_word-Views : (wanted : ℕ) → get_word m wanted ≡ done (word_of (field_of wanted fr.fields))
  unfolding get_word
  get_word-Views wanted =
      let (hit, found, l) = find_tlv-Views m fr rest wanted i v in
      rw found (word_at_hit-Located m.raw_data hit (field_of wanted fr.fields) l)

  pub get_coordinates-Views :
      get_coordinates m ≡ done (coordinates_of (field_of TlvType.coordinates fr.fields))
  unfolding get_coordinates
  get_coordinates-Views =
      let (hit, found, l) = find_tlv-Views m fr rest TlvType.coordinates i v in
      rw found
        (coordinates_at_hit-Located m.raw_data hit (field_of TlvType.coordinates fr.fields) l)

  pub get_region-Views : get_region m ≡ done (region_of (field_of TlvType.region fr.fields))
  unfolding get_region
  get_region-Views =
      let (hit, found, l) = find_tlv-Views m fr rest TlvType.region i v in
      rw found (region_at_hit-Located m.raw_data hit (field_of TlvType.region fr.fields) l)

  -- On a message that shows a frame: `getServiceName`, `getBlindedValue` and `getBlindedValueHi`
  -- return the whole value of the first field of their type; `getFlags` and `getBrakeLimit` the
  -- first word of theirs; `getCoordinates` the two words, and `getRegion` the four, at the start
  -- of theirs. Each returns nothing if there is no such field or its value is too short.
  pub getters-Views :
      (get_service_name m ≡ done (field_of TlvType.service_name fr.fields))
      × (get_blinded_value m ≡ done (field_of TlvType.blinded_value fr.fields))
      × (get_blinded_value_hi m ≡ done (field_of TlvType.blinded_value_hi fr.fields))
      × (get_flags m ≡ done (word_of (field_of TlvType.flags fr.fields)))
      × (get_brake_limit m ≡ done (word_of (field_of TlvType.brake_limit fr.fields)))
      × (get_coordinates m ≡ done (coordinates_of (field_of TlvType.coordinates fr.fields)))
      × (get_region m ≡ done (region_of (field_of TlvType.region fr.fields)))
  unfolding get_service_name get_blinded_value get_blinded_value_hi get_flags get_brake_limit
  getters-Views = (
    get_text-Views TlvType.service_name,
    get_text-Views TlvType.blinded_value,
    get_text-Views TlvType.blinded_value_hi,
    get_word-Views TlvType.flags,
    get_word-Views TlvType.brake_limit,
    get_coordinates-Views,
    get_region-Views,
  )
