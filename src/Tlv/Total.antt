-- ===== src/Tlv/Total.antt =====
-- Proofs on `build` and on the getters of a message that the parser accepted.
use dns_plus_plus.Base.{
  ℕ, ◌+◌, ◌%◌, ◌^◌, ◌≤◌, ◌<◌, ◌≡◌, refl, sym, ap, ◌∙◌, List, [], ◌∷◌, ◌++◌, length, take, All,
  arith, done, Returns, Text, bytes_16, bytes_32, length-take, append-nil,
}
use native.Mathlib.Nat.{mod-le}
use dns_plus_plus.Tlv.TlvType
use dns_plus_plus.Tlv.Message.{
  TlvMessage, RegionBits, get_coordinates, get_region, get_service_name, get_flags,
  get_blinded_value, get_blinded_value_hi,
}
use dns_plus_plus.Tlv.Builder.{
  Builder, new_builder, add_tlv, add_text, add_service_name, add_blinded_value, add_coordinates,
  add_flags, add_region, set_payload, build, count_tlvs,
}
use dns_plus_plus.Tlv.Frame.{Frame, encode_fields, IsField, IsFrame, Views}
use dns_plus_plus.Tlv.Build.{
  Holds, with_field, encode_fields-append, count_tlvs-encode_fields, new_builder-Holds,
  set_payload-Holds,
}
use dns_plus_plus.Tlv.Fields.{
  get_text-Views, get_word-Views, get_coordinates-Views, get_region-Views,
}

pub record Buildable (b : Builder) : Type 0 where
  pub frame : Frame
  pub holds : Holds b frame
  pub fit : All IsField frame.fields

All-snoc :
    (fs : List (ℕ × List ℕ)) (f : ℕ × List ℕ)
    → All IsField fs
    → IsField f
    → All IsField (fs ++ (f ∷ []))
All-snoc [] f a p = (p, tt)
All-snoc (x ∷ fs) f a p = (a.0, All-snoc fs f a.1 p)

pub new_builder-Buildable : (kind : ℕ) → Buildable (new_builder kind)
new_builder-Buildable kind = record { frame = _; holds = new_builder-Holds kind; fit = tt }

-- `addTlv` with a length that the value has.
pub add_tlv-Buildable :
    (kind len : ℕ) (value : List ℕ) {b : Builder}
    → kind < 2 ^ 16
    → len < 2 ^ 16
    → len ≤ length value
    → Buildable b
    → Buildable (add_tlv kind value len b)
unfolding add_tlv
add_tlv-Buildable kind len value hk hl le h = record {
  frame = with_field kind (take len value) h.frame;
  holds = record {
    same_kind = h.holds.same_kind;
    same_bytes = rw h.holds.same_bytes (
        ap (λ n. encode_fields h.frame.fields ++ (bytes_16 kind ++ (bytes_16 n ++ take len value)))
          (sym size)
        ∙ ap
            (λ t.
              encode_fields h.frame.fields
              ++ (bytes_16 kind ++ (bytes_16 (length (take len value)) ++ t)))
            (sym (append-nil (take len value)))
        ∙ sym (encode_fields-append h.frame.fields ((kind, take len value) ∷ [])));
    same_payload = h.holds.same_payload;
  };
  fit = All-snoc h.frame.fields _ h.fit (hk, omega (arith, size));
}
  where
    size : length (take len value) ≡ len
    size = omega (arith, length-take len value)

pub add_text-Buildable :
    (kind : ℕ) (text : Text) {b : Builder}
    → kind < 2 ^ 16
    → Buildable b
    → Buildable (add_text kind text b)
unfolding add_text
add_text-Buildable kind text hk h =
    add_tlv-Buildable kind _ text hk (omega arith) (mod-le (length text) (2 ^ 16)) h

pub set_payload-Buildable :
    (bytes : List ℕ) {b : Builder} → Buildable b → Buildable (set_payload bytes b)
set_payload-Buildable bytes h = record {
  frame = _;
  holds = set_payload-Holds bytes h.holds;
  fit = h.fit;
}

pub add_service_name-Buildable :
    (name : Text) {b : Builder} → Buildable b → Buildable (add_service_name name b)
unfolding add_service_name
add_service_name-Buildable name h = add_text-Buildable TlvType.service_name name (omega arith) h

pub add_blinded_value-Buildable :
    (hex : Text) {b : Builder} → Buildable b → Buildable (add_blinded_value hex b)
unfolding add_blinded_value
add_blinded_value-Buildable hex h = add_text-Buildable TlvType.blinded_value hex (omega arith) h

pub add_coordinates-Buildable :
    (lat lon : ℕ) {b : Builder} → Buildable b → Buildable (add_coordinates lat lon b)
unfolding add_coordinates
add_coordinates-Buildable lat lon h =
    add_tlv-Buildable TlvType.coordinates 8 (bytes_32 lat ++ bytes_32 lon) (omega arith)
      (omega arith) (omega arith) h

pub add_flags-Buildable : (flags : ℕ) {b : Builder} → Buildable b → Buildable (add_flags flags b)
unfolding add_flags
add_flags-Buildable flags h =
    add_tlv-Buildable TlvType.flags 4 (bytes_32 flags) (omega arith) (omega arith) (omega arith) h

pub add_region-Buildable : (r : RegionBits) {b : Builder} → Buildable b → Buildable (add_region r b)
unfolding add_region
add_region-Buildable r h =
    add_tlv-Buildable TlvType.region 16
      (bytes_32 r.min_lat ++ (bytes_32 r.max_lat ++ (bytes_32 r.min_lon ++ bytes_32 r.max_lon)))
      (omega arith) (omega arith) (omega arith) h

-- The loop of `build` ends on every builder that the operations make.
pub build-Buildable : (b : Builder) → Buildable b → (bytes : List ℕ) × (build b ≡ done bytes)
unfolding build
build-Buildable b h = (
  bytes_16 b.kind
      ++ (bytes_16 ((0 + length h.frame.fields) % 2 ^ 16)
          ++ (bytes_32 (length b.payload % 2 ^ 32) ++ (b.tlv_bytes ++ b.payload))),
  rw counted,
)
  where
    bytes : List ℕ
    bytes = encode_fields h.frame.fields

    count : count_tlvs (length bytes) bytes 0 0 ≡ done ((0 + length h.frame.fields) % 2 ^ 16)
    count =
        count_tlvs-encode_fields h.frame.fields (length bytes) bytes 0 0 h.fit (omega arith) refl
          (omega arith) (omega arith)

    counted :
        count_tlvs (length b.tlv_bytes) b.tlv_bytes 0 0
        ≡ done ((0 + length h.frame.fields) % 2 ^ 16)
    counted = ap (λ t. count_tlvs (length t) t 0 0) h.holds.same_bytes ∙ count

-- A message that the parser accepted.
pub record IsParsed (m : TlvMessage) : Type 0 where
  pub frame : Frame
  pub rest : List ℕ
  pub is_frame : IsFrame frame
  pub views : Views m frame rest

module _ (m : TlvMessage) (p : IsParsed m) where
  pub get_service_name-Returns : Returns (get_service_name m) (λ r. Unit {0})
  unfolding get_service_name
  get_service_name-Returns =
      (_, get_text-Views m p.frame p.rest p.is_frame p.views TlvType.service_name, tt)

  pub get_blinded_value-Returns : Returns (get_blinded_value m) (λ r. Unit {0})
  unfolding get_blinded_value
  get_blinded_value-Returns =
      (_, get_text-Views m p.frame p.rest p.is_frame p.views TlvType.blinded_value, tt)

  pub get_blinded_value_hi-Returns : Returns (get_blinded_value_hi m) (λ r. Unit {0})
  unfolding get_blinded_value_hi
  get_blinded_value_hi-Returns =
      (_, get_text-Views m p.frame p.rest p.is_frame p.views TlvType.blinded_value_hi, tt)

  pub get_flags-Returns : Returns (get_flags m) (λ r. Unit {0})
  unfolding get_flags
  get_flags-Returns = (_, get_word-Views m p.frame p.rest p.is_frame p.views TlvType.flags, tt)

  pub get_coordinates-Returns : Returns (get_coordinates m) (λ r. Unit {0})
  get_coordinates-Returns = (_, get_coordinates-Views m p.frame p.rest p.is_frame p.views, tt)

  pub get_region-Returns : Returns (get_region m) (λ r. Unit {0})
  get_region-Returns = (_, get_region-Views m p.frame p.rest p.is_frame p.views, tt)
