-- ===== src/Tlv/Build.antt =====
-- Proofs on `build` and on the parser of what it writes.
use dns_plus_plus.Base.{
  ℕ, zero, suc, ◌+◌, ◌%◌, ◌^◌, ◌≤◌, ◌<◌, ◌≡◌, refl, sym, ap, ap₂, ◌∙◌, List, [], ◌∷◌, ◌++◌, true,
  false, length, take, drop, All, ltb, arith, done, ◌>>=◌, bytes_16, Text, length-append,
  length-drop, append_assoc, append-nil, take-append, drop_past, take-length, ltb-eq_false, lt→ltb,
  if◌then◌else◌, ◌==◌, none, some,
}
use native.Mathlib.Nat.{mod-eq_of_lt}
use dns_plus_plus.Tlv.Message.{TlvMessage, parse, payload_bytes, get_payload, get_payload_size}
use dns_plus_plus.Tlv.Builder.{
  Builder, new_builder, add_tlv, add_text, set_payload, count_tlvs, build, build_into,
}
use dns_plus_plus.Tlv.Frame.{Frame, encode_fields, encode_field, encode, IsField, IsFrame, Views}
use dns_plus_plus.Tlv.Parse.{read_16_at, length_at_field, drop_field, parse-encode, length-encode}

-- A builder holds a frame: its bytes are those of the fields so far.
pub record Holds (b : Builder) (fr : Frame) : Type 0 where
  pub same_kind : b.kind ≡ fr.kind
  pub same_bytes : b.tlv_bytes ≡ encode_fields fr.fields
  pub same_payload : b.payload ≡ fr.payload

abbrev pub with_field : ℕ → List ℕ → Frame → Frame
with_field kind value fr = record fr { fields = fr.fields ++ ((kind, value) ∷ []) }

abbrev pub empty_frame : ℕ → Frame
empty_frame kind = record { kind = kind; fields = []; payload = [] }

pub encode_fields-append :
    (fs gs : List (ℕ × List ℕ)) → encode_fields (fs ++ gs) ≡ encode_fields fs ++ encode_fields gs
encode_fields-append [] gs = refl
encode_fields-append (f ∷ fs) gs =
    ap (◌++◌ (encode_field f)) (encode_fields-append fs gs)
    ∙ sym (append_assoc (encode_field f) (encode_fields fs) (encode_fields gs))

pub new_builder-Holds : (kind : ℕ) → Holds (new_builder kind) (empty_frame kind)
unfolding new_builder
new_builder-Holds kind = record { same_kind = refl; same_bytes = refl; same_payload = refl }

-- `addTlv` over a whole value adds one field behind the others.
pub add_tlv-Holds :
    (kind len : ℕ) (value : List ℕ) {b : Builder} {fr : Frame}
    → len ≡ length value
    → Holds b fr
    → Holds (add_tlv kind value len b) (with_field kind value fr)
unfolding add_tlv
add_tlv-Holds kind len value {fr} e h = record {
  same_kind = h.same_kind;
  same_bytes =
      rw (e, h.same_bytes, take-length (length value) value (omega arith))
        (ap (λ t. encode_fields fr.fields ++ (bytes_16 kind ++ (bytes_16 (length value) ++ t)))
            (sym (append-nil value))
          ∙ sym (encode_fields-append fr.fields ((kind, value) ∷ [])));
  same_payload = h.same_payload;
}

-- A text of less than 64 KiB is added whole.
pub add_text-Holds :
    (kind : ℕ) (text : Text) {b : Builder} {fr : Frame}
    → length text < 2 ^ 16
    → Holds b fr
    → Holds (add_text kind text b) (with_field kind text fr)
unfolding add_text
add_text-Holds kind text fits h = add_tlv-Holds kind _ text (mod-eq_of_lt fits) h

pub set_payload-Holds :
    (bytes : List ℕ) {b : Builder} {fr : Frame}
    → Holds b fr
    → Holds (set_payload bytes b) (record fr { payload = bytes })
unfolding set_payload
set_payload-Holds bytes h = record {
  same_kind = h.same_kind;
  same_bytes = h.same_bytes;
  same_payload = refl;
}

count_tlvs_end :
    (buf : List ℕ) (cursor : ℕ)
    → cursor ≤ length buf
    → drop cursor buf ≡ []
    → ltb cursor (length buf) ≡ false
count_tlvs_end buf cursor h e =
    ltb-eq_false cursor (length buf) (omega (arith, length-drop cursor buf, ap length e))

pub count_tlvs-encode_fields :
    (fs : List (ℕ × List ℕ)) (fuel : ℕ) (buf : List ℕ) (cursor count : ℕ)
    → All IsField fs
    → cursor ≤ length buf
    → drop cursor buf ≡ encode_fields fs
    → length (encode_fields fs) ≤ fuel
    → count < 2 ^ 16
    → count_tlvs fuel buf cursor count ≡ done ((count + length fs) % 2 ^ 16)
unfolding count_tlvs
count_tlvs-encode_fields [] zero buf cursor count a h e f c =
    rw (count_tlvs_end buf cursor h e) (ap done (omega arith))
count_tlvs-encode_fields [] (suc fuel) buf cursor count a h e f c =
    rw (count_tlvs_end buf cursor h e) (ap done (omega arith))
count_tlvs-encode_fields ((kind, value) ∷ fs) zero buf cursor count a h e f c = absurd (omega arith)
count_tlvs-encode_fields ((kind, value) ∷ fs) (suc fuel) buf cursor count a h e f c =
    rw
      (
        more,
        read_16_at buf (value ++ encode_fields fs) cursor 2 (length value) a.0.1 (ap (drop 2) e),
      )
      (count_tlvs-encode_fields fs fuel buf (cursor + (4 + length value)) ((count + 1) % 2 ^ 16) a.1
          (omega (arith, length_at_field kind cursor value _ buf h e))
          (drop_field kind cursor value _ buf h e)
          (omega (arith, length-append value (encode_fields fs))) (omega arith)
        ∙ ap done (omega arith))
  where
    more : ltb cursor (length buf) ≡ true
    more = lt→ltb _ _ (omega (arith, length_at_field kind cursor value _ buf h e))

-- `build` writes the encoding of the frame.
pub build-encode : (b : Builder) (fr : Frame) → IsFrame fr → Holds b fr → build b ≡ done (encode fr)
unfolding build
build-encode b fr i h =
    rw (h.same_kind, h.same_bytes, h.same_payload, count, mod-eq_of_lt i.payload_fits)
  where
    bytes : List ℕ
    bytes = encode_fields fr.fields

    count : count_tlvs (length bytes) bytes 0 0 ≡ done (length fr.fields)
    count =
        count_tlvs-encode_fields fr.fields (length bytes) bytes 0 0 i.fields_fit (omega arith) refl
          (omega arith) (omega arith)
        ∙ ap done (omega (arith, i.count_fits))

-- For a builder that holds a frame which fits its length fields, `build` returns, and the
-- constructor accepts what it returns and shows the frame: type, every field in order, and
-- payload.
pub parse-build :
    (b : Builder) (fr : Frame)
    → IsFrame fr
    → Holds b fr
    → (m : TlvMessage) × ((build b >>= parse) ≡ done m) × Views m fr []
parse-build b fr i h =
    let (m, e, v) = parse-encode fr [] i in
    (m, rw (build-encode b fr i h) (ap parse (sym (append-nil (encode fr))) ∙ e), v)

-- For a builder that holds a frame which fits its length fields, `build(buffer, max_len)` writes
-- the encoding of the frame if it is at most max_len bytes, and writes nothing if it is longer.
pub build_into-encode :
    (max_len : ℕ) (b : Builder) (fr : Frame)
    → IsFrame fr
    → Holds b fr
    → build_into max_len b ≡ done (if ltb max_len (length (encode fr)) then [] else encode fr)
unfolding build_into
build_into-encode max_len b fr i h = rw (build-encode b fr i h)

-- On a message that shows a frame, `getPayload` returns null if the frame has no payload and the
-- position behind the fields otherwise, `getPayloadSize` its length, and the bytes of that size at
-- that position are the payload of the frame.
pub payload_bytes-Views :
    (m : TlvMessage) (fr : Frame) (rest : List ℕ)
    → Views m fr rest
    → (get_payload m
        ≡ (if length fr.payload == 0 then none else some (8 + length (encode_fields fr.fields))))
      × (get_payload_size m ≡ length fr.payload)
      × (payload_bytes m (8 + length (encode_fields fr.fields)) ≡ done fr.payload)
unfolding get_payload get_payload_size payload_bytes
payload_bytes-Views m fr rest v = (
  rw (v.is_valid, v.same_payload_len, v.offset) refl,
  v.same_payload_len,
  rw inside (ap done (ap₂ take v.same_payload_len tail ∙ take-append fr.payload rest)),
)
  where
    inside : ltb (length m.raw_data) (8 + length (encode_fields fr.fields) + m.payload_len) ≡ false
    inside =
        ltb-eq_false (length m.raw_data) (8 + length (encode_fields fr.fields) + m.payload_len)
          (omega (arith, v.same_payload_len, ap length v.framed, length-encode fr rest))

    tail : drop (8 + length (encode_fields fr.fields)) m.raw_data ≡ fr.payload ++ rest
    tail =
        drop_past m.raw_data (encode_fields fr.fields) (fr.payload ++ rest) 8
          (ap (drop 8) v.framed ∙ append_assoc (encode_fields fr.fields) fr.payload rest)
