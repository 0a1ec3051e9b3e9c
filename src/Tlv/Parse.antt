-- ===== src/Tlv/Parse.antt =====
-- Proofs on the constructor of `TlvMessage`, for the encoding of a frame.
use dns_plus_plus.Base.{
  ℕ, suc, ◌+◌, ◌^◌, ◌≤◌, ◌<◌, ◌≡◌, refl, sym, ap, ◌∙◌, List, [], ◌∷◌, ◌++◌, Option, some, true,
  false, length, drop, All, ltb, arith, done, read_16, read_32, head_16, head_32, bytes_16,
  bytes_32, drop-drop, drop_past, length-drop_le, length-append, append_assoc, head_16-bytes_16,
  head_32-bytes_32, ltb-eq_false,
}
use dns_plus_plus.Tlv.Message.{TlvMessage, scan_tlvs, accept, blank, parse}
use dns_plus_plus.Tlv.Frame.{Frame, encode_fields, encode_field, encode, IsField, IsFrame, Views}

-- A read at an offset into a tail that is known.
pub read_16_at :
    (buf rest : List ℕ) (at n v : ℕ)
    → v < 2 ^ 16
    → drop n (drop at buf) ≡ bytes_16 v ++ rest
    → read_16 buf (at + n) ≡ done v
unfolding read_16
read_16_at buf rest at n v h e =
    ap head_16 (sym (drop-drop n at buf) ∙ e) ∙ head_16-bytes_16 v rest h

pub read_32_at :
    (buf rest : List ℕ) (at n v : ℕ)
    → v < 2 ^ 32
    → drop n (drop at buf) ≡ bytes_32 v ++ rest
    → read_32 buf (at + n) ≡ done v
unfolding read_32
read_32_at buf rest at n v h e =
    ap head_32 (sym (drop-drop n at buf) ∙ e) ∙ head_32-bytes_32 v rest h

-- Around a field that stands at the cursor: its size, and what stands behind it.
module _ (kind cursor : ℕ) (value more buf : List ℕ) (h : cursor ≤ length buf)
    (e : drop cursor buf ≡ encode_field (kind, value) ++ more) where
  pub length_at_field : length buf ≡ cursor + (4 + (length value + length more))
  length_at_field = omega (arith, length-drop_le buf _ cursor h e, length-append value more)

  pub drop_field : drop (cursor + (4 + length value)) buf ≡ more
  drop_field =
      ap (λ n. drop n buf) (omega arith) ∙ drop_past buf (encode_field (kind, value)) more cursor e

pub regroup_fields :
    (kind : ℕ) (value rest : List ℕ) (fs : List (ℕ × List ℕ))
    → encode_fields ((kind, value) ∷ fs) ++ rest
      ≡ encode_field (kind, value) ++ (encode_fields fs ++ rest)
regroup_fields kind value rest fs =
    ap (λ t. bytes_16 kind ++ (bytes_16 (length value) ++ t))
      (append_assoc value (encode_fields fs) rest)

-- One round of the loop over a field that is there.
scan_tlvs_step :
    (k kind : ℕ) (value more buf : List ℕ) (cursor : ℕ)
    → IsField (kind, value)
    → cursor ≤ length buf
    → drop cursor buf ≡ encode_field (kind, value) ++ more
    → scan_tlvs (suc k) buf cursor ≡ scan_tlvs k buf (cursor + (4 + length value))
unfolding scan_tlvs
scan_tlvs_step k kind value more buf cursor f h e = rw (
  ltb-eq_false (length buf) (cursor + 4) (omega (arith, size)),
  read_16_at buf (value ++ more) cursor 2 (length value) f.1 (ap (drop 2) e),
  ltb-eq_false (length buf) (cursor + (4 + length value)) (omega (arith, size)),
)
  where
    size : length buf ≡ cursor + (4 + (length value + length more))
    size = length_at_field kind cursor value more buf h e

scan_tlvs-encode_fields :
    (fs : List (ℕ × List ℕ)) (rest buf : List ℕ) (cursor : ℕ)
    → All IsField fs
    → cursor ≤ length buf
    → drop cursor buf ≡ encode_fields fs ++ rest
    → scan_tlvs (length fs) buf cursor ≡ done (some (cursor + length (encode_fields fs)))
scan_tlvs-encode_fields [] rest buf cursor a h e =
    unfold scan_tlvs in ap (λ c. done (some c)) (omega arith)
scan_tlvs-encode_fields ((kind, value) ∷ fs) rest buf cursor a h e =
    scan_tlvs_step (length fs) kind value (encode_fields fs ++ rest) buf cursor a.0 h e'
    ∙ scan_tlvs-encode_fields fs rest buf (cursor + (4 + length value)) a.1
        (omega (arith, length_at_field kind cursor value _ buf h e'))
        (drop_field kind cursor value _ buf h e')
    ∙ ap (λ c. done (some c)) (omega (arith, length-append value (encode_fields fs)))
  where
    e' : drop cursor buf ≡ encode_field (kind, value) ++ (encode_fields fs ++ rest)
    e' = e ∙ regroup_fields kind value rest fs

pub parse_steps :
    (buf : List ℕ) (kind num plen : ℕ) (scanned : Option ℕ)
    → ltb (length buf) 8 ≡ false
    → read_16 buf 0 ≡ done kind
    → read_16 buf 2 ≡ done num
    → read_32 buf 4 ≡ done plen
    → scan_tlvs num buf 8 ≡ done scanned
    → parse buf
      ≡ done (
          accept
            (record (blank buf) { msg_type = kind; num_tlvs = num; payload_len = plen })
            scanned)
unfolding parse
parse_steps buf kind num plen scanned size k n p s = rw (size, k, n, p, s)

pub accept_fits :
    (m : TlvMessage) (cursor : ℕ)
    → cursor + m.payload_len ≤ length m.raw_data
    → accept m (some cursor) ≡ record m { payload_offset = cursor; valid = true }
unfolding accept
accept_fits m cursor h = rw (ltb-eq_false (length m.raw_data) (cursor + m.payload_len) h)

abbrev view_of : Frame → List ℕ → TlvMessage
view_of fr rest = record {
  raw_data = encode fr ++ rest;
  valid = true;
  msg_type = fr.kind;
  num_tlvs = length fr.fields;
  payload_len = length fr.payload;
  payload_offset = 8 + length (encode_fields fr.fields);
}

pub length-encode :
    (fr : Frame) (rest : List ℕ)
    → length (encode fr ++ rest)
      ≡ 8 + length (encode_fields fr.fields) + length fr.payload + length rest
length-encode fr rest = omega (
  arith,
  length-append (encode_fields fr.fields ++ fr.payload) rest,
  length-append (encode_fields fr.fields) fr.payload,
)

parse-encode_eq :
    (fr : Frame) (rest : List ℕ) → IsFrame fr → parse (encode fr ++ rest) ≡ done (view_of fr rest)
parse-encode_eq fr rest v =
    parse_steps buf fr.kind (length fr.fields) (length fr.payload) (some cursor)
      (ltb-eq_false (length buf) 8 (omega (arith, length-encode fr rest)))
      (read_16_at buf _ 0 0 fr.kind v.kind_fits refl)
      (read_16_at buf _ 0 2 (length fr.fields) v.count_fits refl)
      (read_32_at buf _ 0 4 (length fr.payload) v.payload_fits refl)
      (scan_tlvs-encode_fields fr.fields (fr.payload ++ rest) buf 8 v.fields_fit
        (omega (arith, length-encode fr rest))
        (append_assoc (encode_fields fr.fields) fr.payload rest))
    ∙ ap done (accept_fits _ cursor (omega (arith, length-encode fr rest)))
  where
    buf : List ℕ
    buf = encode fr ++ rest

    cursor : ℕ
    cursor = 8 + length (encode_fields fr.fields)

-- The constructor accepts the encoding of every frame that fits its length fields, whatever bytes
-- follow it, and the message that it makes shows that frame.
pub parse-encode :
    (fr : Frame) (rest : List ℕ)
    → IsFrame fr
    → (m : TlvMessage) × (parse (encode fr ++ rest) ≡ done m) × Views m fr rest
parse-encode fr rest v = (
  view_of fr rest,
  parse-encode_eq fr rest v,
  record {
    framed = refl;
    is_valid = refl;
    same_kind = refl;
    same_count = refl;
    same_payload_len = refl;
    offset = refl;
  },
)
