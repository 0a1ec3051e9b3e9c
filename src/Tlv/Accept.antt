-- ===== src/Tlv/Accept.antt =====
-- Proofs on the constructor of `TlvMessage`, for any bytes.
use dns_plus_plus.Base.{
  ℕ, zero, suc, ◌+◌, ◌^◌, ◌≤◌, ◌<◌, ◌≡◌, refl, sym, ap, ap₂, ◌∙◌, ◌⊎◌, inl, inr, List, [], ◌∷◌,
  ◌++◌, none, some, true, false, Bool-cases, length, take, drop, All, ltb, arith, done, read_16,
  read_32, bytes_16, bytes_32, IsByte, drop-drop, length-drop, length-take, length-append,
  take-append-drop, All-drop, head_16-split, head_32-split, append_assoc,
}
use dns_plus_plus.Tlv.Message.{TlvMessage, scan_tlvs, accept, blank, parse}
use dns_plus_plus.Tlv.Frame.{Frame, encode_fields, encode, IsField, IsFrame, Views}
use dns_plus_plus.Tlv.Parse.{regroup_fields, parse_steps}

module _ (buf : List ℕ) (at : ℕ) (b : All IsByte buf) where
  word_16_at :
      at + 2 ≤ length buf
      → (v : ℕ) × (v < 2 ^ 16)
        × (read_16 buf at ≡ done v)
        × (drop at buf ≡ bytes_16 v ++ drop (at + 2) buf)
  unfolding read_16
  word_16_at h =
      let (v, lt, r, e) =
        head_16-split (drop at buf) (All-drop IsByte at buf b)
          (omega (arith, length-drop at buf)) in
      (v, lt, r, e ∙ ap (λ t. bytes_16 v ++ t) (drop-drop 2 at buf))

  word_32_at :
      at + 4 ≤ length buf
      → (v : ℕ) × (v < 2 ^ 32)
        × (read_32 buf at ≡ done v)
        × (drop at buf ≡ bytes_32 v ++ drop (at + 4) buf)
  unfolding read_32
  word_32_at h =
      let (v, lt, r, e) =
        head_32-split (drop at buf) (All-drop IsByte at buf b)
          (omega (arith, length-drop at buf)) in
      (v, lt, r, e ∙ ap (λ t. bytes_32 v ++ t) (drop-drop 4 at buf))

record Scanned (k : ℕ) (buf : List ℕ) (cursor : ℕ) : Type 0 where
  fields : List (ℕ × List ℕ)
  rest : List ℕ
  fit : All IsField fields
  counted : length fields ≡ k
  ends : scan_tlvs k buf cursor ≡ done (some (cursor + length (encode_fields fields)))
  split : drop cursor buf ≡ encode_fields fields ++ rest

rejoin :
    (kind size cursor : ℕ) (buf rest : List ℕ) (fs : List (ℕ × List ℕ))
    → length (take size (drop (cursor + 4) buf)) ≡ size
    → drop (cursor + (4 + size)) buf ≡ encode_fields fs ++ rest
    → bytes_16 kind ++ (bytes_16 size ++ drop (cursor + 4) buf)
      ≡ encode_fields ((kind, take size (drop (cursor + 4) buf)) ∷ fs) ++ rest
rejoin kind size cursor buf rest fs len e =
    ap (λ t. bytes_16 kind ++ (bytes_16 size ++ t)) parts
    ∙ ap (λ n. bytes_16 kind ++ (bytes_16 n ++ (value ++ (encode_fields fs ++ rest)))) (sym len)
    ∙ sym (regroup_fields kind value rest fs)
  where
    value : List ℕ
    value = take size (drop (cursor + 4) buf)

    parts : drop (cursor + 4) buf ≡ value ++ (encode_fields fs ++ rest)
    parts =
        sym (take-append-drop size (drop (cursor + 4) buf))
        ∙ ap (◌++◌ value) (drop-drop size (cursor + 4) buf ∙ ap (λ n. drop n buf) (omega arith) ∙ e)

-- The field at the cursor, and the rest of the loop behind it.
scan_field :
    (k : ℕ) (buf : List ℕ) (cursor kind size : ℕ)
    → All IsByte buf
    → ltb (length buf) (cursor + 4) ≡ false
    → kind < 2 ^ 16
    → size < 2 ^ 16
    → read_16 buf (cursor + 2) ≡ done size
    → drop cursor buf ≡ bytes_16 kind ++ (bytes_16 size ++ drop (cursor + 4) buf)
    → (cursor + (4 + size) ≤ length buf
        → (scan_tlvs k buf (cursor + (4 + size)) ≡ done none) ⊎ Scanned k buf (cursor + (4 + size)))
    → (scan_tlvs (suc k) buf cursor ≡ done none) ⊎ Scanned (suc k) buf cursor
scan_field k buf cursor kind size b fits hk hs read split ih =
    elim (Bool-cases (ltb (length buf) (cursor + (4 + size)))) [
      | inl short ↦ inl (unfold scan_tlvs in rw (fits, read, short))
      | inr long ↦ elim (ih (ground arith)) [
        | inl e ↦ inl (unfold scan_tlvs in rw (fits, read, long) e)
        | inr t ↦ inr (record {
          fields = (kind, take size (drop (cursor + 4) buf)) ∷ t.fields;
          rest = t.rest;
          fit = ((hk, omega (arith, value_size long)), t.fit);
          counted = ap suc t.counted;
          ends =
              unfold scan_tlvs in
              rw (fits, read, long)
                (t.ends
                  ∙ ap (λ c. done (some c))
                      (omega (
                        arith,
                        value_size long,
                        length-append (value long) (encode_fields t.fields),
                      )));
          split = split ∙ rejoin kind size cursor buf t.rest t.fields (value_size long) t.split;
        })
      ]
    ]
  where
    value : ltb (length buf) (cursor + (4 + size)) ≡ false → List ℕ
    value long = take size (drop (cursor + 4) buf)

    value_size :
        (long : ltb (length buf) (cursor + (4 + size)) ≡ false) → length (value long) ≡ size
    value_size long =
        ground (arith, length-take size (drop (cursor + 4) buf), length-drop (cursor + 4) buf)

scan_tlvs-cases :
    (k : ℕ) (buf : List ℕ) (cursor : ℕ)
    → All IsByte buf
    → cursor ≤ length buf
    → (scan_tlvs k buf cursor ≡ done none) ⊎ Scanned k buf cursor
scan_tlvs-cases zero buf cursor b h = inr (record {
  fields = [];
  rest = drop cursor buf;
  fit = tt;
  counted = refl;
  ends = unfold scan_tlvs in ap (λ c. done (some c)) (omega arith);
  split = refl;
})
scan_tlvs-cases (suc k) buf cursor b h = elim (Bool-cases (ltb (length buf) (cursor + 4))) [
  | inl short ↦ inl (unfold scan_tlvs in rw short)
  | inr fits ↦
      let (kind, kind_fits, _, first) = word_16_at buf cursor b (ground arith) in
      let (size, size_fits, read, second) = word_16_at buf (cursor + 2) b (ground arith) in
      scan_field k buf cursor kind size b fits kind_fits size_fits read
        (first
          ∙ ap (λ t. bytes_16 kind ++ t) second
          ∙ ap (λ n. bytes_16 kind ++ (bytes_16 size ++ drop n buf)) (omega arith))
        (λ le. scan_tlvs-cases k buf (cursor + (4 + size)) b le)
]

-- Where the fixed header fits, what the constructor read.
record Header (buf : List ℕ) : Type 0 where
  kind : ℕ
  num : ℕ
  plen : ℕ
  kind_fits : kind < 2 ^ 16
  num_fits : num < 2 ^ 16
  plen_fits : plen < 2 ^ 32
  kind_read : read_16 buf 0 ≡ done kind
  num_read : read_16 buf 2 ≡ done num
  plen_read : read_32 buf 4 ≡ done plen
  split : buf ≡ bytes_16 kind ++ (bytes_16 num ++ (bytes_32 plen ++ drop 8 buf))

Header-of : (buf : List ℕ) → All IsByte buf → 8 ≤ length buf → Header buf
Header-of buf b h =
    let (kind, kind_fits, kind_read, first) = word_16_at buf 0 b (omega arith) in
    let (num, num_fits, num_read, second) = word_16_at buf 2 b (omega arith) in
    let (plen, plen_fits, plen_read, third) = word_32_at buf 4 b (omega arith) in
    record {
      kind = kind;
      num = num;
      plen = plen;
      kind_fits = kind_fits;
      num_fits = num_fits;
      plen_fits = plen_fits;
      kind_read = kind_read;
      num_read = num_read;
      plen_read = plen_read;
      split = first ∙ ap (λ t. bytes_16 kind ++ t) (second ∙ ap (λ t. bytes_16 num ++ t) third);
    }

-- The two outcomes of the constructor: `valid_` stays false, or the message shows a frame.
abbrev pub Outcome : List ℕ → Type 0
Outcome buf =
    (m : TlvMessage) × (parse buf ≡ done m)
    × (m.raw_data ≡ buf)
    × ((m.valid ≡ false) ⊎ ((fr : Frame) × (rest : List ℕ) × IsFrame fr × Views m fr rest))

module _ (buf : List ℕ) (hd : Header buf) (t : Scanned hd.num buf 8)
    (short : ltb (length buf) 8 ≡ false) where
  cursor : ℕ
  cursor = 8 + length (encode_fields t.fields)

  bare : TlvMessage
  bare = record (blank buf) { msg_type = hd.kind; num_tlvs = hd.num; payload_len = hd.plen }

  parsed : parse buf ≡ done (accept bare (some cursor))
  unfolding bare cursor
  parsed =
      parse_steps buf hd.kind hd.num hd.plen (some cursor) short hd.kind_read hd.num_read
        hd.plen_read t.ends

  frame : Frame
  frame = record { kind = hd.kind; fields = t.fields; payload = take hd.plen t.rest }

  room : length buf ≡ cursor + length t.rest
  unfolding cursor
  room =
      ground
        (arith, length-drop 8 buf, ap length t.split, length-append (encode_fields t.fields) t.rest)

  size_payload :
      ltb (length buf) (cursor + hd.plen) ≡ false → length (take hd.plen t.rest) ≡ hd.plen
  size_payload long = ground (arith, length-take hd.plen t.rest, room)

  framed : length (take hd.plen t.rest) ≡ hd.plen → buf ≡ encode frame ++ drop hd.plen t.rest
  unfolding frame
  framed size =
      hd.split
      ∙ ap (λ n. bytes_16 hd.kind ++ (bytes_16 n ++ (bytes_32 hd.plen ++ drop 8 buf)))
          (sym t.counted)
      ∙ ap₂ (λ n r. bytes_16 hd.kind ++ (bytes_16 (length t.fields) ++ (bytes_32 n ++ r)))
          (sym size) tail
    where
      tail : drop 8 buf ≡ (encode_fields t.fields ++ take hd.plen t.rest) ++ drop hd.plen t.rest
      tail =
          t.split
          ∙ ap (◌++◌ (encode_fields t.fields)) (sym (take-append-drop hd.plen t.rest))
          ∙ sym (append_assoc (encode_fields t.fields) (take hd.plen t.rest) (drop hd.plen t.rest))

  accepted : Outcome buf
  unfolding cursor bare frame
  accepted = elim (Bool-cases (ltb (length buf) (cursor + hd.plen))) [
    | inl over ↦
        (record bare { payload_offset = cursor }, parsed ∙ unfold accept in rw over, refl, inl refl)
    | inr long ↦ (
      record bare { payload_offset = cursor; valid = true },
      parsed ∙ unfold accept in rw long,
      refl,
      inr (
        frame,
        drop hd.plen t.rest,
        record {
          kind_fits = hd.kind_fits;
          fields_fit = t.fit;
          count_fits = omega (arith, t.counted, hd.num_fits);
          payload_fits = omega (arith, size_payload long, hd.plen_fits);
        },
        record {
          framed = framed (size_payload long);
          is_valid = refl;
          same_kind = refl;
          same_count = sym t.counted;
          same_payload_len = sym (size_payload long);
          offset = refl;
        },
      ),
    )
  ]

-- On any bytes the message constructor ends without a read outside the buffer. It keeps the
-- buffer, and it sets the valid flag only where the buffer is the encoding of a frame that fits
-- its length fields, followed by any bytes.
pub parse_cases : (buf : List ℕ) → All IsByte buf → Outcome buf
parse_cases buf b = elim (Bool-cases (ltb (length buf) 8)) [
  | inl short ↦ (blank buf, unfold parse in rw short, refl, inl refl)
  | inr long ↦
      let hd = Header-of buf b (ground arith) in
      elim (scan_tlvs-cases hd.num buf 8 b (ground arith)) [
        | inl e ↦ (
          record (blank buf) { msg_type = hd.kind; num_tlvs = hd.num; payload_len = hd.plen },
          parse_steps buf hd.kind hd.num hd.plen none long hd.kind_read hd.num_read hd.plen_read e
              ∙ unfold accept in refl,
          refl,
          inl refl,
        )
        | inr t ↦ accepted buf hd t long
      ]
]
