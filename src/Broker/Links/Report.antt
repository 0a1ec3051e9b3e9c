-- ===== src/Broker/Links/Report.antt =====
-- Proofs on the reply to a STATS_REQUEST, as a client reads it.
use dns_plus_plus.Base.{
  ℕ, ◌+◌, ◌*◌, ◌/◌, ◌^◌, ◌<◌, ◌≡◌, refl, ap, ap₂, sym, subst, ◌∙◌, Bool, true, false, if◌then◌else◌,
  length, ◌%◌, List, [], ◌∷◌, ◌++◌, some, All, append-nil, arith, done, Returns, bytes_32, be_32,
}
use dns_plus_plus.Tlv.MsgType
use dns_plus_plus.Tlv.TlvType
use dns_plus_plus.Tlv.Message.{TlvMessage, parse, get_text}
use dns_plus_plus.Tlv.Frame.{Frame, encode, IsFrame}
use dns_plus_plus.Tlv.Parse.{parse-encode}
use dns_plus_plus.Tlv.Fields.{get_text-Views}
use dns_plus_plus.Tlv.Build.{Holds, new_builder-Holds, add_tlv-Holds, with_field, empty_frame}
use dns_plus_plus.Geo.Numbers.{Floats}
use dns_plus_plus.Broker.State.{Broker, Addr, Stats}
use dns_plus_plus.Broker.Send.{send_bytes}
use dns_plus_plus.Broker.Membership.{
  words, braked_total, ext_values, old_values, stats_message, take_snapshot, handle_stats_request,
}
use dns_plus_plus.Broker.Safety.Members.{length-words}
use dns_plus_plus.Broker.Links.Wire.{send-Holds}

-- `be64toh` of each eight bytes.
abbrev pub read_words : List ℕ → List ℕ
read_words (a ∷ b ∷ c ∷ d ∷ e ∷ g ∷ h ∷ i ∷ rest) =
    (be_32 (a ∷ b ∷ c ∷ d ∷ []) * 2 ^ 32 + be_32 (e ∷ g ∷ h ∷ i ∷ [])) ∷ read_words rest
read_words _ = []

word_back : (v : ℕ) → v < 2 ^ 64 → be_32 (bytes_32 (v / 2 ^ 32)) * 2 ^ 32 + be_32 (bytes_32 v) ≡ v
word_back v h = omega arith

read_words-words : (vs : List ℕ) → All (λ v. v < 2 ^ 64) vs → read_words (words vs) ≡ vs
unfolding words
read_words-words [] h = refl
read_words-words (v ∷ vs) h = ap₂ (λ (w : ℕ) ws. w ∷ ws) (word_back v h.0) (read_words-words vs h.1)

-- The twelve values of a report, in the order of the README, from the broker.
abbrev pub report : {V : Type 0} → Stats → List V → Bool → List ℕ
report t groups encrypted =
    t.forward_up
    ∷ t.forward_down
    ∷ t.delivered_local
    ∷ (t.braked_up + t.braked_local) % 2 ^ 64
    ∷ t.match_calls
    ∷ t.match_hits
    ∷ t.pub_received
    ∷ t.sub_received
    ∷ length groups
    ∷ (if encrypted then 1 else 0)
    ∷ t.braked_up
    ∷ t.braked_local
    ∷ []

-- The counters fit their type.
pub record IsCounted (t : Stats) : Type 0 where
  pub forward_up_fits : t.forward_up < 2 ^ 64
  pub forward_down_fits : t.forward_down < 2 ^ 64
  pub delivered_local_fits : t.delivered_local < 2 ^ 64
  pub match_calls_fits : t.match_calls < 2 ^ 64
  pub match_hits_fits : t.match_hits < 2 ^ 64
  pub pub_received_fits : t.pub_received < 2 ^ 64
  pub sub_received_fits : t.sub_received < 2 ^ 64
  pub braked_up_fits : t.braked_up < 2 ^ 64
  pub braked_local_fits : t.braked_local < 2 ^ 64

mode-fits : (b : Bool) → (if b then 1 else 0) < 2 ^ 64
mode-fits true = omega arith
mode-fits false = omega arith

report-fits :
    {V : Type 0} (t : Stats) (groups : List V) (b : Bool)
    → IsCounted t
    → length groups < 2 ^ 64
    → All (λ v. v < 2 ^ 64) (report t groups b)
report-fits t groups b h k = (
  h.forward_up_fits,
  (
    h.forward_down_fits,
    (
      h.delivered_local_fits,
      (
        omega arith,
        (
          h.match_calls_fits,
          (
            h.match_hits_fits,
            (
              h.pub_received_fits,
              (
                h.sub_received_fits,
                (k, (mode-fits b, (h.braked_up_fits, (h.braked_local_fits, tt)))),
              ),
            ),
          ),
        ),
      ),
    ),
  ),
)

abbrev stats_frame : Stats → Frame
stats_frame t =
    with_field TlvType.stats_data_ext (words (ext_values t))
      (with_field TlvType.stats_data (words (old_values t)) (empty_frame MsgType.stats_response))

stats_frame-IsFrame : (t : Stats) → IsFrame (stats_frame t)
unfolding ext_values old_values
stats_frame-IsFrame t = record {
  kind_fits = omega arith;
  fields_fit = (
    (omega arith, omega (arith, length-words (old_values t))),
    ((omega arith, omega (arith, length-words (ext_values t))), tt),
  );
  count_fits = omega arith;
  payload_fits = omega arith;
}

stats_message-Holds : (t : Stats) → Holds (stats_message t) (stats_frame t)
unfolding stats_message ext_values old_values
stats_message-Holds t =
    add_tlv-Holds TlvType.stats_data_ext 96 (words (ext_values t))
      (omega (arith, length-words (ext_values t)))
      (add_tlv-Holds TlvType.stats_data 32 (words (old_values t))
        (omega (arith, length-words (old_values t))) (new_builder-Holds MsgType.stats_response))

-- What the client reads in a reply.
pub record Reports (report : List ℕ) (bytes : List ℕ) : Type 0 where
  pub message : TlvMessage
  pub parsed : parse bytes ≡ done message
  pub values : List ℕ
  pub found : get_text message TlvType.stats_data_ext ≡ done (some values)
  pub twelve : read_words values ≡ report

reports :
    (t : Stats)
    → All (λ v. v < 2 ^ 64) (ext_values t)
    → Reports (ext_values t) (encode (stats_frame t))
reports t h =
    let (m, e, v) = parse-encode (stats_frame t) [] (stats_frame-IsFrame t) in
    record {
      message = m;
      parsed = ap parse (sym (append-nil (encode (stats_frame t)))) ∙ e;
      values = words (ext_values t);
      found = get_text-Views m (stats_frame t) [] (stats_frame-IsFrame t) v TlvType.stats_data_ext;
      twelve = read_words-words (ext_values t) h;
    }

module _ (f : Floats) where
  open f use {Double}

  ext_values-take_snapshot :
      (s : Broker Double)
      → ext_values (take_snapshot f s).stats ≡ report s.stats s.subscribers s.he_enabled
  unfolding ext_values take_snapshot braked_total
  ext_values-take_snapshot s = refl

  -- If the counters and the number of groups fit 64 bits: the reply to a STATS_REQUEST is one
  -- datagram to the client. The constructor accepts it, and the words of its STATS_DATA_EXT field,
  -- read back in network order, are: forwarded up, forwarded down, delivered, braked in both
  -- directions modulo 2^64, match calls, match hits, publications, subscriptions, the number of
  -- groups at that time, 1 in encrypted mode and 0 otherwise, braked up, braked locally.
  pub handle_stats_request-Reports :
      (client : Addr) (s : Broker Double)
      → IsCounted s.stats
      → length s.subscribers < 2 ^ 64
      → Returns (handle_stats_request f client s) (λ t.
        (bytes : List ℕ) × (t.outbox ≡ s.outbox ++ (record { dest = client; bytes = bytes } ∷ []))
        × Reports (report s.stats s.subscribers s.he_enabled) bytes)
  unfolding handle_stats_request
  handle_stats_request-Reports client s h k =
      let now = take_snapshot f s in
      let same = ext_values-take_snapshot s in
      (
        send_bytes f client (encode (stats_frame now.stats)) now,
        send-Holds f client (stats_message now.stats) (stats_frame now.stats) now
            (stats_frame-IsFrame now.stats) (stats_message-Holds now.stats),
        (
          encode (stats_frame now.stats),
          unfold take_snapshot send_bytes in refl,
          subst (λ vs. Reports vs (encode (stats_frame now.stats))) same
              (reports now.stats (
                subst (All (λ v. v < 2 ^ 64)) (sym same)
                  (report-fits s.stats s.subscribers s.he_enabled h k))),
        ),
      )
