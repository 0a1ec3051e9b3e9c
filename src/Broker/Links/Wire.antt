-- ===== src/Broker/Links/Wire.antt =====
-- Proofs on a message that one broker sends and another one receives.
use dns_plus_plus.Base.{
  ℕ, ◌≤◌, ◌≡◌, refl, sym, ◌∙◌, false, List, [], ◌∷◌, ◌++◌, append-nil, length, take, ◌==◌, arith,
  Access, done, take-length,
}
use dns_plus_plus.Tlv.Message.{TlvMessage}
use dns_plus_plus.Tlv.Builder.{Builder}
use dns_plus_plus.Tlv.Frame.{Frame, encode, IsFrame, Views}
use dns_plus_plus.Tlv.Parse.{parse-encode}
use dns_plus_plus.Tlv.Build.{Holds, build-encode}
use dns_plus_plus.Geo.Numbers.{Floats}
use dns_plus_plus.Broker.State.{Broker, Addr, Env}
use dns_plus_plus.Broker.Send.{send, send_bytes}
use dns_plus_plus.Broker.Service.{buffer_size, Datagram, dispatch, receive}

-- A frame that travels in one datagram.
pub record IsDatagram (fr : Frame) : Type 0 where
  pub is_frame : IsFrame fr
  pub fits : length (encode fr) ≤ buffer_size

-- The datagram of a frame, as its receiver sees it.
abbrev pub carrying : Frame → Addr → ℕ → Datagram
carrying fr sender now = record { sender = sender; bytes = encode fr; now = now }

module _ (f : Floats) where
  open f use {Double}

  pub send-Holds :
      (dest : Addr) (b : Builder) (fr : Frame) (s : Broker Double)
      → IsFrame fr
      → Holds b fr
      → send f dest b s ≡ done (send_bytes f dest (encode fr) s)
  unfolding send
  send-Holds dest b fr s i h = rw (build-encode b fr i h) refl

  module _ (env : Env) where
    -- The receiver dispatches a message that shows the frame.
    pub receive-carrying :
        (fr : Frame) (sender : Addr) (now : ℕ) (s : Broker Double)
        → IsDatagram fr
        → (m : TlvMessage) × (receive f env (carrying fr sender now) s
            ≡ dispatch f env m sender now s)
          × Views m fr []
    unfolding receive
    receive-carrying fr sender now s d =
        let (m, e, v) = parse-encode fr [] d.is_frame in
        (m, rw (some_bytes, whole_buffer, e, v.is_valid) refl, v)
      where
        some_bytes : (length (encode fr) == 0) ≡ false
        some_bytes = ground arith

        whole_buffer : take buffer_size (encode fr) ≡ encode fr ++ []
        whole_buffer = take-length buffer_size (encode fr) d.fits ∙ sym (append-nil (encode fr))

    -- An operation of one broker sends one datagram to `dest`, and from that datagram, which comes
    -- from `sender`, the receiver goes on to a state with the property.
    pub record Reaches (op : Access (Broker Double)) (s : Broker Double) (dest sender : Addr)
        (now : ℕ) (r : Broker Double) (P : Broker Double → Type 0) : Type 0 where
      pub bytes : List ℕ
      pub next : Broker Double
      pub sent : op ≡ done next
      pub sent_alone : next.outbox ≡ s.outbox ++ (record { dest = dest; bytes = bytes } ∷ [])
      pub result : Broker Double
      pub received :
          receive f env (record { sender = sender; bytes = bytes; now = now }) r ≡ done result
      pub holds : P result
