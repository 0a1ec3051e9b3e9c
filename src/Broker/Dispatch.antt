-- ===== src/Broker/Dispatch.antt =====
-- The cases of `dispatch`: one for each handler.
use dns_plus_plus.Base.{
  ℕ, ◌≡◌, refl, Bool, true, false, ◌==◌, ==_iff, if◌then◌else◌, if_true, if_false, ◌∙◌, arith,
  Access, done,
}
use dns_plus_plus.Tlv.MsgType
use dns_plus_plus.Tlv.Message.{TlvMessage}
use dns_plus_plus.Geo.Numbers.{Floats}
use dns_plus_plus.Broker.State.{Broker, Addr, Env}
use dns_plus_plus.Broker.Subscribe.{handle_subscribe}
use dns_plus_plus.Broker.Publish.{handle_publish}
use dns_plus_plus.Broker.Membership.{
  handle_heartbeat, handle_hello, handle_region_update, handle_stats_request,
}
use dns_plus_plus.Broker.Service.{dispatch}

-- A property of a chain of tests on a number.
case_of {ℓ κ} :
    {A : Type ℓ} (P : A → Type κ) (a b : ℕ) {x y : A}
    → (a ≡ b → P x)
    → P y
    → P (if a == b then x else y)
case_of P a b {x} {y} p q = branch (a == b) (==_iff a b).0
  where
    branch : (t : Bool) → (t ≡ true → a ≡ b) → P (if t then x else y)
    branch true e = p (e refl)
    branch false e = q

module _ (f : Floats) (env : Env) where
  open f use {Double}

  pub dispatch-cases {κ} :
      (P : Access (Broker Double) → Type κ) (m : TlvMessage) (client : Addr) (now : ℕ)
      (s : Broker Double)
      → (m.msg_type ≡ MsgType.subscribe → P (handle_subscribe f env m client now s))
      → (m.msg_type ≡ MsgType.region_update → P (handle_region_update f m s))
      → (m.msg_type ≡ MsgType.publish → P (handle_publish f env m client now s))
      → (m.msg_type ≡ MsgType.heartbeat → P (handle_heartbeat f m now s))
      → (m.msg_type ≡ MsgType.hello → P (handle_hello f m client s))
      → (m.msg_type ≡ MsgType.stats_request → P (handle_stats_request f client s))
      → P (done s)
      → P (dispatch f env m client now s)
  unfolding dispatch
  dispatch-cases P m client now s sub region pub_ heart hello stats other =
      case_of P m.msg_type MsgType.subscribe sub (
        case_of P m.msg_type MsgType.region_update region (
          case_of P m.msg_type MsgType.publish pub_ (
            case_of P m.msg_type MsgType.heartbeat heart (
              case_of P m.msg_type MsgType.hello hello
                (case_of P m.msg_type MsgType.stats_request stats other)))))

  pub dispatch-subscribe :
      (m : TlvMessage) (client : Addr) (now : ℕ) (s : Broker Double)
      → m.msg_type ≡ MsgType.subscribe
      → dispatch f env m client now s ≡ handle_subscribe f env m client now s
  unfolding dispatch
  dispatch-subscribe m client now s kind =
      if_true (m.msg_type == MsgType.subscribe) _ (ground (arith, kind))

  pub dispatch-publish :
      (m : TlvMessage) (client : Addr) (now : ℕ) (s : Broker Double)
      → m.msg_type ≡ MsgType.publish
      → dispatch f env m client now s ≡ handle_publish f env m client now s
  unfolding dispatch
  dispatch-publish m client now s kind =
      if_false (m.msg_type == MsgType.subscribe) _ (ground (arith, kind))
      ∙ if_false (m.msg_type == MsgType.region_update) _ (ground (arith, kind))
      ∙ if_true (m.msg_type == MsgType.publish) _ (ground (arith, kind))
