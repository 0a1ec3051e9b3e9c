-- ===== src/Broker/Links/Runs.antt =====
-- Two brokers of Broker.Samples that talk to each other, and the theorems on them.
use dns_plus_plus.Base.{
  List, ◌++◌, Returns, ℕ, ◌≡◌, refl, false, [], ◌∷◌, some, find, text_eq, arith,
}
use dns_plus_plus.Broker.State.{Broker, Addr, ChildBroker}
use dns_plus_plus.Broker.Send.{
  send_region_update_to_parent, forward_subscription, find_child_by_addr, member,
}
use dns_plus_plus.Broker.Membership.{handle_stats_request}
use dns_plus_plus.Broker.Service.{say_hello}
use dns_plus_plus.Broker.Links.Wire.{Reaches}
use dns_plus_plus.Broker.Links.Hello.{IsSized, IsAdopted, say_hello-receive}
use dns_plus_plus.Broker.Links.Regions.{rounded, widened, IsTold, send_region_update-receive}
use dns_plus_plus.Broker.Links.Interest.{IsInterested, forward_subscription-receive}
use dns_plus_plus.Broker.Links.Report.{report, IsCounted, Reports, handle_stats_request-Reports}
use dns_plus_plus.Broker.Samples.{whole, whole-FloatBits, env, broker}

abbrev child_addr : Addr
child_addr = record { ip = 20; port = 9000 }

abbrev entry : ChildBroker ℕ
entry = record {
  id = b'x' ∷ [];
  addr = child_addr;
  lat = 3;
  lon = 3;
  region = record { min_lat = 3; max_lat = 3; min_lon = 3; max_lon = 3 };
  active = false;
  closest_quad = record { sw = 9; se = 9; nw = 9; ne = 9 };
}

-- The child has seen a point at 7, 8; the parent knows it.
abbrev child : Broker ℕ
child = record broker { my_region = record { min_lat = 3; max_lat = 7; min_lon = 3; max_lon = 8 } }

abbrev parent : Broker ℕ
parent = record broker {
  config = record broker.config { broker_id = b'y' ∷ [] };
  children = (b'x' ∷ [], entry) ∷ [];
}

child-IsSized : IsSized child.config
child-IsSized = record { id_fits = omega arith; lat_fits = omega arith; lon_fits = omega arith }

parent-IsSized : IsSized parent.config
parent-IsSized = record { id_fits = omega arith; lat_fits = omega arith; lon_fits = omega arith }

parent_knows : find (b'x' ∷ []) parent.children ≡ some entry
unfolding find
parent_knows = refl

sender_known : find_child_by_addr whole child_addr parent.children ≡ b'x' ∷ []
unfolding find_child_by_addr
sender_known = refl

key_new : member (b'k' ∷ []) child.ot_parent ≡ false
unfolding member
key_new = refl

say_hello-receive_example :
    Reaches whole env
      (say_hello whole env child)
      child
      child.parent_addr
      child_addr
      50
      parent
      (IsAdopted whole child.config child_addr parent)
say_hello-receive_example =
    say_hello-receive whole env child parent child_addr 50 refl child-IsSized parent-IsSized

send_region_update-receive_example :
    Reaches whole env
      (send_region_update_to_parent whole child)
      child
      child.parent_addr
      child_addr
      50
      parent
      (IsTold whole (b'x' ∷ []) entry (widened whole (rounded whole child.my_region)) parent)
send_region_update-receive_example =
    send_region_update-receive whole whole-FloatBits env child parent entry child_addr 50 refl
      (omega arith) (omega arith) parent_knows

forward_subscription-receive_example :
    Reaches whole env
      (forward_subscription whole (b'k' ∷ []) child)
      child
      child.parent_addr
      child_addr
      50
      parent
      (IsInterested whole (b'k' ∷ []) (b'x' ∷ []) parent)
forward_subscription-receive_example =
    forward_subscription-receive whole env (b'k' ∷ []) (b'x' ∷ []) child parent child_addr 50 refl
      key_new (omega arith) sender_known refl

parent-IsCounted : IsCounted parent.stats
parent-IsCounted = record {
  forward_up_fits = omega arith;
  forward_down_fits = omega arith;
  delivered_local_fits = omega arith;
  match_calls_fits = omega arith;
  match_hits_fits = omega arith;
  pub_received_fits = omega arith;
  sub_received_fits = omega arith;
  braked_up_fits = omega arith;
  braked_local_fits = omega arith;
}

handle_stats_request-Reports_example : Returns (handle_stats_request whole child_addr parent) (λ t.
    (bytes : List ℕ) × (t.outbox
      ≡ parent.outbox ++ (record { dest = child_addr; bytes = bytes } ∷ []))
    × Reports (report parent.stats parent.subscribers parent.he_enabled) bytes)
handle_stats_request-Reports_example =
    handle_stats_request-Reports whole child_addr parent parent-IsCounted (omega arith)
