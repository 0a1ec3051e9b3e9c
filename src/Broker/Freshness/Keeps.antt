-- ===== src/Broker/Freshness/Keeps.antt =====
-- What holds of a result wherever the code returns one, and the operations that leave the groups and
-- their clocks alone.
use dns_plus_plus.Base.{
  ℕ, ◌≡◌, refl, subst, Bool, true, false, List, Option, none, some, not, ◌&&◌, if◌then◌else◌,
  Access, done, ◌>>=◌, >>=-eq-done, Text, Map, text_eq,
}
use dns_plus_plus.Tlv.Builder.{Builder, build}
use dns_plus_plus.Geo.Numbers.{Floats}
use dns_plus_plus.Broker.State.{Broker, Addr, BrokerConfig, GeoClient, Windows}
use dns_plus_plus.Broker.Send.{
  send, send_bytes, send_region_update_to_parent, forward_subscription, subscribe_message, member,
  set_insert,
}

abbrev pub Keeps {ℓ κ} : {A : Type ℓ} → Access A → (A → Type κ) → Type (ℓ ⊔ κ)
Keeps {A} r P = (a : A) → r ≡ done a → P a

pub Keeps-done {ℓ κ} : {A : Type ℓ} (P : A → Type κ) (a : A) → P a → Keeps (done a) P
Keeps-done P a p b e = let same : a ≡ b = cc in subst P same p

pub Keeps-bind {ℓ κ μ} :
    {A : Type ℓ} {B : Type κ} (P : B → Type μ) (m : Access A) (g : A → Access B)
    → ((a : A) → m ≡ done a → Keeps (g a) P)
    → Keeps (m >>= g) P
Keeps-bind P m g k b e = let (a, e', e'') = >>=-eq-done m g e in k a e' b e''

pub Keeps-if {ℓ κ} :
    {A : Type ℓ} (P : A → Type κ) (b : Bool) {x y : Access A}
    → Keeps x P
    → Keeps y P
    → Keeps (if b then x else y) P
Keeps-if P true p q = p
Keeps-if P false p q = q

pub Keeps-option {ℓ κ μ} :
    {A : Type ℓ} {B : Type κ} (P : B → Type μ) (o : Option A) {x : Access B} {g : A → Access B}
    → Keeps x P
    → ((a : A) → o ≡ some a → Keeps (g a) P)
    → Keeps (elim o [ none ↦ x | some a ↦ g a ]) P
Keeps-option P none p q = p
Keeps-option P (some a) p q = q a refl

-- A property of the groups and their last signs of life, as one of the brake as well.
abbrev pub Only {ℓ} :
    {V : Type ℓ} → (V → Map Text ℕ → Type 0) → V → Map Text ℕ → BrokerConfig → Windows → Type 0
Only Q groups clocks config windows = Q groups clocks

-- `Q` is any property of the groups, of their last signs of life, of the configuration and of the local
-- brake.
module _ (f : Floats)
    (Q : Map Text (List (GeoClient (Floats.Double f)))
      → Map Text ℕ
      → BrokerConfig
      → Windows
      → Type 0) where
  open f use {Double}

  abbrev pub On : Broker Double → Type 0
  On s = Q s.subscribers s.last_active s.config s.brake_count_local

  pub send-Keeps :
      (dest : Addr) (b : Builder) (s : Broker Double) → On s → Keeps (send f dest b s) On
  unfolding send send_bytes
  send-Keeps dest b s q =
      Keeps-bind On (build b) (λ bytes. done (send_bytes f dest bytes s))
        (λ bytes _. Keeps-done On (send_bytes f dest bytes s) q)

  pub send_region_update_to_parent-Keeps :
      (s : Broker Double) → On s → Keeps (send_region_update_to_parent f s) On
  unfolding send_region_update_to_parent
  send_region_update_to_parent-Keeps s q =
      Keeps-if On s.has_parent (send-Keeps s.parent_addr _ s q) (Keeps-done On s q)

  pub forward_subscription-Keeps :
      (key : Text) (s : Broker Double) → On s → Keeps (forward_subscription f key s) On
  unfolding forward_subscription
  forward_subscription-Keeps key s q =
      Keeps-if On (s.has_parent && not (member key s.ot_parent))
        (Keeps-bind On (send f s.parent_addr (subscribe_message f key s) s)
          (λ t. done (record t { ot_parent = set_insert key t.ot_parent }))
          (λ t e. Keeps-done On _ (send-Keeps s.parent_addr (subscribe_message f key s) s q t e)))
        (Keeps-done On s q)
