-- ===== src/Broker/Arrival/Group.antt =====
-- Proofs on `handlePublish` for the group of a name.
use dns_plus_plus.Base.{
  fst-if, ℕ, ◌≡◌, refl, ap, ap₂, sym, subst, ◌∙◌, Bool, true, false, List, [], ◌∷◌, ◌++◌, Option,
  none, some, if◌then◌else◌, append-nil, done, Returns, Text, find_or, text_eq,
}
use dns_plus_plus.Tlv.TlvType
use dns_plus_plus.Tlv.Message.{TlvMessage, get_service_name}
use dns_plus_plus.Tlv.Frame.{Frame, field_of, IsFrame, Views}
use dns_plus_plus.Tlv.Fields.{get_text-Views}
use dns_plus_plus.Tlv.Total.{IsParsed}
use dns_plus_plus.Geo.Numbers.{Floats}
use dns_plus_plus.Broker.State.{Broker, Addr, Env, BrakeDir, GeoClient, Packet}
use dns_plus_plus.Broker.Brake.{brake_allows, set_windows, count_braked}
use dns_plus_plus.Broker.Publication.{Publication, read_publication}
use dns_plus_plus.Broker.Publish.{
  brakes_local, cache_publication, gate, forward_up, forward_down, deliver, deliver_matched,
  deliver_local, count_publish, route, handle_publish,
}
use dns_plus_plus.Broker.Delivery.{packets, outbox-deliver_all}
use dns_plus_plus.Broker.Valid.{IsValid}
use dns_plus_plus.Broker.Safety.Publishing.{handle_publish-Returns}
use dns_plus_plus.Broker.Freshness.Keeps.{Keeps, Keeps-done, Keeps-bind}
use dns_plus_plus.Broker.Freshness.Publishing.{forward_up-Keeps, forward_down-Keeps}
use dns_plus_plus.Broker.Arrival.Read.{IsRead, read_publication-IsRead}
use dns_plus_plus.Broker.Arrival.Alike.{AsIn, Alike, lets_pass, gate-lets_pass}

module _ (f : Floats) (env : Env) where
  open f use {Double}

  -- The packets for a group, if the brake lets the publication pass.
  abbrev pub group_packets : Publication → ℕ → Broker Double → List Packet
  group_packets p now s =
      if lets_pass f s.config s.brake_count_local p now
      then packets f p (find_or [] p.key s.subscribers)
      else []

  -- The outbox is an earlier one with some packets more.
  abbrev pub Adds : List Packet → List Packet → Broker Double → Type 0
  Adds before new t = t.outbox ≡ before ++ new

  outbox-gate_local :
      (braked : Bool) (p : Publication) (now : ℕ) (s : Broker Double)
      → (gate f braked BrakeDir.local p now s).0.outbox ≡ s.outbox
  unfolding gate brake_allows set_windows count_braked
  outbox-gate_local true p now s =
      fst-if (λ (t : Broker Double). t.outbox ≡ s.outbox) _ (_, true) (_, false) refl refl
  outbox-gate_local false p now s = refl

  pub deliver_local-Adds :
      (p : Publication) (now : ℕ) (s : Broker Double)
      → p.blinded ≡ none
      → Keeps (deliver_local f env p now s) (Adds s.outbox (group_packets p now s))
  unfolding deliver_local deliver_matched
  deliver_local-Adds p now s plain = group (find_or [] p.key s.subscribers) refl
    where
      passing : Bool
      passing = (gate f (brakes_local s.config.brake_scope) BrakeDir.local p now s).1

      gated : Broker Double
      gated = (gate f (brakes_local s.config.brake_scope) BrakeDir.local p now s).0

      same : passing ≡ lets_pass f s.config s.brake_count_local p now
      same = gate-lets_pass f p now s

      matched :
          (blinded : Option Text) (gc0 : GeoClient Double) (gcs : List (GeoClient Double))
          → blinded ≡ none
          → Keeps
              (deliver_matched f env p blinded gc0 gcs gated)
              (Adds s.outbox (packets f p (gc0 ∷ gcs)))
      matched none gc0 gcs e =
          unfold deliver in
          Keeps-done (Adds s.outbox (packets f p (gc0 ∷ gcs))) _ (
            outbox-deliver_all f p (gc0 ∷ gcs) gated
            ∙ ap (λ o. o ++ packets f p (gc0 ∷ gcs))
                (outbox-gate_local (brakes_local s.config.brake_scope) p now s))
      matched (some bval) gc0 gcs e = cc

      nothing : Adds s.outbox [] s
      nothing = sym (append-nil s.outbox)

      braked :
          (b : Bool) (gc0 : GeoClient Double) (gcs : List (GeoClient Double))
          → Keeps
              (if b then deliver_matched f env p p.blinded gc0 gcs gated else done gated)
              (Adds s.outbox (if b then packets f p (gc0 ∷ gcs) else []))
      braked true gc0 gcs = matched p.blinded gc0 gcs plain
      braked false gc0 gcs =
          Keeps-done (Adds s.outbox []) gated
            (outbox-gate_local (brakes_local s.config.brake_scope) p now s ∙ nothing)

      empty : (b : Bool) → Adds s.outbox (if b then [] else []) s
      empty true = nothing
      empty false = nothing

      group :
          (gcs : List (GeoClient Double))
          → find_or [] p.key s.subscribers ≡ gcs
          → Keeps
              (elim gcs [
                | [] ↦ done s
                | gc0 ∷ rest ↦
                    let (s', passes) =
                      gate f (brakes_local s.config.brake_scope) BrakeDir.local p now s in
                    if passes then deliver_matched f env p p.blinded gc0 rest s' else done s'
              ])
              (Adds s.outbox
                (if lets_pass f s.config s.brake_count_local p now then packets f p gcs else []))
      group [] e = Keeps-done _ s (empty (lets_pass f s.config s.brake_count_local p now))
      group (gc0 ∷ rest) e =
          subst
            (λ b.
              Keeps
                (if passing then deliver_matched f env p p.blinded gc0 rest gated else done gated)
                (Adds s.outbox (if b then packets f p (gc0 ∷ rest) else [])))
            same (braked passing gc0 rest)

  pub group_packets-Alike :
      (p : Publication) (now : ℕ) (s t : Broker Double)
      → Alike f s t
      → group_packets p now t ≡ group_packets p now s
  group_packets-Alike p now s t h =
      ap₂
        (λ c w. if lets_pass f c w p now then packets f p (find_or [] p.key t.subscribers) else [])
        h.1 h.2
      ∙ ap
          (λ m.
            if lets_pass f s.config s.brake_count_local p now
            then packets f p (find_or [] p.key m)
            else [])
          h.0

  -- The outbox ends with some packets.
  abbrev EndsWith : List Packet → Broker Double → Type 0
  EndsWith new t = (before : List Packet) × (t.outbox ≡ before ++ new)

  route-EndsWith :
      (p : Publication) (now : ℕ) (s : Broker Double)
      → p.blinded ≡ none
      → Keeps (route f env p now s) (EndsWith (group_packets p now s))
  unfolding route cache_publication
  route-EndsWith p now s plain =
      Keeps-bind (EndsWith (group_packets p now s)) (forward_up f p now (cache_publication f p s)) _
        (λ s₁ e₁.
          Keeps-bind (EndsWith (group_packets p now s))
            (forward_down f p (find_or [] p.key s₁.child_active) s₁) (deliver_local f env p now)
            (λ s₂ e₂.
              let up =
                forward_up-Keeps f (AsIn f (cache_publication f p s)) p now
                  (cache_publication f p s) (refl, refl, refl) s₁ e₁ in
              let down =
                forward_down-Keeps f (AsIn f (cache_publication f p s)) p
                  (find_or [] p.key s₁.child_active) s₁ up s₂ e₂ in
              λ t e. (
                s₂.outbox,
                deliver_local-Adds p now s₂ plain t e
                    ∙ ap (◌++◌ s₂.outbox)
                        (group_packets-Alike p now (cache_publication f p s) s₂ down),
              )))

  pub handle_publish-delivers :
      (m : TlvMessage) (fr : Frame) (rest : List ℕ) (client : Addr) (now : ℕ) (s : Broker Double)
      (name : Text)
      → IsFrame fr
      → Views m fr rest
      → IsValid f s
      → field_of TlvType.service_name fr.fields ≡ some name
      → field_of TlvType.blinded_value fr.fields ≡ none
      → Returns (handle_publish f env m client now s) (λ t.
        (p : Publication) × IsRead f env m fr name client s.children p
        × (before : List Packet) × (t.outbox ≡ before ++ group_packets p now s))
  handle_publish-delivers m fr rest client now s name i v valid named unblinded =
      let parsed : IsParsed m = record { frame = fr; rest = rest; is_frame = i; views = v } in
      let (t, e, _) = handle_publish-Returns f env m client now s parsed valid in
      (t, e, delivered t e)
    where
      Delivered : Broker Double → Type 0
      Delivered t =
          (p : Publication) × IsRead f env m fr name client s.children p
          × (before : List Packet) × (t.outbox ≡ before ++ group_packets p now s)

      known : get_service_name m ≡ done (some name)
      known =
          unfold get_service_name in
          get_text-Views m fr rest i v TlvType.service_name ∙ ap done named

      delivered : Keeps (handle_publish f env m client now s) Delivered
      delivered =
          unfold handle_publish in
          rw known (
            Keeps-bind Delivered (read_publication f env m client name (count_publish f s)) _
              (λ p e t h.
                let read : IsRead f env m fr name client s.children p =
                  unfold count_publish in
                  read_publication-IsRead f env m fr rest client name (count_publish f s) i v
                    unblinded p e in
                let (before, new) = route-EndsWith p now (count_publish f s) read.plain t h in
                (p, read, before, unfold count_publish in new)))
