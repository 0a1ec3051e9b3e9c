-- ===== src/Broker/Freshness/Delivering.antt =====
-- Proofs on the delivery to a group, and on the whole of `handlePublish`.
use dns_plus_plus.Base.{
  ℕ, ◌≡◌, refl, ap, sym, ◌∙◌, inl, inr, true, List, [], ◌∷◌, Option, none, some, Option-cases,
  if◌then◌else◌, if-cases, done, Text, Map, find, find_or, find_or-none, text_eq,
}
use dns_plus_plus.Tlv.Message.{TlvMessage, get_service_name}
use dns_plus_plus.Geo.Numbers.{Floats}
use dns_plus_plus.Crypto.Threshold.{is_empty}
use dns_plus_plus.Broker.State.{Broker, Addr, Env, BrakeDir, GeoClient}
use dns_plus_plus.Broker.Match.{execute_match}
use dns_plus_plus.Broker.Send.{is_some}
use dns_plus_plus.Broker.Publication.{Publication, read_publication}
use dns_plus_plus.Broker.Publish.{
  brakes_local, cache_publication, gate, forward_up, forward_down, deliver, count_publish,
  deliver_matched, deliver_local, route, handle_publish,
}
use dns_plus_plus.Broker.Freshness.Keeps.{
  Only, Keeps, Keeps-done, Keeps-bind, Keeps-if, Keeps-option,
}
use dns_plus_plus.Broker.Freshness.Handlers.{IsFresh, IsFresh-insert}
use dns_plus_plus.Broker.Freshness.Subscribing.{IsMarked, Fresh}
use dns_plus_plus.Broker.Freshness.Publishing.{
  gate_local-On, deliver_all-On, execute_match-On, forward_up-Keeps, forward_down-Keeps,
}

-- A group with a subscriber is there.
found_group {ℓ} :
    {V : Type ℓ} (key : Text) (m : Map Text (List V)) {v : V} {vs : List V}
    → find_or [] key m ≡ v ∷ vs
    → is_some (find key m) ≡ true
found_group key m e = elim (Option-cases (find key m)) [
  | inl missing ↦ let wrong : [] ≡ _ = sym (find_or-none key [] m missing) ∙ e in cc
  | inr (group, there) ↦ ap is_some there
]

module _ (f : Floats) (env : Env) (Q : Text → ℕ → Type 0) where
  open f use {Double}

  -- The group of a publication is there and fresh.
  abbrev Marked : Publication → Broker Double → Type 0
  Marked p s = IsMarked Q p.key s.subscribers s.last_active

  deliver-Fresh :
      (p : Publication) (gcs : List (GeoClient Double)) (s : Broker Double)
      → Marked p s
      → Fresh f env Q (deliver f p gcs s)
  unfolding deliver
  deliver-Fresh p gcs s q =
      let (fresh, key) = deliver_all-On f (Only (IsMarked Q p.key)) p gcs s q in
      IsFresh-insert Q p.key _ _ _ fresh key

  deliver_matched-Fresh :
      (p : Publication) (blinded : Option Text) (gc0 : GeoClient Double)
      (gcs : List (GeoClient Double)) (s : Broker Double)
      → Marked p s
      → Keeps (deliver_matched f env p blinded gc0 gcs s) (Fresh f env Q)
  unfolding deliver_matched
  deliver_matched-Fresh p none gc0 gcs s q =
      Keeps-done (Fresh f env Q) _ (deliver-Fresh p (gc0 ∷ gcs) s q)
  deliver_matched-Fresh p (some bval) gc0 gcs s q =
      Keeps-if (Fresh f env Q) s.he_enabled
        (Keeps-if (Fresh f env Q) (is_empty gc0.blinded_m1) (Keeps-done (Fresh f env Q) s q.0) (
          Keeps-bind (Fresh f env Q) (execute_match f env bval gc0.blinded_m1 gc0.blinded_m2 s) _
            (λ r e.
              let kept =
                execute_match-On f (Only (IsMarked Q p.key)) env bval gc0.blinded_m1 gc0.blinded_m2
                  s q r e in
              Keeps-done (Fresh f env Q) _
                (if-cases (Fresh f env Q) r.1 (deliver-Fresh p (gc0 ∷ gcs) r.0 kept) kept.0))))
        (Keeps-done (Fresh f env Q) _ (deliver-Fresh p (gc0 ∷ gcs) s q))

  deliver_local-Fresh :
      (p : Publication) (now : ℕ) (s : Broker Double)
      → Fresh f env Q s
      → Keeps (deliver_local f env p now s) (Fresh f env Q)
  unfolding deliver_local
  deliver_local-Fresh p now s q = group (find_or [] p.key s.subscribers) refl
    where
      gated : Broker Double
      gated = (gate f (brakes_local s.config.brake_scope) BrakeDir.local p now s).0

      group :
          (gcs : List (GeoClient Double))
          → find_or [] p.key s.subscribers ≡ gcs
          → Keeps
              (elim gcs [
                | [] ↦ done s
                | gc0 ∷ rest ↦
                    let (s', passes) =
                      gate f (brakes_local s.config.brake_scope) BrakeDir.local p now s in
                    if passes then deliver_matched f env p p.blinded gc0 rest s' else done s'
              ])
              (Fresh f env Q)
      group [] e = Keeps-done (Fresh f env Q) s q
      group (gc0 ∷ rest) e =
          let marked =
            gate_local-On f (IsMarked Q p.key) (brakes_local s.config.brake_scope) p now s
              (q, q p.key (found_group p.key s.subscribers e)) in
          Keeps-if (Fresh f env Q)
            (gate f (brakes_local s.config.brake_scope) BrakeDir.local p now s).1
            (deliver_matched-Fresh p p.blinded gc0 rest _ marked)
            (Keeps-done (Fresh f env Q) _ marked.0)

  route-Fresh :
      (p : Publication) (now : ℕ) (s : Broker Double)
      → Fresh f env Q s
      → Keeps (route f env p now s) (Fresh f env Q)
  unfolding route cache_publication
  route-Fresh p now s q =
      Keeps-bind (Fresh f env Q) (forward_up f p now (cache_publication f p s)) _ (λ s₁ e₁.
        Keeps-bind (Fresh f env Q) (forward_down f p (find_or [] p.key s₁.child_active) s₁)
          (deliver_local f env p now)
          (λ s₂ e₂. deliver_local-Fresh p now s₂ (
            forward_down-Keeps f (Only (IsFresh Q)) p (find_or [] p.key s₁.child_active) s₁
              (forward_up-Keeps f (Only (IsFresh Q)) p now (cache_publication f p s) q s₁ e₁) s₂
              e₂)))

  pub handle_publish-Fresh :
      (m : TlvMessage) (client : Addr) (now : ℕ) (s : Broker Double)
      → Fresh f env Q s
      → Keeps (handle_publish f env m client now s) (Fresh f env Q)
  unfolding handle_publish count_publish
  handle_publish-Fresh m client now s q =
      Keeps-bind (Fresh f env Q) (get_service_name m) _ (λ name_opt _.
        Keeps-option (Fresh f env Q) name_opt (Keeps-done (Fresh f env Q) _ q) (λ name _.
          Keeps-bind (Fresh f env Q) (read_publication f env m client name (count_publish f s)) _
            (λ p _. route-Fresh p now (count_publish f s) q)))
