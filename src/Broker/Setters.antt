-- ===== src/Broker/Setters.antt =====
-- Proofs on the single fields of the configuration.
use dns_plus_plus.Base.{
  ◌≤◌, ◌≡◌, refl, Bool, true, false, ◌||◌, [], ◌∷◌, Option, none, some, if◌then◌else◌, if-cases,
  ltb, Text, text_beq, ℤ, pos, negsuc, arith,
}
use dns_plus_plus.Crypto.Threshold.{is_empty}
use dns_plus_plus.Broker.Startup.{split_first}
use dns_plus_plus.Broker.Config.{
  Parsing, set_broker_id, set_port, set_parent_addr, set_limit, set_window, set_require_he,
  set_scope,
}

-- The limits of the brake are positive, and what is marked as read is in its range.
pub record IsRead (p : Parsing) : Type 0 where
  pub limit : 1 ≤ p.cfg.brake_limit
  pub window : 1 ≤ p.cfg.brake_window_sec
  pub id : p.have_broker_id ≡ true → is_empty p.cfg.broker_id ≡ false
  pub port : p.have_listen_port ≡ true → (1 ≤ p.cfg.listen_port) × (p.cfg.listen_port ≤ 65535)

-- What a step accepts is again read.
abbrev pub Keeps : Option Parsing → Type 0
Keeps none = Unit {0}
Keeps (some p) = IsRead p

pub set_broker_id-Keeps : (val : Text) (p : Parsing) → IsRead p → Keeps (set_broker_id val p)
unfolding set_broker_id
set_broker_id-Keeps [] p r = tt
set_broker_id-Keeps (c ∷ cs) p r = record {
  limit = r.limit;
  window = r.window;
  id = λ on. refl;
  port = r.port;
}

pub set_port-Keeps : (v : ℤ) (p : Parsing) → IsRead p → Keeps (set_port v p)
unfolding set_port
set_port-Keeps (negsuc n) p r = tt
set_port-Keeps (pos n) p r = checked (ltb n 1) (ltb 65535 n) refl refl
  where
    checked :
        (a b : Bool)
        → ltb n 1 ≡ a
        → ltb 65535 n ≡ b
        → Keeps (
            if a || b
            then none
            else some
                (record p { cfg = record p.cfg { listen_port = n }; have_listen_port = true }))
    checked true b x y = tt
    checked false true x y = tt
    checked false false x y = record {
      limit = r.limit;
      window = r.window;
      id = r.id;
      port = λ on. (ground (arith, x), ground (arith, y));
    }

pub set_limit-Keeps : (v : ℤ) (p : Parsing) → IsRead p → Keeps (set_limit v p)
unfolding set_limit
set_limit-Keeps (negsuc n) p r = tt
set_limit-Keeps (pos n) p r = checked (ltb n 1) refl
  where
    checked :
        (a : Bool)
        → ltb n 1 ≡ a
        → Keeps (if a then none else some (record p { cfg = record p.cfg { brake_limit = n } }))
    checked true x = tt
    checked false x = record {
      limit = ground (arith, x);
      window = r.window;
      id = r.id;
      port = r.port;
    }

pub set_window-Keeps : (v : ℤ) (p : Parsing) → IsRead p → Keeps (set_window v p)
unfolding set_window
set_window-Keeps (negsuc n) p r = tt
set_window-Keeps (pos n) p r = checked (ltb n 1) refl
  where
    checked :
        (a : Bool)
        → ltb n 1 ≡ a
        → Keeps
            (if a then none else some (record p { cfg = record p.cfg { brake_window_sec = n } }))
    checked true x = tt
    checked false x = record {
      limit = r.limit;
      window = ground (arith, x);
      id = r.id;
      port = r.port;
    }

pub set_parent_addr-Keeps : (val : Text) (p : Parsing) → IsRead p → Keeps (set_parent_addr val p)
unfolding set_parent_addr
set_parent_addr-Keeps val p r = found (split_first b':' val)
  where
    kept : IsRead (record p { cfg = record p.cfg { parent_addr = val } })
    kept = record { limit = r.limit; window = r.window; id = r.id; port = r.port }

    found :
        (o : Option (Text × Text))
        → Keeps (elim o [
          | none ↦
              if is_empty val
              then some (record p { cfg = record p.cfg { parent_addr = val } })
              else none
          | some parts ↦ some (record p { cfg = record p.cfg { parent_addr = val } })
        ])
    found none = if-cases Keeps (is_empty val) kept tt
    found (some parts) = kept

pub set_require_he-Keeps : (val : Text) (p : Parsing) → IsRead p → Keeps (set_require_he val p)
unfolding set_require_he
set_require_he-Keeps val p r =
    if-cases Keeps (text_beq val (b't' ∷ b'r' ∷ b'u' ∷ b'e' ∷ []) || text_beq val (b'1' ∷ []))
      (record { limit = r.limit; window = r.window; id = r.id; port = r.port })
      (if-cases Keeps
        (text_beq val (b'f' ∷ b'a' ∷ b'l' ∷ b's' ∷ b'e' ∷ []) || text_beq val (b'0' ∷ []))
        (record { limit = r.limit; window = r.window; id = r.id; port = r.port }) tt)

pub set_scope-Keeps : (val : Text) (p : Parsing) → IsRead p → Keeps (set_scope val p)
unfolding set_scope
set_scope-Keeps val p r =
    if-cases Keeps (text_beq val (b'u' ∷ b'p' ∷ b'w' ∷ b'a' ∷ b'r' ∷ b'd' ∷ []))
      (record { limit = r.limit; window = r.window; id = r.id; port = r.port })
      (if-cases Keeps (text_beq val (b'l' ∷ b'o' ∷ b'c' ∷ b'a' ∷ b'l' ∷ []))
        (record { limit = r.limit; window = r.window; id = r.id; port = r.port })
        (if-cases Keeps (text_beq val (b'b' ∷ b'o' ∷ b't' ∷ b'h' ∷ []))
          (record { limit = r.limit; window = r.window; id = r.id; port = r.port }) tt))
