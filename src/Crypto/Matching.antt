-- ===== src/Crypto/Matching.antt =====
-- Proofs on the threshold tests of `executeMatch`.
use dns_plus_plus.Base.{
  ℕ, ◌+◌, ◌-◌, ◌*◌, ◌/◌, ◌%◌, ◌≤◌, ◌<◌, ◌≡◌, refl, sym, ap, ◌∙◌, arith, true, false, leb, ◌==◌,
  done, pos,
}
use dns_plus_plus.Base.Modular.{Cong-mul}
use native.Mathlib.Nat.{add-mul-mod_self_left, mod-eq_of_lt, mod-mod, add-mod}
use native.Mathlib.Decide.{dec_lt}
use dns_plus_plus.Crypto.Residues.{IsLinear}
use dns_plus_plus.Crypto.Paillier.{Paillier}
use dns_plus_plus.Crypto.Cipher.{Key, IsKey}
use dns_plus_plus.Crypto.Blinding.{product-IsLinear}
use dns_plus_plus.Crypto.Threshold.{match_values, difference-IsLinear, verdict}

-- The sizes for which the tests are exact: values below `bound`, and r * (bound + 1) under half of n.
pub record IsWide (n r z bound : ℕ) : Type 0 where
  pub noise_pos : 0 < z
  pub noise_lt : z < r
  pub room : 2 * (r * (bound + 1)) < n

module _ (n r z x v : ℕ) where
  -- The difference with -v modulo n put in as n - v.
  difference_mod : (r * (x + (n - v) % n) + z) % n ≡ (r * (x + (n - v)) + z) % n
  difference_mod =
      add-mod (r * (x + (n - v) % n)) z n
      ∙ ap (λ t. (t + z % n) % n)
          (Cong-mul n r r (x + (n - v) % n) (x + (n - v)) refl (
            add-mod x ((n - v) % n) n
            ∙ ap (λ t. (x % n + t) % n) (mod-mod (n - v) n)
            ∙ sym (add-mod x (n - v) n)))
      ∙ sym (add-mod (r * (x + (n - v))) z n)

  difference_above :
      v ≤ x → v ≤ n → r * (x - v) + z < n → (r * (x + (n - v) % n) + z) % n ≡ r * (x - v) + z
  difference_above h k small =
      difference_mod
      ∙ ap (λ t. t % n) regroup
      ∙ add-mul-mod_self_left (r * (x - v) + z) n r
      ∙ mod-eq_of_lt small
    where
      regroup : r * (x + (n - v)) + z ≡ r * (x - v) + z + n * r
      regroup = omega (arith, ap (λ (t : ℕ). r * t) apart)
        where
          apart : x + (n - v) ≡ (x - v) + n
          apart = omega arith

  difference_below :
      x < v
      → v ≤ n
      → z < r
      → r * (v - x) ≤ n
      → (r * (x + (n - v) % n) + z) % n ≡ n + z - r * (v - x)
  difference_below h k small le =
      difference_mod
      ∙ ap (λ t. t % n) regroup
      ∙ add-mul-mod_self_left (n + z - r * (v - x)) n (r - 1)
      ∙ mod-eq_of_lt (grind arith)
    where
      apart : x + (n - v) + (v - x) ≡ n
      apart = omega arith

      predecessor : r - 1 + 1 ≡ r
      predecessor = omega arith

      regroup : r * (x + (n - v)) + z ≡ n + z - r * (v - x) + n * (r - 1)
      regroup = omega (arith, ap (λ (t : ℕ). r * t) apart, ap (λ (t : ℕ). n * t) predecessor)

module _ (n r z bound x v : ℕ) (w : IsWide n r z bound) (hx : x < bound) (hv : v < bound) where
  room_for : (d : ℕ) → d ≤ bound → 2 * (r * d + r) < n
  room_for d h = grind (arith, w.room)

  bound_lt : 2 * (bound + 1) < n
  bound_lt = grind (arith, w.room, w.noise_pos, w.noise_lt)

  -- The first difference is at least half of n for x < v ...
  first_below : x < v → leb (n / 2) ((r * (x + (n - v) % n) + z) % n) ≡ true
  first_below h =
      rw (difference_below n r z x v h (omega (arith, bound_lt)) w.noise_lt (omega (arith, room)))
        (ground (arith, room, w.noise_lt))
    where
      room : 2 * (r * (v - x) + r) < n
      room = room_for (v - x) (omega arith)

  -- ... and below it otherwise.
  first_above : v ≤ x → leb (n / 2) ((r * (x + (n - v) % n) + z) % n) ≡ false
  first_above h =
      rw (difference_above n r z x v h (omega (arith, bound_lt)) (omega (arith, room, w.noise_lt)))
        (ground (arith, room, w.noise_lt))
    where
      room : 2 * (r * (x - v) + r) < n
      room = room_for (x - v) (omega arith)

  second_below : x ≡ v → leb ((r * (x + (n - (v + 1)) % n) + z) % n) (n / 2) ≡ false
  second_below h =
      rw
        (difference_below n r z x (v + 1) (omega arith) (omega (arith, bound_lt)) w.noise_lt
          (omega (arith, room)))
        (ground (arith, room, w.noise_lt, w.noise_pos))
    where
      room : 2 * (r * (v + 1 - x) + r) < n
      room = room_for (v + 1 - x) (omega arith)

  second_above : v < x → leb ((r * (x + (n - (v + 1)) % n) + z) % n) (n / 2) ≡ true
  second_above h =
      rw
        (difference_above n r z x (v + 1) (omega arith) (omega (arith, bound_lt))
          (omega (arith, room, w.noise_lt)))
        (ground (arith, room, w.noise_lt))
    where
      room : 2 * (r * (x - (v + 1)) + r) < n
      room = room_for (x - (v + 1)) (omega arith)

-- On values that fit, the two tests together are the test for equality.
pub verdict-eq :
    (n r z bound x v : ℕ)
    → IsWide n r z bound
    → x < bound
    → v < bound
    → verdict (n / 2) ((r * (x + (n - v) % n) + z) % n) ((r * (x + (n - (v + 1)) % n) + z) % n)
      ≡ (x == v)
verdict-eq n r z bound x v w hx hv = by_order (dec_lt x v) (dec_lt v x)
  where
    by_order :
        Dec (x < v)
        → Dec (v < x)
        → verdict (n / 2) ((r * (x + (n - v) % n) + z) % n) ((r * (x + (n - (v + 1)) % n) + z) % n)
          ≡ (x == v)
    by_order (yes less) other = rw (first_below n r z bound x v w hx hv less) (ground arith)
    by_order (no not_less) (yes more) =
        rw
          (
            first_above n r z bound x v w hx hv (omega arith),
            second_above n r z bound x v w hx hv more,
          )
          (ground arith)
    by_order (no not_less) (no not_more) =
        rw
          (
            first_above n r z bound x v w hx hv (omega arith),
            second_below n r z bound x v w hx hv (omega arith),
          )
          (ground arith)

-- On blinded values the broker's tests decide whether the two hidden numbers are equal.
pub match_values-Blinded :
    (k : Paillier) (s : Key) (a b c x v z bound : ℕ)
    → IsKey k s
    → IsWide s.n s.r z bound
    → x < bound
    → v < bound
    → IsLinear s.n a (s.e + (s.r * x + z) * s.lam)
    → IsLinear s.n b (s.d + (s.n - v) % s.n * (s.r * s.lam))
    → IsLinear s.n c (s.d + (s.n - (v + 1)) % s.n * (s.r * s.lam))
    → match_values (pos s.n) (pos s.mu) (pos (s.n * s.n)) (pos a) (pos b) (pos c) ≡ done (x == v)
unfolding match_values
match_values-Blinded k s a b c x v z bound i w hx hv p q t =
    rw
      (
        difference-IsLinear s.n a b _ s.lam s.mu i.above_one i.inverse
            (product-IsLinear k s i a b x ((s.n - v) % s.n) z p q),
        difference-IsLinear s.n a c _ s.lam s.mu i.above_one i.inverse
            (product-IsLinear k s i a c x ((s.n - (v + 1)) % s.n) z p t),
      )
      (ground (arith, verdict-eq s.n s.r z bound x v w hx hv))
