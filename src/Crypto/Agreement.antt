-- ===== src/Crypto/Agreement.antt =====
-- Proofs on the two versions of the match: `Paillier::match`, and the lines of `executeMatch`.
use dns_plus_plus.Base.{
  ◌≡◌, ◌↔◌, refl, Bool, true, false, if◌then◌else◌, Access, done, fault, >>=-eq-done, ℤ, pos, ◌-ℤ◌,
  ◌*ℤ◌, tmod, tdiv, eq_ℤ,
}
use dns_plus_plus.Crypto.Paillier.{Paillier, l_function, match}
use dns_plus_plus.Crypto.Threshold.{difference}

-- The product of two values, modulo n^2, is 1 modulo n: the assertion of `L` holds for it.
abbrev pub IsOne : Paillier → ℤ → ℤ → Type 0
IsOne k a b =
    (y : ℤ) × (tmod (a *ℤ b) k.n_sq ≡ done y)
    × ((r : ℤ) × (tmod (y -ℤ pos 1) k.n ≡ done r) × (eq_ℤ r (pos 0) ≡ true))

asserted :
    (b : Bool) (m : Access ℤ) {v : ℤ}
    → (if b then m else fault) ≡ done v
    → (b ≡ true) × (m ≡ done v)
asserted true m e = (refl, e)
asserted false m e = cc

-- `Paillier::match` returns a value exactly where the difference that `executeMatch` computes with
-- the modulus, mu and n^2 of the key is that value and the assertion of `L` holds, that the
-- product of the two blinded values modulo n^2 is 1 modulo n.
pub match-difference :
    (k : Paillier) (a b v : ℤ)
    → (match k a b ≡ done v) ↔ ((difference k.n k.mu k.n_sq a b ≡ done v) × IsOne k a b)
unfolding match l_function difference
match-difference k a b v = (
  λ e.
      let (y, product, e₁) = >>=-eq-done (tmod (a *ℤ b) k.n_sq) _ e in
      let (l, quotient, e₂) = >>=-eq-done (l_function k.n y) _ e₁ in
      let (r, residue, e₃) = >>=-eq-done (tmod (y -ℤ pos 1) k.n) _ quotient in
      let (one, divided) = asserted (eq_ℤ r (pos 0)) (tdiv (y -ℤ pos 1) k.n) e₃ in
      (rw (product, divided) e₂, (y, product, (r, residue, one))),
  λ (e, (y, product, (r, residue, one))). rw (product, residue, one) (rw product at e),
)
