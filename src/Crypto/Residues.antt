-- ===== src/Crypto/Residues.antt =====
-- The arithmetic of the scheme, over numbers: residues modulo n * n that are powers of 1 + n.
use dns_plus_plus.Base.{ℕ, ◌+◌, ◌*◌, ◌%◌, ◌^◌, ◌≡◌, refl, sym, ap, ◌∙◌, arith}
use dns_plus_plus.Base.Modular.{
  Cong, Cong-mul, Cong-mod, Cong-pow, pow-mul, mul-pow, pow-one-add, one-pow,
}
use native.Mathlib.Nat.{add-mul-mod_self_left, mul_comm, mul_assoc}

-- `b` is the power 1 + t * n of 1 + n.
abbrev pub IsLinear : ℕ → ℕ → ℕ → Type 0
IsLinear n b t = Cong (n * n) b (1 + t * n)

-- Raised to a multiple of `lam`, `c` is what an encryption of `m` is.
abbrev pub IsCipher : ℕ → ℕ → ℕ → ℕ → Type 0
IsCipher n lam c m = (j : ℕ) → IsLinear n (c ^ (j * lam)) (m * (j * lam))

module _ (n : ℕ) where
  pub mul-IsLinear :
      (a b s t : ℕ) → IsLinear n a s → IsLinear n b t → IsLinear n (a * b % (n * n)) (s + t)
  mul-IsLinear a b s t p q =
      Cong-mod (n * n) (a * b)
      ∙ Cong-mul (n * n) a (1 + s * n) b (1 + t * n) p q
      ∙ ap (λ z. z % (n * n)) expand
      ∙ add-mul-mod_self_left (1 + (s + t) * n) (n * n) (s * t)
    where
      expand : (1 + s * n) * (1 + t * n) ≡ 1 + (s + t) * n + n * n * (s * t)
      expand = omega arith

  pub mod-IsLinear : (a t : ℕ) → IsLinear n a t → IsLinear n (a % (n * n)) t
  mod-IsLinear a t p = Cong-mod (n * n) a ∙ p

  pub pow-IsLinear : (k : ℕ) → IsLinear n ((n + 1) ^ k) k
  pow-IsLinear k =
      ap (λ b. b ^ k % (n * n)) (omega arith)
      ∙ pow-one-add 1 n k
      ∙ ap (λ z. z % (n * n)) (omega arith)

  -- A multiple of n drops out of the exponent.
  pub drop_n-IsLinear : (a s t k : ℕ) → s ≡ t + n * k → IsLinear n a s → IsLinear n a t
  drop_n-IsLinear a s t k e p =
      p
      ∙ ap (λ z. z % (n * n)) (omega (arith, ap (λ (z : ℕ). z * n) e))
      ∙ add-mul-mod_self_left (1 + t * n) (n * n) k

  -- An encryption with randomness `r`, where r ^ (n * lam) is one.
  pub encrypt-IsCipher :
      (lam m r : ℕ)
      → r ^ (n * lam) % (n * n) ≡ 1 % (n * n)
      → IsCipher n lam ((1 + m * n) % (n * n) * (r ^ n % (n * n)) % (n * n)) m
  encrypt-IsCipher lam m r order j =
      Cong-pow (n * n) _ ((1 + m * n) * r ^ n) k (
        Cong-mod (n * n) _
        ∙ Cong-mul (n * n) ((1 + m * n) % (n * n)) (1 + m * n) (r ^ n % (n * n)) (r ^ n)
            (Cong-mod (n * n) (1 + m * n)) (Cong-mod (n * n) (r ^ n)))
      ∙ ap (λ z. z % (n * n)) (mul-pow (1 + m * n) (r ^ n) k)
      ∙ Cong-mul (n * n) ((1 + m * n) ^ k) (1 + m * k * n) ((r ^ n) ^ k) 1 (pow-one-add m n k) ones
      ∙ ap (λ z. z % (n * n)) (omega arith)
    where
      k : ℕ
      k = j * lam

      regroup : n * k ≡ n * lam * j
      regroup = ap (λ z. n * z) (mul_comm j lam) ∙ sym (mul_assoc n lam j)

      ones : Cong (n * n) ((r ^ n) ^ k) 1
      ones =
          ap (λ z. z % (n * n))
            (pow-mul r n k ∙ ap (λ z. r ^ z) regroup ∙ sym (pow-mul r (n * lam) j))
          ∙ Cong-pow (n * n) (r ^ (n * lam)) 1 j order
          ∙ ap (λ z. z % (n * n)) (one-pow j)

  pub add-IsCipher :
      (lam c d m l : ℕ)
      → IsCipher n lam c m
      → IsCipher n lam d l
      → IsCipher n lam (c * d % (n * n)) (m + l)
  add-IsCipher lam c d m l p q j =
      Cong-pow (n * n) _ (c * d) k (Cong-mod (n * n) (c * d))
      ∙ ap (λ z. z % (n * n)) (mul-pow c d k)
      ∙ sym (Cong-mod (n * n) (c ^ k * d ^ k))
      ∙ mul-IsLinear (c ^ k) (d ^ k) (m * k) (l * k) (p j) (q j)
      ∙ ap (λ z. z % (n * n)) (omega arith)
    where
      k : ℕ
      k = j * lam

-- Multiplied by the inverse `mu` of `lam`, the logarithm gives the message.
pub unscale : (n lam mu t : ℕ) → lam * mu % n ≡ 1 % n → t * lam % n * mu % n ≡ t % n
unscale n lam mu t inverse =
    Cong-mul n (t * lam % n) (t * lam) mu mu (Cong-mod n (t * lam)) refl
    ∙ ap (λ z. z % n) (mul_assoc t lam mu)
    ∙ Cong-mul n t t (lam * mu) 1 refl inverse
    ∙ ap (λ z. z % n) (omega arith)
