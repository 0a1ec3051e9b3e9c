-- ===== src/Base/Modular.antt =====
-- Numbers modulo `m`: products and powers, and the powers of 1 + t * n modulo n * n.
use Prim.Native.Nat.{ℕ, zero, suc, ◌+◌, ◌*◌, ◌/◌, ◌%◌, ◌^◌, ◌<◌}
use mathlib.Core.Path.{◌≡◌, refl, sym, ap, ap₂, ◌∙◌}
use native.Mathlib.Omega.{arith}
use native.Mathlib.Nat.{
  pow-zero, pow-suc, mul_assoc, mul_comm, div-add-mod, mod-eq_of_lt, mod-lt, mod-mod,
  add-mul-mod_self_left, mul-zero, mul-suc, mul-mul-mul_comm, add-zero, add-suc,
}

abbrev pub Cong : ℕ → ℕ → ℕ → Type 0
Cong m a b = a % m ≡ b % m

mod-mul_left : (a b m : ℕ) → Cong m (a % m * b) (a * b)
mod-mul_left a b m =
    sym (add-mul-mod_self_left (a % m * b) m (a / m * b))
    ∙ ap (λ t. t % m) (omega (arith, ap (λ (t : ℕ). t * b) (div-add-mod a m)))

pub mul-mod : (a b m : ℕ) → a * b % m ≡ a % m * (b % m) % m
mul-mod a b m =
    sym (mod-mul_left a b m)
    ∙ ap (λ t. t % m) (mul_comm (a % m) b)
    ∙ sym (mod-mul_left b (a % m) m)
    ∙ ap (λ t. t % m) (mul_comm (b % m) (a % m))

pub Cong-mul : (m a b c d : ℕ) → Cong m a b → Cong m c d → Cong m (a * c) (b * d)
Cong-mul m a b c d p q = mul-mod a c m ∙ ap₂ (λ s t. s * t % m) p q ∙ sym (mul-mod b d m)

pub Cong-mod : (m a : ℕ) → Cong m (a % m) a
Cong-mod m a = mod-mod a m

pub Cong-pow : (m a b k : ℕ) → Cong m a b → Cong m (a ^ k) (b ^ k)
Cong-pow m a b zero p = rw (pow-zero, pow-zero)
Cong-pow m a b (suc k) p =
    ap (λ t. t % m) (pow-suc a k)
    ∙ Cong-mul m (a ^ k) (b ^ k) a b (Cong-pow m a b k p) p
    ∙ ap (λ t. t % m) (sym (pow-suc b k))

pub pow-add : (a j k : ℕ) → a ^ (j + k) ≡ a ^ j * a ^ k
pow-add a j zero = rw (add-zero, pow-zero) (omega arith)
pow-add a j (suc k) = rw (add-suc, pow-suc, pow-suc, pow-add a j k) (mul_assoc (a ^ j) (a ^ k) a)

pub one-pow : (k : ℕ) → 1 ^ k ≡ 1
one-pow zero = pow-zero 1
one-pow (suc k) = pow-suc 1 k ∙ omega (arith, one-pow k)

pub pow-mul : (a j k : ℕ) → (a ^ j) ^ k ≡ a ^ (j * k)
pow-mul a j zero = rw (mul-zero, pow-zero, pow-zero)
pow-mul a j (suc k) = rw (mul-suc, pow-suc, pow-mul a j k) (sym (pow-add a (j * k) j))

pub mul-pow : (a b k : ℕ) → (a * b) ^ k ≡ a ^ k * b ^ k
mul-pow a b zero = rw (pow-zero, pow-zero, pow-zero)
mul-pow a b (suc k) =
    rw (pow-suc, pow-suc, pow-suc, mul-pow a b k) (mul-mul-mul_comm (a ^ k) (b ^ k) a b)

-- Modulo n * n the powers of 1 + t * n are linear in the exponent.
pub pow-one-add : (t n k : ℕ) → Cong (n * n) ((1 + t * n) ^ k) (1 + t * k * n)
pow-one-add t n zero = ap (λ s. s % (n * n)) (pow-zero (1 + t * n) ∙ omega arith)
pow-one-add t n (suc k) =
    ap (λ s. s % (n * n)) (pow-suc (1 + t * n) k)
    ∙ Cong-mul (n * n) ((1 + t * n) ^ k) (1 + t * k * n) (1 + t * n) (1 + t * n) (pow-one-add t n k)
        refl
    ∙ ap (λ s. s % (n * n)) expand
    ∙ add-mul-mod_self_left (1 + t * suc k * n) (n * n) (t * k * t)
  where
    expand : (1 + t * k * n) * (1 + t * n) ≡ 1 + t * suc k * n + n * n * (t * k * t)
    expand = omega arith

-- The discrete logarithm that `L` takes: it sees the factor of n modulo n.
pub one-add-mod : (t n : ℕ) → 1 < n → (1 + t * n) % (n * n) ≡ 1 + t % n * n
one-add-mod t n h =
    ap (λ s. s % (n * n)) split
    ∙ add-mul-mod_self_left (1 + t % n * n) (n * n) (t / n)
    ∙ mod-eq_of_lt small
  where
    split : 1 + t * n ≡ 1 + t % n * n + n * n * (t / n)
    split = omega (arith, ap (λ (s : ℕ). s * n) (div-add-mod t n))

    small : 1 + t % n * n < n * n
    small = grind (arith, mod-lt t {m = n} (omega arith))
