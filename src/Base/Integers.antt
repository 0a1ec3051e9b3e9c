-- ===== src/Base/Integers.antt =====
-- Signed integers of any size (`mpz_class`), over the native numbers. `negsuc n` is -(n + 1).
-- Division truncates towards zero, and by zero it ends the process.
use Prim.Native.Nat.{ℕ, suc, ◌+◌, ◌-◌, ◌*◌, ◌/◌, ◌%◌}
use mathlib.Core.Bool.{Bool, true, false, not}
use dns_plus_plus.Base.Tests.{ltb, leb, ◌==◌, if◌then◌else◌}
use dns_plus_plus.Base.Memory.{Access, done, fault}

pub data ℤ : Type 0 where
  pos : ℕ → ℤ
  negsuc : ℕ → ℤ

-- a - b, as an integer.
abbrev pub sub_ℕ : ℕ → ℕ → ℤ
sub_ℕ a b = if leb b a then pos (a - b) else negsuc (b - a - 1)

infixl 65 ◌+ℤ◌ ◌-ℤ◌
infixl 70 ◌*ℤ◌
abbrev pub ◌+ℤ◌ : ℤ → ℤ → ℤ
pos a +ℤ pos b = pos (a + b)
pos a +ℤ negsuc b = sub_ℕ a (suc b)
negsuc a +ℤ pos b = sub_ℕ b (suc a)
negsuc a +ℤ negsuc b = negsuc (suc (a + b))

abbrev pub ◌-ℤ◌ : ℤ → ℤ → ℤ
pos a -ℤ pos b = sub_ℕ a b
pos a -ℤ negsuc b = pos (a + suc b)
negsuc a -ℤ pos b = negsuc (a + b)
negsuc a -ℤ negsuc b = sub_ℕ b a

abbrev pub ◌*ℤ◌ : ℤ → ℤ → ℤ
pos a *ℤ pos b = pos (a * b)
pos a *ℤ negsuc b = sub_ℕ 0 (a * suc b)
negsuc a *ℤ pos b = sub_ℕ 0 (suc a * b)
negsuc a *ℤ negsuc b = pos (suc a * suc b)

abbrev pub tdiv : ℤ → ℤ → Access ℤ
tdiv (pos a) (pos b) = if b == 0 then fault else done (pos (a / b))
tdiv (negsuc a) (pos b) = if b == 0 then fault else done (sub_ℕ 0 (suc a / b))
tdiv (pos a) (negsuc b) = done (sub_ℕ 0 (a / suc b))
tdiv (negsuc a) (negsuc b) = done (pos (suc a / suc b))

abbrev pub tmod : ℤ → ℤ → Access ℤ
tmod (pos a) (pos b) = if b == 0 then fault else done (pos (a % b))
tmod (negsuc a) (pos b) = if b == 0 then fault else done (sub_ℕ 0 (suc a % b))
tmod (pos a) (negsuc b) = done (pos (a % suc b))
tmod (negsuc a) (negsuc b) = done (sub_ℕ 0 (suc a % suc b))

abbrev pub ltb_ℤ : ℤ → ℤ → Bool
ltb_ℤ (pos a) (pos b) = ltb a b
ltb_ℤ (pos a) (negsuc b) = false
ltb_ℤ (negsuc a) (pos b) = true
ltb_ℤ (negsuc a) (negsuc b) = ltb b a

abbrev pub leb_ℤ : ℤ → ℤ → Bool
leb_ℤ a b = not (ltb_ℤ b a)

abbrev pub eq_ℤ : ℤ → ℤ → Bool
eq_ℤ (pos a) (pos b) = a == b
eq_ℤ (pos a) (negsuc b) = false
eq_ℤ (negsuc a) (pos b) = false
eq_ℤ (negsuc a) (negsuc b) = a == b
