-- ===== src/Crypto/Runs.antt =====
-- A concrete stand-in for GMP, two keys, and the theorems on them.
use dns_plus_plus.Base.{
  if◌then◌else◌, ltb, ℕ, zero, suc, ◌+◌, ◌-◌, ◌*◌, ◌^◌, ◌%◌, ◌≡◌, ◌≢◌, ◌↔◌, refl, subst, ap, some,
  false, List, [], ◌∷◌, length, true, ◌==◌, Text, Access, done, fault, ◌>>=◌, ℤ, pos, negsuc, arith,
}
use dns_plus_plus.Base.Modular.{one-pow}
use dns_plus_plus.Crypto.Gmp.{Gmp, GmpLaws}
use dns_plus_plus.Crypto.Paillier.{
  Paillier, add, decrypt, encrypt, gen_prime, gen_modulus, finish_key, key_gen, l_function,
  one_for_zero, match,
}
use dns_plus_plus.Crypto.Generation.{IsPrime, IsFresh, key_gen-IsFresh}
use dns_plus_plus.Crypto.Loading.{zero_modulus, load_state_refused}
use dns_plus_plus.Crypto.Heps.{load_state, Heps, blind_notification_of, blind_subscription_of}
use dns_plus_plus.Crypto.Residues.{encrypt-IsCipher}
use dns_plus_plus.Crypto.Cipher.{Key, IsKey, hit, decrypt-encrypt, decrypt-add}
use dns_plus_plus.Crypto.Threshold.{match_test, difference}
use dns_plus_plus.Crypto.Agreement.{IsOne, match-difference}
use dns_plus_plus.Crypto.Discovery.{Session, match_test-blind}

abbrev power : ℤ → ℤ → ℤ → Access ℤ
power (pos b) (pos e) (pos m) = done (pos (b ^ e % m))
power (pos b) (pos e) (negsuc m) = fault
power (pos b) (negsuc e) m = fault
power (negsuc b) e m = fault

abbrev show : ℤ → Text
show (pos n) = 0 ∷ n ∷ []
show (negsuc n) = 1 ∷ n ∷ []

abbrev value : Text → ℤ
value [] = pos 0
value (sign ∷ []) = pos 0
value (zero ∷ n ∷ rest) = pos n
value (suc k ∷ n ∷ rest) = negsuc n

-- Every draw is `base`.
abbrev pub toy_gmp : ℕ → Gmp
toy_gmp base = record {
  powm = power;
  invert = λ a b. (a, true);
  lcm = λ a b. a;
  size_in_base_2 = λ a. 2048;
  next_prime = λ a. a;
  set_bit = λ a i. a;
  z_bits = λ bits rng. (pos base, rng + 1);
  z_range = λ bound rng. (pos base, rng + 1);
  from_hex = value;
  to_hex = show;
  hash = length;
}

pub toy_laws : (base : ℕ) → GmpLaws (toy_gmp base)
toy_laws base = record {
  powm_lem = λ b e m h. refl;
  from_hex-to_hex = λ v. back v;
  to_hex-ne-nil = λ v. shown v;
}
  where
    back : (v : ℤ) → value (show v) ≡ v
    back (pos n) = refl
    back (negsuc n) = refl

    shown : (v : ℤ) → show v ≢ []
    shown (pos n) e = cc
    shown (negsuc n) e = cc

-- The key of 3 and 5.
abbrev small : Key
small = record { n = 15; lam = 4; mu = 4; e = 7; d = 8; r = 2 }

abbrev pub small_paillier : Paillier
small_paillier = record {
  p = pos 3;
  q = pos 5;
  n = pos 15;
  n_sq = pos 225;
  lambda = pos 4;
  g = pos 16;
  mu = pos 4;
  e_m = pos 7;
  d_m = pos 8;
  r_m = pos 2;
  rng = 0;
}

small-IsKey : IsKey small_paillier small
small-IsKey = record {
  same_n = refl;
  same_n_sq = refl;
  same_lambda = refl;
  same_g = refl;
  same_mu = refl;
  same_e = refl;
  same_d = refl;
  same_r = refl;
  above_one = omega arith;
  reversed = refl;
  inverse = refl;
}

decrypt-encrypt_example :
    (encrypt (toy_gmp 2) 3 small_paillier (pos 11) >>= λ (c, k'). decrypt (toy_gmp 2) k' c)
    ≡ done (pos (11 % 15))
decrypt-encrypt_example =
    decrypt-encrypt (toy_gmp 2) (toy_laws 2) small_paillier small 11 3 2 1 small-IsKey
      (hit refl (omega arith)) refl

decrypt-add_example :
    (add small_paillier (pos 113) (pos 98) >>= decrypt (toy_gmp 2) small_paillier)
    ≡ done (pos ((11 + 9) % 15))
decrypt-add_example =
    decrypt-add (toy_gmp 2) (toy_laws 2) small_paillier small 113 98 11 9 small-IsKey
      (encrypt-IsCipher 15 4 11 2 refl) (encrypt-IsCipher 15 4 9 2 refl)

-- The key of the primes 2^61 - 1 and 2^31 - 1.
abbrev wide_key : Key
wide_key = record {
  n = 4951760154835678088235319297;
  lam = 2305843009213693950;
  mu = 3301173435019890052681083563;
  e = 5;
  d = 4951760154835678088235319292;
  r = 4;
}

abbrev pub wide_heps : Heps
wide_heps = record {
  paillier = record {
    p = pos (2 ^ 61 - 1);
    q = pos (2 ^ 31 - 1);
    n = pos wide_key.n;
    n_sq = pos (wide_key.n * wide_key.n);
    lambda = pos wide_key.lam;
    g = pos (wide_key.n + 1);
    mu = pos wide_key.mu;
    e_m = pos wide_key.e;
    d_m = pos wide_key.d;
    r_m = pos wide_key.r;
    rng = 0;
  };
  n = pos wide_key.n;
  mu = pos wide_key.mu;
}

wide-IsKey : IsKey wide_heps.paillier wide_key
wide-IsKey = record {
  same_n = refl;
  same_n_sq = refl;
  same_lambda = refl;
  same_g = refl;
  same_mu = refl;
  same_e = refl;
  same_d = refl;
  same_r = refl;
  above_one = omega arith;
  reversed = refl;
  inverse = refl;
}

one-order :
    1 ^ (wide_key.n * wide_key.lam) % (wide_key.n * wide_key.n) ≡ 1 % (wide_key.n * wide_key.n)
one-order = ap (λ t. t % (wide_key.n * wide_key.n)) (one-pow (wide_key.n * wide_key.lam))

session : Session (toy_gmp 1) wide_key wide_heps wide_heps 2
session = record {
  publisher = record { key = wide-IsKey; same_n = refl };
  subscriber = record { key = wide-IsKey; same_n = refl };
  drawn = 1;
  pub_rng = 1;
  noise_draw = refl;
  r₁ = 1;
  rng₁ = 1;
  r₂ = 1;
  rng₂ = 2;
  first = record { draws = hit refl (omega arith); order = one-order };
  second = record { draws = hit refl (omega arith); order = one-order };
  wide = record { noise_pos = omega arith; noise_lt = omega arith; room = omega arith };
}

match_test-blind_example :
    (blind_notification_of (toy_gmp 1) wide_heps (b'a' ∷ b'b' ∷ []) >>= λ (bval_n, _).
    blind_subscription_of (toy_gmp 1) 2 wide_heps (b'a' ∷ b'b' ∷ []) >>= λ ((bval_m1, bval_m2), _).
    match_test
      (toy_gmp 1)
      (pos wide_key.n)
      (pos wide_key.mu)
      (pos (wide_key.n * wide_key.n))
      bval_n
      bval_m1
      bval_m2)
    ≡ done (2 == 2)
match_test-blind_example =
    match_test-blind (toy_gmp 1) (toy_laws 1) wide_key wide_heps wide_heps 2 session
      (b'a' ∷ b'b' ∷ []) (b'a' ∷ b'b' ∷ []) (omega arith) (omega arith)

-- The key of 3 and 3, of four bits.
abbrev bit_size : ℤ → ℕ
bit_size (pos n) = if ltb n 2 then 1 else (if ltb n 4 then 2 else (if ltb n 8 then 3 else 4))
bit_size (negsuc n) = 1

abbrev tiny_gmp : Gmp
tiny_gmp = record (toy_gmp 3) { size_in_base_2 = bit_size; next_prime = λ a. pos 3 }

abbrev tiny : Paillier
tiny = record {
  p = pos 3;
  q = pos 3;
  n = pos 9;
  n_sq = pos 81;
  lambda = pos 2;
  g = pos 10;
  mu = pos 2;
  e_m = pos 3;
  d_m = pos 6;
  r_m = pos 3;
  rng = 4;
}

key_gen-tiny : key_gen tiny_gmp 4 small_paillier ≡ done tiny
unfolding key_gen gen_modulus gen_prime finish_key l_function one_for_zero
key_gen-tiny = refl

three-IsPrime : IsPrime (pos 3)
three-IsPrime = record {
  value = 3;
  same = refl;
  above_one = omega arith;
  undivided = λ d low high e.
      let two : d ≡ 2 = omega (arith, low, high) in
      let wrong : 3 % 2 ≡ 0 = subst (λ (n : ℕ). 3 % n ≡ 0) two e in omega (arith, wrong);
}

key_gen-IsFresh_example : IsFresh tiny_gmp 4 tiny
key_gen-IsFresh_example =
    key_gen-IsFresh tiny_gmp 4 small_paillier tiny (λ a. three-IsPrime) key_gen-tiny

match-difference_example : (match small_paillier (pos 16) (pos 31) ≡ done (pos 12)) ↔ (
    (difference (pos 15) (pos 4) (pos 225) (pos 16) (pos 31) ≡ done (pos 12))
    × IsOne small_paillier (pos 16) (pos 31))
match-difference_example = match-difference small_paillier (pos 16) (pos 31) (pos 12)

-- Six lines of a file whose modulus is zero.
abbrev zero_lines : List Text
zero_lines =
    (0 ∷ 0 ∷ []) ∷ (0 ∷ 4 ∷ []) ∷ (0 ∷ 4 ∷ []) ∷ (0 ∷ 7 ∷ []) ∷ (0 ∷ 8 ∷ []) ∷ (0 ∷ 2 ∷ []) ∷ []

load_state_refused_example : load_state (toy_gmp 1) (some zero_lines) wide_heps ≡ (wide_heps, false)
load_state_refused_example =
    load_state_refused (toy_gmp 1) (some zero_lines) wide_heps (zero_modulus _ _ refl)
