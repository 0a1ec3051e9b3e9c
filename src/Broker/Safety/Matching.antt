-- ===== src/Broker/Safety/Matching.antt =====
-- Proofs on `executeMatch`, for any texts.
use dns_plus_plus.Base.{
  zero, suc, ◌/◌, ◌%◌, sub_ℕ, ◌≡◌, ◌≢◌, refl, Bool, true, false, ◌||◌, Returns, Returns-bind,
  Returns-if, Text, ℤ, pos, negsuc, tdiv, tmod, leb_ℤ, ◌-ℤ◌, ◌*ℤ◌, arith,
}
use dns_plus_plus.Geo.Numbers.{Floats}
use dns_plus_plus.Crypto.Gmp.{Gmp}
use dns_plus_plus.Crypto.Threshold.{difference, match_values, match_test, is_empty}
use dns_plus_plus.Broker.State.{Broker, Env}
use dns_plus_plus.Broker.Match.{execute_match, count_call, count_hit}
use dns_plus_plus.Broker.Valid.{IsValid}

tdiv-Returns : (a b : ℤ) → b ≢ pos 0 → Returns (tdiv a b) (λ r. Unit {0})
tdiv-Returns (pos a) (pos zero) h = elim (h refl) [ ]
tdiv-Returns (negsuc a) (pos zero) h = elim (h refl) [ ]
tdiv-Returns (pos a) (pos (suc b)) h = (pos (a / suc b), ground arith, tt)
tdiv-Returns (negsuc a) (pos (suc b)) h = (sub_ℕ 0 (suc a / suc b), ground arith, tt)
tdiv-Returns (pos a) (negsuc b) h = (_, refl, tt)
tdiv-Returns (negsuc a) (negsuc b) h = (_, refl, tt)

tmod-Returns : (a b : ℤ) → b ≢ pos 0 → Returns (tmod a b) (λ r. Unit {0})
tmod-Returns (pos a) (pos zero) h = elim (h refl) [ ]
tmod-Returns (negsuc a) (pos zero) h = elim (h refl) [ ]
tmod-Returns (pos a) (pos (suc b)) h = (pos (a % suc b), ground arith, tt)
tmod-Returns (negsuc a) (pos (suc b)) h = (sub_ℕ 0 (suc a % suc b), ground arith, tt)
tmod-Returns (pos a) (negsuc b) h = (_, refl, tt)
tmod-Returns (negsuc a) (negsuc b) h = (_, refl, tt)

difference-Returns :
    (n mu n_sq x y : ℤ)
    → n ≢ pos 0
    → n_sq ≢ pos 0
    → Returns (difference n mu n_sq x y) (λ r. Unit {0})
unfolding difference
difference-Returns n mu n_sq x y h h' =
    Returns-bind (tmod (x *ℤ y) n_sq) _ (tmod-Returns _ n_sq h')
      λ r _. Returns-bind (tdiv (r -ℤ pos 1) n) _ (tdiv-Returns _ n h) λ l _. tmod-Returns _ n h

match_values-Returns :
    (n mu n_sq x y z : ℤ)
    → n ≢ pos 0
    → n_sq ≢ pos 0
    → Returns (match_values n mu n_sq x y z) (λ r. Unit {0})
unfolding match_values
match_values-Returns n mu n_sq x y z h h' =
    Returns-bind (tdiv n (pos 2)) _ (tdiv-Returns n (pos 2) (λ e. cc)) λ half _.
      Returns-bind (difference n mu n_sq x y) _ (difference-Returns n mu n_sq x y h h') λ d _.
        Returns-if (leb_ℤ half d) (λ _. (_, refl, tt))
          (λ _.
            Returns-bind (difference n mu n_sq x z) _ (difference-Returns n mu n_sq x z h h')
              λ d' _. (_, refl, tt))

module _ (f : Floats) (env : Env) where
  open f use {Double}

  count_hit-IsValid :
      (hit : Bool) (s : Broker Double)
      → IsValid f s
      → IsValid f (count_hit f env hit (count_call f env s))
  unfolding count_hit count_call
  count_hit-IsValid true s v = record { moduli = v.moduli; caches = v.caches }
  count_hit-IsValid false s v = record { moduli = v.moduli; caches = v.caches }

  pub execute_match-Returns :
      (n m1 m2 : Text) (s : Broker Double)
      → s.he_enabled ≡ true
      → IsValid f s
      → Returns (execute_match f env n m1 m2 s) (λ r. IsValid f r.0)
  unfolding execute_match match_test
  execute_match-Returns n m1 m2 s on v =
      Returns-bind (match_test env.gmp s.he_n s.he_mu s.he_n_sq n m1 m2) _ tested
        (λ hit _. (_, refl, count_hit-IsValid hit s v))
    where
      tested : Returns (match_test env.gmp s.he_n s.he_mu s.he_n_sq n m1 m2) (λ r. Unit {0})
      tested =
          Returns-if (is_empty n || is_empty m1 || is_empty m2) (λ _. (false, refl, tt))
            (λ _.
              match_values-Returns s.he_n s.he_mu s.he_n_sq (Gmp.from_hex env.gmp n)
                (Gmp.from_hex env.gmp m1) (Gmp.from_hex env.gmp m2) (v.moduli on).0 (v.moduli on).1)
