-- ===== src/Crypto/Loading.antt =====
-- Proofs on `loadState`.
use dns_plus_plus.Base.{
  ℕ, ◌<◌, ◌≡◌, refl, Bool, true, false, List, [], ◌∷◌, Option, if◌then◌else◌, none, some, length,
  Text, pos, arith,
}
use dns_plus_plus.Crypto.Gmp.{Gmp}
use dns_plus_plus.Crypto.Heps.{Heps, no_extra, set_state, load_state}

module _ (gmp : Gmp) where
  open gmp use {from_hex}

  -- The lines of a file that holds no key; `none` is a file that does not open.
  pub data IsUnfit : Option (List Text) → Type 0 where
    missing : IsUnfit none
    short : (lines : List Text) → length lines < 6 → IsUnfit (some lines)
    long :
        (a b c d e g : Text) (digit : ℕ) (digits : Text) (more : List Text)
        → IsUnfit (some (a ∷ b ∷ c ∷ d ∷ e ∷ g ∷ (digit ∷ digits) ∷ more))
    zero_modulus :
        (n_hex : Text) (more : List Text) → from_hex n_hex ≡ pos 0 → IsUnfit (some (n_hex ∷ more))

  set_state-zero :
      (n mu lambda e_m d_m r_m : Text) (h : Heps)
      → from_hex n ≡ pos 0
      → set_state gmp n mu lambda e_m d_m r_m h ≡ (h, false)
  unfolding set_state
  set_state-zero n mu lambda e_m d_m r_m h e = rw e refl

  load_state-short :
      (lines : List Text) (h : Heps) → length lines < 6 → load_state gmp (some lines) h ≡ (h, false)
  unfolding load_state
  load_state-short [] h e = refl
  load_state-short (a ∷ []) h e = refl
  load_state-short (a ∷ b ∷ []) h e = refl
  load_state-short (a ∷ b ∷ c ∷ []) h e = refl
  load_state-short (a ∷ b ∷ c ∷ d ∷ []) h e = refl
  load_state-short (a ∷ b ∷ c ∷ d ∷ x ∷ []) h e = refl
  load_state-short (a ∷ b ∷ c ∷ d ∷ x ∷ y ∷ extra) h e = absurd (omega (arith, e))

  load_state-zero :
      (n_hex : Text) (more : List Text) (h : Heps)
      → from_hex n_hex ≡ pos 0
      → load_state gmp (some (n_hex ∷ more)) h ≡ (h, false)
  unfolding load_state
  load_state-zero a [] h e = refl
  load_state-zero a (b ∷ []) h e = refl
  load_state-zero a (b ∷ c ∷ []) h e = refl
  load_state-zero a (b ∷ c ∷ d ∷ []) h e = refl
  load_state-zero a (b ∷ c ∷ d ∷ x ∷ []) h e = refl
  load_state-zero a (b ∷ c ∷ d ∷ x ∷ y ∷ extra) h e = loaded (no_extra extra)
    where
      loaded :
          (fits : Bool) → (if fits then set_state gmp a b c d x y h else (h, false)) ≡ (h, false)
      loaded true = set_state-zero a b c d x y h e
      loaded false = refl

  -- For a file that does not open, has fewer than six lines, has a seventh line that is not empty,
  -- or has a first line that reads as zero, `loadState` returns false and leaves the object as it
  -- was.
  pub load_state_refused :
      (lines : Option (List Text)) (h : Heps) → IsUnfit lines → load_state gmp lines h ≡ (h, false)
  unfolding load_state no_extra
  load_state_refused _ h missing = refl
  load_state_refused _ h (short lines e) = load_state-short lines h e
  load_state_refused _ h (long a b c d e g digit digits more) = refl
  load_state_refused _ h (zero_modulus n_hex more e) = load_state-zero n_hex more h e
