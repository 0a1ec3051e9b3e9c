-- ===== src/Crypto/Heps.antt =====
-- `class Heps` of crypto/Heps.h and crypto/Heps.cpp. A file is the list of its lines, or `none`
-- where it cannot be opened.
use dns_plus_plus.Base.{
  ℕ, Bool, true, false, List, [], ◌∷◌, Option, some, if◌then◌else◌, Access, done, ◌>>=◌, Text, ℤ,
  pos, ◌+ℤ◌, ◌-ℤ◌, tmod, eq_ℤ,
}
use dns_plus_plus.Crypto.Gmp.{Gmp}
use dns_plus_plus.Crypto.Paillier.{
  Paillier, set_params, key_gen, encrypt, blind_notification, blind_subscription,
}

pub record Heps : Type 0 where
  pub paillier : Paillier
  pub n : ℤ
  pub mu : ℤ

-- A seventh line must be empty; what stands behind it is not read.
unfoldable pub no_extra : List Text → Bool
no_extra [] = true
no_extra ([] ∷ lines) = true
no_extra ((c ∷ cs) ∷ lines) = false

unfoldable pub get_public_key : Heps → ℤ × ℤ
get_public_key h = (h.n, h.mu)

module _ (gmp : Gmp) where
  open gmp use {from_hex, to_hex, hash}

  unfoldable pub init : Heps → Access Heps
  init h = do k ← key_gen gmp 2048 h.paillier; done (record { paillier = k; n = k.n; mu = k.mu })

  -- The six lines n, mu, lambda, e_m, d_m, r_m, once the file has them and nothing more.
  unfoldable pub set_state : Text → Text → Text → Text → Text → Text → Heps → Heps × Bool
  unfolding set_params
  set_state n_hex mu_hex lambda_hex e_m_hex d_m_hex r_m_hex h =
      let n = from_hex n_hex in
      let mu = from_hex mu_hex in
      if eq_ℤ n (pos 0) then (h, false) else (
        record {
          paillier =
              set_params n (n +ℤ pos 1) mu (from_hex lambda_hex) (from_hex e_m_hex)
                (from_hex d_m_hex) (from_hex r_m_hex) h.paillier;
          n = n;
          mu = mu;
        },
        true,
      )

  unfoldable pub load_state : Option (List Text) → Heps → Heps × Bool
  unfolding set_state no_extra
  load_state (some (a ∷ b ∷ c ∷ d ∷ e ∷ f ∷ extra)) h =
      if no_extra extra then set_state a b c d e f h else (h, false)
  load_state _ h = (h, false)

  unfoldable pub string_to_mpz : Text → ℤ
  string_to_mpz s = pos (hash s)

  unfoldable pub blind_notification_of : Heps → Text → Access (Text × Heps)
  unfolding string_to_mpz
  blind_notification_of h name = do
    (bval_n, k) ← blind_notification gmp h.paillier (string_to_mpz name)
    done (to_hex bval_n, record h { paillier = k })

  -- The blinded E(-w), where `w` is v or v + 1.
  unfoldable pub blind_negated : ℕ → Heps → ℤ → Access (ℤ × Heps)
  blind_negated fuel h w = do
    neg ← tmod (h.n -ℤ w) h.n
    (cipher, k) ← encrypt gmp fuel h.paillier neg
    bval ← blind_subscription gmp k cipher
    done (bval, record h { paillier = k })

  unfoldable pub blind_subscription_of : ℕ → Heps → Text → Access ((Text × Text) × Heps)
  unfolding string_to_mpz blind_negated
  blind_subscription_of fuel h name = do
    let v = string_to_mpz name
    (bval_m1, h₁) ← blind_negated fuel h v
    (bval_m2, h₂) ← blind_negated fuel h₁ (v +ℤ pos 1)
    done ((to_hex bval_m1, to_hex bval_m2), h₂)
