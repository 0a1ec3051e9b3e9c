-- ===== src/Base/Table.antt =====
-- `std::unordered_map` as an association list. Its order stands for the table's unspecified one.
use Prim.Native.Nat.{ℕ}
use mathlib.Core.Path.{◌≡◌, refl, subst, ap, ◌∙◌}
use mathlib.Core.Logic.{◌↔◌, inl, inr}
use mathlib.Core.Bool.{Bool, true, false, ◌&&◌}
use mathlib.Core.Option.{Option, none, some}
use mathlib.Core.List.{List, [], ◌∷◌}
use native.Mathlib.Omega.{arith}
use dns_plus_plus.Base.Tests.{◌==◌ as nat_beq, ==_iff, if◌then◌else◌, Bool-cases}

pub record Eq {ℓ} (A : Type ℓ) : Type ℓ where
  pub beq : A → A → Bool
  pub beq_iff : (a b : A) → (beq a b ≡ true) ↔ (a ≡ b)

abbrev pub text_beq : List ℕ → List ℕ → Bool
text_beq [] [] = true
text_beq [] (b ∷ bs) = false
text_beq (a ∷ as') [] = false
text_beq (a ∷ as') (b ∷ bs) = nat_beq a b && text_beq as' bs

pub text_beq→eq : (s t : List ℕ) → text_beq s t ≡ true → s ≡ t
text_beq→eq [] [] h = refl
text_beq→eq [] (b ∷ bs) h = cc
text_beq→eq (a ∷ s) [] h = cc
text_beq→eq (a ∷ s) (b ∷ t) h = ground (arith, text_beq→eq s t)

pub text_beq_refl : (s : List ℕ) → text_beq s s ≡ true
text_beq_refl [] = refl
text_beq_refl (a ∷ s) = ground (arith, text_beq_refl s)

pub text_beq_iff : (s t : List ℕ) → (text_beq s t ≡ true) ↔ (s ≡ t)
text_beq_iff s t = (text_beq→eq s t, λ e. rw e (text_beq_refl t))

instance abbrev pub nat_eq : Eq ℕ
nat_eq = record { beq = nat_beq; beq_iff = ==_iff }

instance abbrev pub text_eq : Eq (List ℕ)
text_eq = record { beq = text_beq; beq_iff = text_beq_iff }

abbrev pub Map {ℓ κ} : Type ℓ → Type κ → Type (ℓ ⊔ κ)
Map K V = List (K × V)

read_if {ℓ} :
    {V : Type ℓ} (b : Bool) (v d : V) (o : Option V)
    → elim (if b then some v else o) [ none ↦ d | some w ↦ w ]
      ≡ (if b then v else elim o [ none ↦ d | some w ↦ w ])
read_if true v d o = refl
read_if false v d o = refl

read_none {ℓ} :
    {V : Type ℓ} (b : Bool) (d : V) (o : Option V)
    → elim (if b then none else o) [ none ↦ d | some w ↦ w ]
      ≡ (if b then d else elim o [ none ↦ d | some w ↦ w ])
read_none true d o = refl
read_none false d o = refl

module _ {ℓ κ} {K : Type ℓ} {V : Type κ} ⦃e : Eq K⦄ where
  -- `find`, and `end()` as `none`.
  unfoldable pub find : K → Map K V → Option V
  find k [] = none
  find k ((j, v) ∷ m) = if e.beq j k then some v else find k m

  -- `m[k] = v`; a new key joins at the end.
  unfoldable pub insert : K → V → Map K V → Map K V
  insert k v [] = (k, v) ∷ []
  insert k v ((j, w) ∷ m) = if e.beq j k then (k, v) ∷ m else (j, w) ∷ insert k v m

  unfoldable pub erase : K → Map K V → Map K V
  erase k [] = []
  erase k ((j, v) ∷ m) = if e.beq j k then erase k m else (j, v) ∷ erase k m

  -- The value that `m[k]` reads, with the one that it makes where the key is missing.
  unfoldable pub find_or : V → K → Map K V → V
  unfolding find
  find_or d k m = elim (find k m) [ none ↦ d | some v ↦ v ]

  pub find-insert :
      (k j : K) (v : V) (m : Map K V)
      → find j (insert k v m) ≡ (if e.beq k j then some v else find j m)
  unfolding find insert
  find-insert k j v [] = refl
  find-insert k j v ((i, w) ∷ m) =
      ground (arith, e.beq_iff k j, e.beq_iff i k, e.beq_iff i j, find-insert k j v m)

  pub find-erase :
      (k j : K) (m : Map K V) → find j (erase k m) ≡ (if e.beq k j then none else find j m)
  unfolding find erase
  find-erase k j [] = ground arith
  find-erase k j ((i, w) ∷ m) =
      ground (arith, e.beq_iff k j, e.beq_iff i k, e.beq_iff i j, find-erase k j m)

  pub find-insert_self : (k : K) (v : V) (m : Map K V) → find k (insert k v m) ≡ some v
  find-insert_self k v m = rw (find-insert k k v m, (e.beq_iff k k).1 refl)

  -- A property of all values.
  abbrev pub Values {μ} : (V → Type μ) → Map K V → Type μ
  Values P [] = Unit {μ}
  Values P ((k, v) ∷ m) = P v × Values P m

  pub find-Values {μ} :
      (P : V → Type μ) (k : K) (m : Map K V) {v : V} → Values P m → find k m ≡ some v → P v
  unfolding find
  find-Values P k [] h f = cc
  find-Values P k ((j, w) ∷ m) {v} h f = elim (Bool-cases (e.beq j k)) [
    | inl hit ↦ let g : some w ≡ some v = rw hit at f in subst P (cc) h.0
    | inr miss ↦ find-Values P k m h.1 (rw miss at f)
  ]

  pub insert-Values {μ} :
      (P : V → Type μ) (k : K) (v : V) (m : Map K V) → Values P m → P v → Values P (insert k v m)
  unfolding insert
  insert-Values P k v [] h p = (p, tt)
  insert-Values P k v ((j, w) ∷ m) h p = elim (Bool-cases (e.beq j k)) [
    | inl hit ↦ rw hit (p, h.1)
    | inr miss ↦ rw miss (h.0, insert-Values P k v m h.1 p)
  ]

  pub erase-Values {μ} : (P : V → Type μ) (k : K) (m : Map K V) → Values P m → Values P (erase k m)
  unfolding erase
  erase-Values P k [] h = tt
  erase-Values P k ((j, w) ∷ m) h = elim (Bool-cases (e.beq j k)) [
    | inl hit ↦ rw hit (erase-Values P k m h.1)
    | inr miss ↦ rw miss (h.0, erase-Values P k m h.1)
  ]

  pub find_or-Values {μ} :
      (P : V → Type μ) (k : K) (d : V) (m : Map K V) → Values P m → P d → P (find_or d k m)
  unfolding find_or find
  find_or-Values P k d [] h p = p
  find_or-Values P k d ((j, v) ∷ m) h p = read (e.beq j k) h.0 (find_or-Values P k d m h.1 p)
    where
      read :
          (b : Bool)
          → P v
          → P (find_or d k m)
          → P (elim (if b then some v else find k m) [ none ↦ d | some w ↦ w ])
      read true q r = q
      read false q r = r

  pub find_or-insert :
      (k j : K) (v d : V) (m : Map K V)
      → find_or d j (insert k v m) ≡ (if e.beq k j then v else find_or d j m)
  unfolding find_or
  find_or-insert k j v d m =
      ap (λ o. elim o [ none ↦ d | some w ↦ w ]) (find-insert k j v m)
      ∙ read_if (e.beq k j) v d (find j m)

  pub find_or-erase :
      (k j : K) (d : V) (m : Map K V)
      → find_or d j (erase k m) ≡ (if e.beq k j then d else find_or d j m)
  unfolding find_or
  find_or-erase k j d m =
      ap (λ o. elim o [ none ↦ d | some w ↦ w ]) (find-erase k j m)
      ∙ read_none (e.beq k j) d (find j m)

  pub find_or-none : (k : K) (d : V) (m : Map K V) → find k m ≡ none → find_or d k m ≡ d
  unfolding find_or
  find_or-none k d m h = ap (λ o. elim o [ none ↦ d | some w ↦ w ]) h
