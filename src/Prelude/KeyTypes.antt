-- ===== src/Prelude/KeyTypes.antt =====
-- Types that serve as keys: a Boolean equality that decides the equality.
use Prim.Native.String.{String}
use mathlib.Core.Path.{◌≡◌}
use mathlib.Core.Logic.{◌↔◌}
use mathlib.Core.Bool.{Bool, true}
use text.Mathlib.Text.{◌==◌}
use text.Mathlib.TextEquality.{eq_iff}
use canvas_server.Prelude.Texts.{Text, text_eq, text_eq_iff}

pub record Key {ℓ} (K : Type ℓ) : Type ℓ where
  pub same : K → K → Bool
  pub same_iff : (a b : K) → (same a b ≡ true) ↔ (a ≡ b)

abbrev pub same {ℓ} : {K : Type ℓ} ⦃e : Key K⦄ → K → K → Bool
same ⦃e⦄ = e.same

pub same_iff {ℓ} : {K : Type ℓ} ⦃e : Key K⦄ (a b : K) → (same a b ≡ true) ↔ (a ≡ b)
same_iff ⦃e⦄ = e.same_iff

instance abbrev pub string_key : Key String
string_key = record { same = ◌==◌; same_iff = eq_iff }

instance abbrev pub text_key : Key Text
text_key = record { same = text_eq; same_iff = text_eq_iff }
