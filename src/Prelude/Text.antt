-- ===== src/Prelude/Text.antt =====
-- Equality of texts as a Boolean test.
use Prim.Native.String.{String}
use mathlib.Core.HLevel.{hedberg}
use mathlib.Core.Path.{◌≡◌, refl, ap}
use mathlib.Core.Logic.{◌≢◌, inl, inr}
use hotel_crm.Prelude.Tests.{Bool-cases}
use mathlib.Core.Bool.{Bool, true, false}
use text.Mathlib.Text.{◌==◌}
use text.Mathlib.TextEquality.{eq_iff}
use native.Mathlib.Omega.{arith}

abbrev pub str_eq : String → String → Bool
str_eq s t = s == t

pub str_eq-true : (s t : String) → str_eq s t ≡ true → s ≡ t
str_eq-true s t h = (eq_iff s t).0 h

pub str_eq_refl : (s : String) → str_eq s s ≡ true
str_eq_refl s = (eq_iff s s).1 refl

pub str_eq_ne : (s t : String) → s ≢ t → str_eq s t ≡ false
str_eq_ne s t h = ground (arith, eq_iff s t)

pub str_eq_comm : (s t : String) → str_eq s t ≡ str_eq t s
str_eq_comm s t = ground (arith, eq_iff s t, eq_iff t s)

String_discrete : Discrete String
String_discrete s t = elim (Bool-cases (str_eq s t)) [
  | inl e ↦ yes (str_eq-true s t e)
  | inr e ↦ no (λ h. ground (arith, ap (λ u. str_eq s u) h, str_eq_refl s))
]

pub String_set : IsSet String
String_set = hedberg String_discrete
