-- ===== src/Logging/Mask.antt =====
-- Addresses in log messages. A JavaScript string is the list of its code units, since the code
-- indexes and slices by them.
use hotel_crm.Prelude.{
  ℕ, zero, suc, Option, none, some, List, [], ◌∷◌, ◌++◌, drop, ◌==◌, if◌then◌else◌,
}

abbrev pub at_sign : ℕ
at_sign = 64

-- MASK
abbrev pub mask : List ℕ
mask = 42 ∷ 42 ∷ 42 ∷ []

-- `lastIndexOf` of one code unit; `none` stands for -1.
abbrev later : ℕ → ℕ → Option ℕ → Option ℕ
later c x (some n) = some (suc n)
later c x none = if x == c then some 0 else none

unfoldable pub last_index_of : List ℕ → ℕ → Option ℕ
last_index_of [] c = none
last_index_of (x ∷ xs) c = later c x (last_index_of xs c)

-- `email[0]`, as a part of a template.
abbrev pub first_unit : List ℕ → List ℕ
first_unit [] = []
first_unit (x ∷ xs) = x ∷ []

abbrev pub masked_at : List ℕ → Option ℕ → List ℕ
masked_at email none = mask
masked_at email (some zero) = mask
masked_at email (some (suc n)) = first_unit email ++ (mask ++ drop (suc n) email)

unfoldable pub mask_email : List ℕ → List ℕ
mask_email email = masked_at email (last_index_of email at_sign)
