-- ===== src/Tests/Masks.antt =====
-- Addresses in the log.
use hotel_crm.Prelude.{ℕ, ◌≡◌, ◌⊎◌, List, [], ◌∷◌, ◌++◌}
use hotel_crm.Logging.Mask.{at_sign, mask, mask_email}
use hotel_crm.Logging.Masked.{IsPlain, hidden, mask_email-cases}

-- "ann@ho"
abbrev address : List ℕ
address = 97 ∷ 110 ∷ 110 ∷ at_sign ∷ 104 ∷ 111 ∷ []

mask_email-cases_example :
    (IsPlain address × (mask_email address ≡ mask))
    ⊎ ((local : List ℕ) × (domain : List ℕ) × (address ≡ local ++ (at_sign ∷ domain))
        × IsPlain domain
        × (mask_email address ≡ hidden local domain))
mask_email-cases_example = mask_email-cases address
