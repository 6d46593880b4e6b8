-- ===== src/Logging/Masked.antt =====
-- What a masked address shows.
use hotel_crm.Prelude.{
  ap, ◌⊎◌, inl, inr, Bool-cases, ◌==◌, ℕ, ◌≡◌, ◌≢◌, refl, none, some, List, [], ◌∷◌, ◌++◌, All,
  drop, length, arith,
}
use hotel_crm.Logging.Mask.{at_sign, mask, last_index_of, mask_email}

-- Text without an at sign.
abbrev pub IsPlain : List ℕ → Type 0
IsPlain = All (λ c. c ≢ at_sign)

last_index_of-plain : (xs : List ℕ) → IsPlain xs → last_index_of xs at_sign ≡ none
unfolding last_index_of
last_index_of-plain [] h = refl
last_index_of-plain (x ∷ xs) (h, k) = rw (last_index_of-plain xs k) (ground arith)

last_index_of-domain :
    (local domain : List ℕ)
    → IsPlain domain
    → last_index_of (local ++ (at_sign ∷ domain)) at_sign ≡ some (length local)
unfolding last_index_of
last_index_of-domain [] domain h = rw (last_index_of-plain domain h)
last_index_of-domain (x ∷ xs) domain h = rw (last_index_of-domain xs domain h)

drop-length : (xs ys : List ℕ) → drop (length xs) (xs ++ ys) ≡ ys
drop-length [] ys = refl
drop-length (x ∷ xs) ys = drop-length xs ys

mask_email-address :
    (c : ℕ) (local domain : List ℕ)
    → IsPlain domain
    → mask_email (c ∷ (local ++ (at_sign ∷ domain))) ≡ c ∷ (mask ++ (at_sign ∷ domain))
unfolding mask_email last_index_of
mask_email-address c local domain h =
    rw (last_index_of-domain local domain h, drop-length local (at_sign ∷ domain))

-- What is left of a text with this local part and this domain.
abbrev pub hidden : List ℕ → List ℕ → List ℕ
hidden [] domain = mask
hidden (c ∷ local) domain = c ∷ (mask ++ (at_sign ∷ domain))

mask_email-hidden :
    (local domain : List ℕ)
    → IsPlain domain
    → mask_email (local ++ (at_sign ∷ domain)) ≡ hidden local domain
unfolding mask_email last_index_of
mask_email-hidden [] domain h = rw (last_index_of-plain domain h)
mask_email-hidden (c ∷ local) domain h = mask_email-address c local domain h

-- A text is plain, or has a last at sign.
abbrev Split : List ℕ → Type 0
Split text =
    IsPlain text
    ⊎ ((local : List ℕ) × (domain : List ℕ) × (text ≡ local ++ (at_sign ∷ domain)) × IsPlain domain)

split : (text : List ℕ) → Split text
split [] = inl tt
split (x ∷ xs) = elim (split xs) [
  | inr (local, domain, e, h) ↦ inr (x ∷ local, domain, ap (λ l. x ∷ l) e, h)
  | inl h ↦ elim (Bool-cases (x == at_sign)) [
    | inl e ↦ let same : x ≡ at_sign = ground arith in inr ([], xs, rw same refl, h)
    | inr e ↦ inl (λ f. ground (arith, e, f), h)
  ]
]

-- A text without an at sign is masked as a whole. Any other is a local part, its last at sign and a
-- domain: the mask keeps the domain and the first code unit of the local part, and nothing else of
-- it, nor its length; and where the local part is empty it keeps nothing.
pub mask_email-cases :
    (text : List ℕ)
    → (IsPlain text × (mask_email text ≡ mask))
      ⊎ ((local : List ℕ) × (domain : List ℕ) × (text ≡ local ++ (at_sign ∷ domain))
          × IsPlain domain
          × (mask_email text ≡ hidden local domain))
unfolding mask_email
mask_email-cases text = elim (split text) [
  | inl h ↦ inl (h, rw (last_index_of-plain text h) refl)
  | inr (local, domain, e, h) ↦ inr (local, domain, e, h, rw e (mask_email-hidden local domain h))
]
