-- ===== src/Dto/Sound.antt =====
-- What the ValidationPipe lets through has the declared type.
use hotel_crm.Prelude.{
  ℕ, ◌≤◌, ◌≡◌, refl, ◌≢◌, arith, String, true, Option, some, List, [], ◌∷◌, All, Memᴰ, ◌⊎◌, inl,
  inr,
}
use hotel_crm.Schema.{Role, admin, manager, staff}
use hotel_crm.Users.Types.{Field, absent, null, value}
use hotel_crm.Dto.Validator.{
  Shape, undefined, boolean, natural, text, array, object_value, other_number, Plain, Property, Dto,
  Validator, IsNullish, IsText, IsOneOf, Meets, is_string, is_email, is_array, is_boolean, is_int,
  is_not_empty, is_string_each, min_length, min, max, is_in, is_in_each,
}
use hotel_crm.Dto.Validator as Js
use hotel_crm.Dto.Schemas.{roles}
use hotel_crm.Dto.Readers.{
  as_text, as_boolean, as_natural, as_role, as_texts, texts_of, field_of, role_of,
}

-- The value of a property, where there is one.
abbrev pub Holds : {A : Type 0} → (A → Type 0) → Field A → Type 0
Holds P absent = Unit {0}
Holds P null = Unit {0}
Holds P (value a) = P a

abbrev pub Reads : {V A : Type 0} → (Shape V → Option A) → (A → Type 0) → Shape V → Type 0
Reads {A = A} f P s = (a : A) × (f s ≡ some a) × P a

pub field-Reads :
    {V A : Type 0} (f : Shape V → Option A) (P : A → Type 0) (s : Shape V)
    → IsNullish s ⊎ Reads f P s
    → Reads (field_of f) (Holds P) s
field-Reads f P undefined h = (absent, refl, tt)
field-Reads f P Js.null h = (null, refl, tt)
field-Reads f P s (inr (a, e, k)) = (value a, rw e refl, k)
field-Reads f P s (inl (inl e)) = absurd (ground (arith, e))
field-Reads f P s (inl (inr e)) = absurd (ground (arith, e))

role-text : (s : String) → Memᴰ s roles → (r : Role) × (role_of s ≡ some r)
role-text s (Memᴰ.head e) = (admin, rw e refl)
role-text s (Memᴰ.tail (Memᴰ.head e)) = (manager, rw e refl)
role-text s (Memᴰ.tail (Memᴰ.tail (Memᴰ.head e))) = (staff, rw e refl)
role-text s (Memᴰ.tail (Memᴰ.tail (Memᴰ.tail m))) = elim m [ ]

module _ {V : Type 0} (validator : Validator V) where
  -- What each list of decorators lets through.
  pub text-Reads :
      (v : V)
      → validator.accepts is_string v ≡ true
      → Reads as_text (λ s. Unit {0}) (validator.shape v)
  text-Reads v h = let (s, e) = validator.accepts-is_string v h in (s, rw e refl, tt)

  pub long_text-Reads :
      (v : V) (n : ℕ)
      → All (λ d. validator.accepts d v ≡ true) (is_string ∷ min_length n ∷ [])
      → Reads as_text (λ s. n ≤ validator.text_length s) (validator.shape v)
  long_text-Reads v n (h, (k, _)) =
      let (s, e) = validator.accepts-is_string v h in
      (s, rw e refl, validator.accepts-min_length v s n e k)

  pub email-Reads :
      (v : V)
      → validator.accepts is_email v ≡ true
      → Reads as_text (λ s. validator.is_email_text s ≡ true) (validator.shape v)
  email-Reads v h = let (s, e, k) = validator.accepts-is_email v h in (s, rw e refl, k)

  pub role-Reads :
      (v : V)
      → validator.accepts (is_in roles) v ≡ true
      → Reads as_role (λ r. Unit {0}) (validator.shape v)
  role-Reads v h =
      let (s, e, m) = validator.accepts-is_in v roles h in
      let (r, k) = role-text s m in (r, rw (e, k) refl, tt)

  pub boolean-Reads :
      (v : V)
      → validator.accepts is_boolean v ≡ true
      → Reads as_boolean (λ b. Unit {0}) (validator.shape v)
  boolean-Reads v h = let (b, e) = validator.accepts-is_boolean v h in (b, rw e refl, tt)

  texts-all :
      (l : List V)
      → All (IsText validator.shape) l
      → (r : List String) × (texts_of validator l ≡ some r)
  unfolding texts_of
  texts-all [] h = ([], refl)
  texts-all (v ∷ l) ((s, e), h) = let (r, f) = texts-all l h in (s ∷ r, rw (e, f) refl)

  texts-all_in :
      (names : List String) (l : List V)
      → All (IsOneOf validator.shape names) l
      → (r : List String) × (texts_of validator l ≡ some r) × All (λ s. Memᴰ s names) r
  unfolding texts_of
  texts-all_in names [] h = ([], refl, tt)
  texts-all_in names (v ∷ l) ((s, e, m), h) =
      let (r, f, k) = texts-all_in names l h in (s ∷ r, rw (e, f) refl, (m, k))

  pub texts-Reads :
      (v : V)
      → All (λ d. validator.accepts d v ≡ true) (is_array ∷ is_string_each ∷ [])
      → Reads (as_texts validator) (λ l. Unit {0}) (validator.shape v)
  texts-Reads v (h, (k, _)) =
      let (l, e) = validator.accepts-is_array v h in
      let (r, f) = texts-all l (validator.accepts-is_string_each v l e k) in (r, rw (e, f) refl, tt)

  pub names-Reads :
      (v : V) (names : List String)
      → All (λ d. validator.accepts d v ≡ true) (is_array ∷ is_in_each names ∷ [])
      → Reads (as_texts validator) (All (λ s. Memᴰ s names)) (validator.shape v)
  names-Reads v names (h, (k, _)) =
      let (l, e) = validator.accepts-is_array v h in
      let (r, f, m) = texts-all_in names l (validator.accepts-is_in_each v l names e k) in
      (r, rw (e, f) refl, m)

  pub filled-Reads :
      (v : V)
      → All (λ d. validator.accepts d v ≡ true) (is_string ∷ is_not_empty ∷ [])
      → Reads as_text (λ s. s ≢ "") (validator.shape v)
  filled-Reads v (h, (k, _)) =
      let (s, e) = validator.accepts-is_string v h in
      (s, rw e refl, validator.accepts-is_not_empty v s e k)

  pub natural-Reads :
      (v : V) (m : ℕ)
      → validator.accepts is_int v ≡ true
      → validator.accepts (min m) v ≡ true
      → Reads as_natural (λ n. m ≤ n) (validator.shape v)
  natural-Reads v m h k = let (n, e, l) = validator.accepts-is_int_min v m h k in (n, rw e refl, l)

  pub bounded-Reads :
      (v : V) (m top : ℕ)
      → All (λ d. validator.accepts d v ≡ true) (is_int ∷ min m ∷ max top ∷ [])
      → Reads as_natural (λ n. (m ≤ n) × (n ≤ top)) (validator.shape v)
  bounded-Reads v m top (h, (k, (l, _))) =
      let (n, e, low) = validator.accepts-is_int_min v m h k in
      (n, rw e refl, (low, validator.accepts-max v n top e l))
