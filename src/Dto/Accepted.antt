-- ===== src/Dto/Accepted.antt =====
-- The bodies and queries that the ValidationPipe lets through, as the arguments of the handlers.
use hotel_crm.Prelude.{
  ℕ, ◌≤◌, ◌≡◌, refl, ◌≢◌, sym, subst, arith, String, true, false, Option, none, some, All, Memᴰ,
  inl, inr,
}
use hotel_crm.Platform.Results.{ok}
use hotel_crm.Auth.Sessions.{LoginDto}
use hotel_crm.Users.Types.{CreateUserDto, UpdateUserDto}
use hotel_crm.Users.Repository.{PageRequest}
use hotel_crm.Api.Handlers.{IsListUsersQuery}
use hotel_crm.Dto.Validator.{
  Shape, Plain, Property, Validator, ValidationPipe, Meets, assigned, given_or, read, IsNullish,
  property,
}
use hotel_crm.Dto.Schemas.{
  create_user_email, create_user_password, create_user_full_name, create_user_role,
  create_user_permissions, create_user_phone, update_user_full_name, update_user_phone,
  update_user_role, update_user_permissions, update_user_is_active, list_users_page,
  list_users_limit, login_email, login_password, token_refresh_token, permission_names,
  create_user_dto, update_user_dto, list_users_query_dto, login_dto, refresh_token_dto,
}
use hotel_crm.Dto.Readers.{
  as_text, as_natural, as_role, as_boolean, field_of, as_texts, shape_of, create_user_of,
  update_user_of, page_request_of, login_of, refresh_token_of,
}
use hotel_crm.Dto.Sound.{
  Holds, Reads, field-Reads, text-Reads, long_text-Reads, email-Reads, role-Reads, boolean-Reads,
  texts-Reads, names-Reads, filled-Reads, natural-Reads, bounded-Reads,
}

module _ {V : Type 0} (validator : Validator V) where
  abbrev AllMet : Property → V → Type 0
  AllMet p v = All (λ d. validator.accepts d v ≡ true) p.decorators

  -- What is read from an instance, where the decorators tell it.
  required-Reads :
      {A : Type 0} (f : Shape V → Option A) (P : A → Type 0) (p : Property) (i plain : Plain V)
      → (read validator p.name i ≡ assigned validator p plain)
        × Meets validator p (assigned validator p plain)
      → p.optional ≡ false
      → (AllMet p (assigned validator p plain)
          → Reads f P (validator.shape (assigned validator p plain)))
      → Reads f P (shape_of validator p.name i)
  required-Reads f P p i plain (e, inl (o, _)) n h = absurd (cc (o, n))
  required-Reads f P p i plain (e, inr m) n h =
      subst (λ v. Reads f P (validator.shape v)) (sym e) (h m)

  optional-Reads :
      {A : Type 0} (f : Shape V → Option A) (P : A → Type 0) (p : Property) (i plain : Plain V)
      → (read validator p.name i ≡ assigned validator p plain)
        × Meets validator p (assigned validator p plain)
      → (AllMet p (assigned validator p plain)
          → Reads f P (validator.shape (assigned validator p plain)))
      → Reads (field_of f) (Holds P) (shape_of validator p.name i)
  optional-Reads f P p i plain (e, inl (_, n)) h =
      subst (λ v. Reads (field_of f) (Holds P) (validator.shape v)) (sym e)
        (field-Reads f P _ (inl n))
  optional-Reads f P p i plain (e, inr m) h =
      subst (λ v. Reads (field_of f) (Holds P) (validator.shape v)) (sym e)
        (field-Reads f P _ (inr (h m)))

  -- What a body is accepted for.
  pub record IsCreateUser (dto : CreateUserDto) : Type 0 where
    pub email : validator.is_email_text dto.email ≡ true
    pub password : 8 ≤ validator.text_length dto.password

  pub record IsLogin (dto : LoginDto) : Type 0 where
    pub email : validator.is_email_text dto.email ≡ true
    pub password : 1 ≤ validator.text_length dto.password

  pub record IsUpdateUser (dto : UpdateUserDto) : Type 0 where
    pub full_name : Holds (λ s. 1 ≤ validator.text_length s) dto.full_name
    pub permissions : Holds (All (λ s. Memᴰ s permission_names)) dto.permissions

  module _ (pipe : ValidationPipe validator) (plain i : Plain V) where
    pub create_user_of-some :
        pipe.transform create_user_dto plain ≡ ok i
        → (dto : CreateUserDto) × (create_user_of validator i ≡ some dto) × IsCreateUser dto
    unfolding create_user_of
    create_user_of-some h =
        let (_, (m1, (m2, (m3, (m4, (m5, (m6, _))))))) =
          pipe.transform-ok create_user_dto plain i h in
        let (email, e1, k1) =
          required-Reads as_text (λ s. validator.is_email_text s ≡ true) create_user_email i plain
            m1 refl (λ a. email-Reads validator _ a.0) in
        let (password, e2, k2) =
          required-Reads as_text (λ s. 8 ≤ validator.text_length s) create_user_password i plain m2
            refl (long_text-Reads validator _ 8) in
        let (full_name, e3, _) =
          required-Reads as_text (λ s. Unit {0}) create_user_full_name i plain m3 refl
            (λ a. text-Reads validator _ a.0) in
        let (role, e4, _) =
          optional-Reads as_role (λ s. Unit {0}) create_user_role i plain m4
            (λ a. role-Reads validator _ a.0) in
        let (permissions, e5, _) =
          optional-Reads (as_texts validator) (λ s. Unit {0}) create_user_permissions i plain m5
            (texts-Reads validator _) in
        let (phone, e6, _) =
          optional-Reads as_text (λ s. Unit {0}) create_user_phone i plain m6
            (λ a. text-Reads validator _ a.0) in
        (
          record {
            email = email;
            password = password;
            full_name = full_name;
            role = role;
            permissions = permissions;
            phone = phone;
          },
          rw (e1, e2, e3, e4, e5, e6) refl,
          record { email = k1; password = k2 },
        )

    pub update_user_of-some :
        pipe.transform update_user_dto plain ≡ ok i
        → (dto : UpdateUserDto) × (update_user_of validator i ≡ some dto) × IsUpdateUser dto
    unfolding update_user_of
    update_user_of-some h =
        let (_, (m1, (m2, (m3, (m4, (m5, _)))))) = pipe.transform-ok update_user_dto plain i h in
        let (full_name, e1, k1) =
          optional-Reads as_text (λ s. 1 ≤ validator.text_length s) update_user_full_name i plain m1
            (long_text-Reads validator _ 1) in
        let (phone, e2, _) =
          optional-Reads as_text (λ s. Unit {0}) update_user_phone i plain m2
            (λ a. text-Reads validator _ a.0) in
        let (role, e3, _) =
          optional-Reads as_role (λ s. Unit {0}) update_user_role i plain m3
            (λ a. role-Reads validator _ a.0) in
        let (permissions, e4, k4) =
          optional-Reads (as_texts validator) (All (λ s. Memᴰ s permission_names))
            update_user_permissions i plain m4 (names-Reads validator _ permission_names) in
        let (is_active, e5, _) =
          optional-Reads as_boolean (λ b. Unit {0}) update_user_is_active i plain m5
            (λ a. boolean-Reads validator _ a.0) in
        (
          record {
            full_name = full_name;
            phone = phone;
            role = role;
            permissions = permissions;
            is_active = is_active;
          },
          rw (e1, e2, e3, e4, e5) refl,
          record { full_name = k1; permissions = k4 },
        )

    pub login_of-some :
        pipe.transform login_dto plain ≡ ok i
        → (dto : LoginDto) × (login_of validator i ≡ some dto) × IsLogin dto
    unfolding login_of
    login_of-some h =
        let (_, (m1, (m2, _))) = pipe.transform-ok login_dto plain i h in
        let (email, e1, k1) =
          required-Reads as_text (λ s. validator.is_email_text s ≡ true) login_email i plain m1 refl
            (λ a. email-Reads validator _ a.0) in
        let (password, e2, k2) =
          required-Reads as_text (λ s. 1 ≤ validator.text_length s) login_password i plain m2 refl
            (long_text-Reads validator _ 1) in
        (
          record { email = email; password = password },
          rw (e1, e2) refl,
          record { email = k1; password = k2 },
        )

    pub refresh_token_of-some :
        pipe.transform refresh_token_dto plain ≡ ok i
        → (s : String) × (refresh_token_of validator i ≡ some s) × (s ≢ "")
    unfolding refresh_token_of
    refresh_token_of-some h =
        let (_, (m, _)) = pipe.transform-ok refresh_token_dto plain i h in
        required-Reads as_text (λ s. s ≢ "") token_refresh_token i plain m refl
          (λ a. filled-Reads validator _ a)

    -- A number is neither `undefined` nor `null`.
    given-number :
        (p : Property) (n : ℕ) (o : Option V)
        → p.to_number ≡ true
        → p.initial ≡ some n
        → IsNullish (validator.shape (given_or validator p o))
        → ⊥
    given-number p n none c d e = ground (arith, c, d, e, validator.shape-number_value n)
    given-number p n (some v) c d e = ground (arith, c, d, e, validator.shape-number_of v)

    number-met :
        (p : Property)
        → p.to_number ≡ true
        → (n : ℕ) × (p.initial ≡ some n)
        → Meets validator p (assigned validator p plain)
        → AllMet p (assigned validator p plain)
    number-met p c d (inr m) = m
    number-met p c (n, d) (inl (_, e)) = absurd (given-number p n (property p.name plain) c d e)

    pub page_request_of-some :
        pipe.transform list_users_query_dto plain ≡ ok i
        → (q : PageRequest) × (page_request_of validator i ≡ some q) × IsListUsersQuery q
    unfolding page_request_of
    page_request_of-some h =
        let (_, ((f1, m1), ((f2, m2), _))) = pipe.transform-ok list_users_query_dto plain i h in
        let a1 = number-met list_users_page refl (1, refl) m1 in
        let a2 = number-met list_users_limit refl (20, refl) m2 in
        let (page, e1, k1) =
          subst (λ v. Reads as_natural (λ n. 1 ≤ n) (validator.shape v)) (sym f1)
            (natural-Reads validator _ 1 a1.0 a1.1.0) in
        let (limit, e2, (k2, k3)) =
          subst (λ v. Reads as_natural (λ n. (1 ≤ n) × (n ≤ 100)) (validator.shape v)) (sym f2)
            (bounded-Reads validator _ 1 100 a2) in
        (
          record { page = page; limit = limit },
          rw (e1, e2) refl,
          record { page_min = k1; limit_min = k2; limit_max = k3 },
        )
