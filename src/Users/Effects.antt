-- ===== src/Users/Effects.antt =====
-- The transactions of the repository as changes of the rows of `users`.
use hotel_crm.Prelude.{
  ℕ, ◌≡◌, refl, ap, String, Bool, true, false, Option, none, List, [], ◌∷◌, ◌&&◌, All, arith,
  change, inl, inr, Option-cases, Bool-cases, ◌==◌, if◌then◌else◌,
}
use hotel_crm.Schema.{UserRow, user_conflict}
use hotel_crm.Platform.{Platform, World}
use hotel_crm.Platform.Results.{Outcome, ok, err, Action, Outcome-cases, throw, pure, prisma, ◌>>=◌}
use hotel_crm.Tenant.{admits, with_tenant, with_current_tenant, setting_of}
use hotel_crm.Users.Types.{UserUpdateRecord, NewUserRecord, updated_row, has_null}
use hotel_crm.Users.Repository.{
  PageRequest, user_policy, has_id, logged_in, find_page, find_by_id, count_active_admins, update,
  create, insert_new, insert_user, update_users, reread, select_user, find_by_id_in_tenant,
  find_by_email_with_secret, mark_logged_in,
}
use hotel_crm.Users.Rows.{user_rows, resolve, with_current_tenant-ok, with_current_tenant-err}

-- A transaction of any request; the first argument is the tenant of the request.
pub data Transaction : Type 0 where
  pages : Option String → PageRequest → Transaction
  finds : Option String → String → Transaction
  counts : Option String → Transaction
  updates : Option String → String → UserUpdateRecord → Transaction
  creates : Option String → NewUserRecord → Transaction
  finds_in : String → String → Transaction
  finds_email : Option String → String → Transaction
  marks : Option String → String → Transaction

-- A change of a row that keeps what identifies the account and its credentials.
pub record IsGentle (f : UserRow → UserRow) : Type 0 where
  pub keeps_id : (r : UserRow) → (f r).id ≡ r.id
  pub keeps_tenant : (r : UserRow) → (f r).tenant_id ≡ r.tenant_id
  pub keeps_email : (r : UserRow) → (f r).email ≡ r.email
  pub keeps_password : (r : UserRow) → (f r).password_hash ≡ r.password_hash

updated_row-IsGentle : (at : ℕ) (d : UserUpdateRecord) → IsGentle (updated_row at d)
updated_row-IsGentle at d = record {
  keeps_id = λ r. refl;
  keeps_tenant = λ r. refl;
  keeps_email = λ r. refl;
  keeps_password = λ r. refl;
}

logged_in-IsGentle : (at : ℕ) → IsGentle (logged_in at)
logged_in-IsGentle at = record {
  keeps_id = λ r. refl;
  keeps_tenant = λ r. refl;
  keeps_email = λ r. refl;
  keeps_password = λ r. refl;
}

-- What a transaction under a setting may do to the rows: nothing; insert one row that the policy
-- admits and that conflicts with none; or change some of the rows that it admits.
pub data UserEffect (setting : Option String) (xs ys : List UserRow) : Type 0 where
  same : ys ≡ xs → UserEffect setting xs ys
  inserted :
      (r : UserRow)
      → ys ≡ r ∷ xs
      → user_policy setting r ≡ true
      → All (λ x. user_conflict r x ≡ false) xs
      → UserEffect setting xs ys
  changed :
      (q : UserRow → Bool) (f : UserRow → UserRow)
      → IsGentle f
      → ys ≡ change (λ r. user_policy setting r && q r) f xs
      → UserEffect setting xs ys

module _ {U T R K : Type 0} (p : Platform U T R K) where
  unfoldable pub step : Transaction → World U T R → World U T R
  step (pages current page) w = (find_page p current page w).1
  step (finds current id) w = (find_by_id p current id w).1
  step (counts current) w = (count_active_admins p current w).1
  step (updates current id d) w = (update p current id d w).1
  step (creates current d) w = (create p current d w).1
  step (finds_in id tenant) w = (find_by_id_in_tenant p id tenant w).1
  step (finds_email current email) w = (find_by_email_with_secret p current email w).1
  step (marks current id) w = (mark_logged_in p current id w).1

  unfoldable pub run : List Transaction → World U T R → World U T R
  run [] w = w
  run (x ∷ xs) w = run xs (step x w)

  abbrev setting_or_null : Outcome (Option String) → Option String
  setting_or_null (ok s) = s
  setting_or_null (err e) = none

  abbrev current_or_null : Outcome (String × Option String) → Option String
  current_or_null (ok (t, s)) = s
  current_or_null (err e) = none

  -- What the policies read while a request of this tenant runs a transaction.
  abbrev pub current_setting : Option String → Option String
  current_setting current = current_or_null (resolve p current)

  -- The setting of a transaction.
  abbrev pub setting : Transaction → Option String
  setting (pages current _) = current_setting current
  setting (finds current _) = current_setting current
  setting (counts current) = current_setting current
  setting (updates current _ _) = current_setting current
  setting (creates current _) = current_setting current
  setting (finds_in _ tenant) = setting_or_null (setting_of p tenant)
  setting (finds_email current _) = current_setting current
  setting (marks current _) = current_setting current

  current-UserEffect :
      {A : Type 0} (current : Option String)
      (work : Option String → String → Action (World U T R) A) (w : World U T R)
      → ((s : Option String) (t : String)
          → UserEffect s (user_rows p w) (user_rows p (work s t w).1))
      → UserEffect
          (current_setting current)
          (user_rows p w)
          (user_rows p (with_current_tenant p current work w).1)
  current-UserEffect current work w h = elim (Outcome-cases (resolve p current)) [
    | inr (x, e) ↦ rw (e, with_current_tenant-err p current x work w e) (same refl)
    | inl ((t, s), e) ↦
        rw (e, with_current_tenant-ok p current s t work w e)
          (elim (Outcome-cases (work s t w).0) [
            | inl (a, f) ↦ rw f (h s t)
            | inr (x, f) ↦ rw f (same refl)
          ])
  ]

  update_users-UserEffect :
      (s : Option String) (q : UserRow → Bool) (f : ℕ → UserRow → UserRow) (w : World U T R)
      → ((at : ℕ) → IsGentle (f at))
      → UserEffect s (user_rows p w) (user_rows p (update_users p s q f w).1)
  unfolding update_users
  update_users-UserEffect s q f w g = changed q (f (p.clock w.reads)) (g _) (
      p.users.rows-update_many (user_policy s) q _ w.users
        (λ r. ap (admits s) ((g _).keeps_tenant r)))

  insert-UserEffect :
      (s : Option String) (r : UserRow) (w : World U T R)
      → UserEffect s (user_rows p w) (user_rows p (insert_user p s r w).1)
  unfolding insert_user
  insert-UserEffect s r w =
      elim (Option-cases (p.users.create (user_policy s) user_conflict r w.users)) [
        | inl e ↦ rw (insert_user, e) (same refl)
        | inr (v, e) ↦
            let (rows, admitted, apart) =
              p.users.rows-create (user_policy s) user_conflict r w.users v e in
            rw (insert_user, e) (inserted r rows admitted apart)
      ]

  reread-world :
      (s : Option String) (key : String) (n : ℕ) (w : World U T R) → (reread p s key n w).1 ≡ w
  unfolding reread select_user
  reread-world s key n w = ground arith

  marked-UserEffect :
      (s : Option String) (key : String) (w : World U T R)
      → UserEffect s (user_rows p w) (
          user_rows p
            ((update_users p s (has_id key) logged_in >>= λ count.
                if count == 0 then throw (prisma "P2025") else pure tt)
              w).1)
  unfolding update_users
  marked-UserEffect s key w =
      let change = update_users-UserEffect s (has_id key) logged_in w logged_in-IsGentle in
      elim (Bool-cases (
        (p.users.update_many (user_policy s) (has_id key) (logged_in (p.clock w.reads)) w.users).1
        == 0)) [ inl e ↦ rw e change | inr e ↦ rw e change ]

  pub find_by_id_in_tenant-world :
      (id tenant : String) (w : World U T R) → (find_by_id_in_tenant p id tenant w).1 ≡ w
  unfolding find_by_id_in_tenant with_tenant select_user
  find_by_id_in_tenant-world id tenant w = elim (Outcome-cases (setting_of p tenant)) [
    | inr (x, e) ↦ rw e
    | inl (s, e) ↦ elim (Outcome-cases (p.to_uuid id)) [
      | inl (key, f) ↦ rw (e, f)
      | inr (x, f) ↦ rw (e, f)
    ]
  ]

  -- Under row-level security a transaction of the repository does one of three things to the rows
  -- that its setting admits: nothing; insert one row that conflicts with no other; or change some
  -- rows, and of these neither the id nor the tenant nor the address nor the password's hash.
  pub step-UserEffect :
      (x : Transaction) (w : World U T R)
      → UserEffect (setting x) (user_rows p w) (user_rows p (step x w))
  unfolding step find_page find_by_id select_user count_active_admins update create insert_new
      find_by_id_in_tenant find_by_email_with_secret mark_logged_in update_users
  step-UserEffect (pages current page) w = current-UserEffect current _ w (λ s t. same refl)
  step-UserEffect (finds current id) w = current-UserEffect current _ w λ s t.
      elim (Outcome-cases (p.to_uuid id)) [
        | inl (key, f) ↦ rw f (same refl)
        | inr (x, f) ↦ rw f (same refl)
      ]
  step-UserEffect (counts current) w = current-UserEffect current _ w (λ s t. same refl)
  step-UserEffect (updates current id d) w = current-UserEffect current _ w λ s t.
      elim (Bool-cases (has_null d)) [
        | inl n ↦ rw n (same refl)
        | inr n ↦ elim (Outcome-cases (p.to_uuid id)) [
          | inr (x, f) ↦ rw (n, f) (same refl)
          | inl (key, f) ↦
              rw (n, f, reread-world)
                (update_users-UserEffect s (has_id key) _ w (λ at. updated_row-IsGentle at d))
        ]
      ]
  step-UserEffect (creates current d) w = current-UserEffect current _ w λ s t.
      elim (Outcome-cases (p.to_uuid t)) [
        | inl (u, f) ↦ rw f (insert-UserEffect s _ _)
        | inr (x, f) ↦ rw f (same refl)
      ]
  step-UserEffect (finds_in id tenant) w =
      same (ap (user_rows p) (find_by_id_in_tenant-world id tenant w))
  step-UserEffect (finds_email current email) w = current-UserEffect current _ w (λ s t. same refl)
  step-UserEffect (marks current id) w = current-UserEffect current _ w λ s t.
      elim (Outcome-cases (p.to_uuid id)) [
        | inl (key, f) ↦ rw f (marked-UserEffect s key w)
        | inr (x, f) ↦ rw f (same refl)
      ]
