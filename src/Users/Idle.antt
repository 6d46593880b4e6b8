-- ===== src/Users/Idle.antt =====
-- The transactions of the repository that only read, and what the others leave alone.
use hotel_crm.Prelude.{ℕ, ◌≤◌, ◌≡◌, refl, arith, String, Option, inl, inr, Bool-cases}
use hotel_crm.Platform.{Platform, World}
use hotel_crm.Platform.Results.{Action, Outcome-cases}
use hotel_crm.Tenant.{with_current_tenant}
use hotel_crm.Users.Types.{has_null}
use hotel_crm.Users.Repository.{
  find_page, find_by_id, count_active_admins, find_by_email_with_secret, create, mark_logged_in,
  update, update_users, insert_new, insert_user, reread, select_user,
}
use hotel_crm.Users.Rows.{resolve, with_current_tenant-ok, with_current_tenant-err}
use hotel_crm.Users.Effects.{
  Transaction, pages, finds, counts, updates, creates, finds_in, finds_email, marks, step,
  find_by_id_in_tenant-world,
}

-- Refresh tokens stay, and no UUID is taken back.
abbrev pub LeavesTokens : {U T R : Type 0} → World U T R → World U T R → Type 0
LeavesTokens v w = (w.tokens ≡ v.tokens) × (v.drawn ≤ w.drawn)

module _ {U T R K : Type 0} (p : Platform U T R K) where
  current-same :
      {A : Type 0} (current : Option String)
      (work : Option String → String → Action (World U T R) A) (w : World U T R)
      → ((s : Option String) (t : String) → (work s t w).1 ≡ w)
      → (with_current_tenant p current work w).1 ≡ w
  current-same current work w h = elim (Outcome-cases (resolve p current)) [
    | inr (x, e) ↦ rw (with_current_tenant-err p current x work w e) refl
    | inl ((t, s), e) ↦
        rw (with_current_tenant-ok p current s t work w e) (elim (Outcome-cases (work s t w).0) [
          | inl (a, f) ↦ rw f (h s t)
          | inr (x, f) ↦ rw (f, h s t) refl
        ])
  ]

  current-LeavesTokens :
      {A : Type 0} (current : Option String)
      (work : Option String → String → Action (World U T R) A) (w : World U T R)
      → ((s : Option String) (t : String) → LeavesTokens w (work s t w).1)
      → LeavesTokens w (with_current_tenant p current work w).1
  current-LeavesTokens current work w h = elim (Outcome-cases (resolve p current)) [
    | inr (x, e) ↦ rw (with_current_tenant-err p current x work w e) (refl, omega arith)
    | inl ((t, s), e) ↦
        rw (with_current_tenant-ok p current s t work w e) (elim (Outcome-cases (work s t w).0) [
          | inl (a, f) ↦ rw f (h s t)
          | inr (x, f) ↦ rw f (refl, (h s t).1)
        ])
  ]

  -- The transactions that read.
  abbrev pub IsRead : Transaction → Type 0
  IsRead (updates _ _ _) = ⊥
  IsRead (creates _ _) = ⊥
  IsRead (marks _ _) = ⊥
  IsRead _ = Unit {0}

  pub step-IsRead : (x : Transaction) (w : World U T R) → IsRead x → step p x w ≡ w
  unfolding step find_page find_by_id count_active_admins find_by_email_with_secret select_user
  step-IsRead (pages current page) w h = current-same current _ w (λ s t. refl)
  step-IsRead (finds current id) w h = current-same current _ w λ s t.
      elim (Outcome-cases (p.to_uuid id)) [ inl (key, f) ↦ rw f refl | inr (x, f) ↦ rw f refl ]
  step-IsRead (counts current) w h = current-same current _ w (λ s t. refl)
  step-IsRead (finds_email current email) w h = current-same current _ w (λ s t. refl)
  step-IsRead (finds_in id tenant) w h = find_by_id_in_tenant-world p id tenant w
  step-IsRead (updates current id d) w h = elim h [ ]
  step-IsRead (creates current d) w h = elim h [ ]
  step-IsRead (marks current id) w h = elim h [ ]

  read-LeavesTokens : (x : Transaction) (w : World U T R) → IsRead x → LeavesTokens w (step p x w)
  read-LeavesTokens x w h = rw (step-IsRead x w h) (refl, omega arith)

  reread-LeavesTokens :
      (s : Option String) (key : String) (n : ℕ) (w : World U T R)
      → LeavesTokens w (reread p s key n w).1
  unfolding reread select_user
  reread-LeavesTokens s key n w = ground arith

  pub step-LeavesTokens : (x : Transaction) (w : World U T R) → LeavesTokens w (step p x w)
  unfolding step update create insert_new insert_user mark_logged_in update_users
  step-LeavesTokens (pages current page) w = read-LeavesTokens (pages current page) w tt
  step-LeavesTokens (finds current id) w = read-LeavesTokens (finds current id) w tt
  step-LeavesTokens (counts current) w = read-LeavesTokens (counts current) w tt
  step-LeavesTokens (finds_email current email) w =
      read-LeavesTokens (finds_email current email) w tt
  step-LeavesTokens (finds_in id tenant) w = read-LeavesTokens (finds_in id tenant) w tt
  step-LeavesTokens (updates current id d) w = current-LeavesTokens current _ w λ s t.
      elim (Bool-cases (has_null d)) [
        | inl n ↦ rw n (refl, omega arith)
        | inr n ↦ elim (Outcome-cases (p.to_uuid id)) [
          | inr (x, f) ↦ rw (n, f) (refl, omega arith)
          | inl (key, f) ↦ rw (n, f) (reread-LeavesTokens s key _ _)
        ]
      ]
  step-LeavesTokens (creates current d) w = current-LeavesTokens current _ w λ s t. ground arith
  step-LeavesTokens (marks current id) w = current-LeavesTokens current _ w λ s t. ground arith
