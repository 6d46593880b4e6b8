-- ===== src/Users/Remain.antt =====
-- A hotel's active admins remain when users are created and log in.
use hotel_crm.Prelude.{
  ◌<◌, refl, arith, String, Option, List, inl, inr, Bool-cases, Option-cases, ◌==◌, count,
  count-change_mono, ◌&&◌, if◌then◌else◌,
}
use hotel_crm.Schema.{UserRow, user_conflict}
use hotel_crm.Platform.{Platform, World}
use hotel_crm.Platform.Results.{Action, Outcome-cases, throw, pure, prisma, ◌>>=◌}
use hotel_crm.Tenant.{with_current_tenant}
use hotel_crm.Users.Types.{NewUserRecord}
use hotel_crm.Users.Repository.{
  user_policy, has_id, logged_in, create, insert_new, insert_user, update_users, mark_logged_in,
}
use hotel_crm.Users.Rows.{user_rows, resolve, with_current_tenant-ok, with_current_tenant-err}
use hotel_crm.Users.Effects.{step, creates, marks}
use hotel_crm.Users.Admins.{admins_of}

module _ {U T R K : Type 0} (p : Platform U T R K) where
  -- A predicate of the rows that holds before a transaction and after its work holds after it.
  current-rows :
      {A : Type 0} (Q : List UserRow → Type 0) (current : Option String)
      (work : Option String → String → Action (World U T R) A) (w : World U T R)
      → Q (user_rows p w)
      → ((s : Option String) (t : String) → Q (user_rows p (work s t w).1))
      → Q (user_rows p (with_current_tenant p current work w).1)
  current-rows Q current work w b h = elim (Outcome-cases (resolve p current)) [
    | inr (x, e) ↦ rw (with_current_tenant-err p current x work w e) b
    | inl ((t, s), e) ↦
        rw (with_current_tenant-ok p current s t work w e)
          (elim (Outcome-cases (work s t w).0) [ inl (a, f) ↦ rw f (h s t) | inr (x, f) ↦ rw f b ])
  ]

  module _ (tenant : String) where
    abbrev pub HasAdmin : List UserRow → Type 0
    HasAdmin xs = 0 < count (admins_of tenant) xs

    insert-HasAdmin :
        (s : Option String) (r : UserRow) (w : World U T R)
        → HasAdmin (user_rows p w)
        → HasAdmin (user_rows p (insert_user p s r w).1)
    unfolding insert_user
    insert-HasAdmin s r w b =
        elim (Option-cases (p.users.create (user_policy s) user_conflict r w.users)) [
          | inl e ↦ rw (insert_user, e) b
          | inr (v, e) ↦
              let (rows, _, _) = p.users.rows-create (user_policy s) user_conflict r w.users v e in
              rw (insert_user, e, rows) (ground (arith, b))
        ]

    pub creates-HasAdmin :
        (current : Option String) (new : NewUserRecord) (w : World U T R)
        → HasAdmin (user_rows p w)
        → HasAdmin (user_rows p (step p (creates current new) w))
    unfolding step create insert_new
    creates-HasAdmin current new w b = current-rows HasAdmin current _ w b λ s t.
        elim (Outcome-cases (p.to_uuid t)) [
          | inl (u, f) ↦ rw f (insert-HasAdmin s _ _ b)
          | inr (x, f) ↦ rw f b
        ]

    marked-HasAdmin :
        (s : Option String) (key : String) (w : World U T R)
        → HasAdmin (user_rows p w)
        → HasAdmin (
            user_rows p
              ((update_users p s (has_id key) logged_in >>= λ count.
                  if count == 0 then throw (prisma "P2025") else pure tt)
                w).1)
    unfolding update_users
    marked-HasAdmin s key w b =
        let at = p.clock w.reads in
        let rows =
          p.users.rows-update_many (user_policy s) (has_id key) (logged_in at) w.users
            (λ r. refl) in
        let more =
          count-change_mono (admins_of tenant) (λ r. user_policy s r && has_id key r) (logged_in at)
            (user_rows p w) (λ x m q h. h) in
        let change : 0
            < count (admins_of tenant) (
                p.users.rows
                  (p.users.update_many (user_policy s) (has_id key) (logged_in at) w.users).0) =
          rw rows (omega (arith, more, b)) in
        elim (Bool-cases (
          (p.users.update_many (user_policy s) (has_id key) (logged_in (p.clock w.reads)) w.users).1
          == 0)) [ inl e ↦ rw e change | inr e ↦ rw e change ]

    pub marks-HasAdmin :
        (current : Option String) (id : String) (w : World U T R)
        → HasAdmin (user_rows p w)
        → HasAdmin (user_rows p (step p (marks current id) w))
    unfolding step mark_logged_in
    marks-HasAdmin current id w b = current-rows HasAdmin current _ w b λ s t.
        elim (Outcome-cases (p.to_uuid id)) [
          | inl (key, f) ↦ rw f (marked-HasAdmin s key w b)
          | inr (x, f) ↦ rw f b
        ]
