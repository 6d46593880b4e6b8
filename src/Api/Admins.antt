-- ===== src/Api/Admins.antt =====
-- A hotel keeps an active admin, whatever requests are served.
use hotel_crm.Prelude.{◌<◌, ◌≡◌, sym, subst, String, Option, List, All-of_at, count}
use hotel_crm.Platform.{Platform, World}
use hotel_crm.Platform.Moves.{IsPreorder}
use hotel_crm.Auth.Guards.{Passport}
use hotel_crm.Users.Rows.{UniqueUsers, user_rows}
use hotel_crm.Users.Admins.{admins_of, update-keeps_admin}
use hotel_crm.Users.Remain.{HasAdmin, creates-HasAdmin, marks-HasAdmin}
use hotel_crm.RefreshToken.Effects as Tokens
use hotel_crm.RefreshToken.Service.{issue}
use hotel_crm.RefreshToken.Idle.{step-users}
use hotel_crm.Api.Handlers.{Pipes}
use hotel_crm.Api.Covers.{Covers}
use hotel_crm.Api.Steps.{issue-users}
use hotel_crm.Api.Kept.{StillUnique-Covers}
use hotel_crm.Api.Served.{Call, tenant_of, served, served-moved}

module _ {U T R K : Type 0} (p : Platform U T R K) (tenant : String) where
  -- Users have unique ids, and the tenant an active admin.
  abbrev Managed : World U T R → Type 0
  Managed w = UniqueUsers (user_rows p w) × (0 < count (admins_of tenant) (user_rows p w))

  abbrev StaysManaged : World U T R → World U T R → Type 0
  StaysManaged v w = Managed v → Managed w

  StaysManaged-order : IsPreorder StaysManaged
  StaysManaged-order = record { reflexive = λ w m. m; transitive = λ u v w h k m. k (h m) }

  same-StaysManaged : (v w : World U T R) → w.users ≡ v.users → StaysManaged v w
  same-StaysManaged v w e m =
      subst (λ u. UniqueUsers (p.users.rows u) × HasAdmin p tenant (p.users.rows u)) (sym e) m

  StaysManaged-Covers : (current : Option String) → Covers p current StaysManaged
  StaysManaged-Covers current =
      let unique = StillUnique-Covers p current in
      record {
        order = StaysManaged-order;
        idle = λ v w i. same-StaysManaged v w i.0;
        creates =
            λ new w m. (unique.creates new w m.0, creates-HasAdmin p tenant current new w m.1);
        marks = λ id w m. (unique.marks id w m.0, marks-HasAdmin p tenant current id w m.1);
        updates = λ id actor dto w m. (
          unique.updates id actor dto w m.0,
          update-keeps_admin p current id actor tenant dto w m.0 m.1,
        );
        tokens = λ x w h. same-StaysManaged w (Tokens.step p x w) (step-users p x w);
        issues = λ subject family_id w.
            same-StaysManaged w (issue p subject family_id w).1 (issue-users p subject family_id w);
      }

module _ {U T R K D : Type 0} (p : Platform U T R K) (passport : Passport p.jwt)
    (pipes : Pipes K D) where
  -- Whatever requests are served one after the other and however they end, a tenant that had an
  -- active admin still has one, if users have unique ids.
  pub served-keeps_admin :
      (tenant : String) (calls : List (Call K D)) (w : World U T R)
      → UniqueUsers (user_rows p w)
      → 0 < count (admins_of tenant) (user_rows p w)
      → 0 < count (admins_of tenant) (user_rows p (served p passport pipes calls w))
  served-keeps_admin tenant calls w u h =
      (served-moved p passport pipes calls w (StaysManaged-order p tenant)
        (All-of_at _ _ λ call m. StaysManaged-Covers p tenant (tenant_of call)) (u, h)).1
