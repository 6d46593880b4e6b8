-- ===== src/Api/Kept.antt =====
-- What requests keep that are served one after the other.
use hotel_crm.Prelude.{
  ◌≡◌, ◌≢◌, refl, ◌∙◌, String, Option, some, List, All, All-imp, All-of_at, keep, Memᴰ,
}
use hotel_crm.Schema.{UserRow, TokenRow}
use hotel_crm.Platform.{Platform, World}
use hotel_crm.Platform.Moves.{IsPreorder}
use hotel_crm.Auth.Guards.{Passport}
use hotel_crm.Users.Rows.{user_rows, UniqueUsers}
use hotel_crm.Users.Effects.{current_setting}
use hotel_crm.Users.Isolation.{
  in_tenant, UserEffect-elsewhere, UserEffect-UniqueUsers, UserEffect-account, SameAccount,
}
use hotel_crm.RefreshToken.Effects.{token_rows}
use hotel_crm.RefreshToken.Unique.{Unique, Effect-Unique}
use hotel_crm.Api.Handlers.{Pipes}
use hotel_crm.Api.Footprint.{
  OnUsers, OnUsers-order, OnUsers-Covers, OnTokens-order, OnTokens-Covers,
}
use hotel_crm.Api.Covers.{Covers}
use hotel_crm.Api.Served.{Call, tenant_of, served, served-moved}

-- The relations of rows.
abbrev Elsewhere : String → List UserRow → List UserRow → Type 0
Elsewhere t xs ys = keep (in_tenant t) ys ≡ keep (in_tenant t) xs

Elsewhere-order : (t : String) → IsPreorder (Elsewhere t)
Elsewhere-order t = record { reflexive = λ xs. refl; transitive = λ xs ys zs h k. k ∙ h }

abbrev NoneLost : List UserRow → List UserRow → Type 0
NoneLost xs ys = (r : UserRow) → Memᴰ r xs → (x : UserRow) × Memᴰ x ys × SameAccount r x

NoneLost-order : IsPreorder NoneLost
NoneLost-order = record {
  reflexive = λ xs r m. (r, m, (refl, refl, refl, refl));
  transitive = λ xs ys zs h k r m.
      let (x, n, (a, b, c, d)) = h r m in
      let (y, l, (a', b', c', d')) = k x n in (y, l, (a' ∙ a, b' ∙ b, c' ∙ c, d' ∙ d));
}

abbrev pub StillUnique : List UserRow → List UserRow → Type 0
StillUnique xs ys = UniqueUsers xs → UniqueUsers ys

pub StillUnique-order : IsPreorder StillUnique
StillUnique-order = record { reflexive = λ xs u. u; transitive = λ xs ys zs h k u. k (h u) }

abbrev StillDistinct : List TokenRow → List TokenRow → Type 0
StillDistinct xs ys = Unique xs → Unique ys

StillDistinct-order : IsPreorder StillDistinct
StillDistinct-order = record { reflexive = λ xs u. u; transitive = λ xs ys zs h k u. k (h u) }

module _ {U T R K : Type 0} (p : Platform U T R K) where
  pub StillUnique-Covers :
      (current : Option String) → Covers p current (OnUsers p StillUnique-order)
  StillUnique-Covers current =
      OnUsers-Covers p StillUnique-order current λ xs ys e. UserEffect-UniqueUsers e

module _ {U T R K D : Type 0} (p : Platform U T R K) (passport : Passport p.jwt)
    (pipes : Pipes K D) where
  -- Whatever requests are served and however they end, if the policies read another tenant's id
  -- while each of them runs, or none, then the users of a tenant are after them what they were
  -- before.
  pub served-isolated :
      (t : String) (calls : List (Call K D)) (w : World U T R)
      → All (λ call. current_setting p (tenant_of call) ≢ some t) calls
      → keep (in_tenant t) (user_rows p (served p passport pipes calls w))
        ≡ keep (in_tenant t) (user_rows p w)
  served-isolated t calls w h =
      served-moved p passport pipes calls w (OnUsers-order p (Elsewhere-order t)) (
        All-imp _ _ calls
          (λ call k.
            OnUsers-Covers p (Elsewhere-order t) (tenant_of call)
              λ xs ys e. UserEffect-elsewhere t k e)
          h)

  -- Whatever requests are served and however they end, no user is lost: a row stays with its id,
  -- its tenant, its address and its password's hash.
  pub served-account :
      (calls : List (Call K D)) (w : World U T R) (r : UserRow)
      → Memᴰ r (user_rows p w)
      → (x : UserRow) × Memᴰ x (user_rows p (served p passport pipes calls w)) × SameAccount r x
  served-account calls w = served-moved p passport pipes calls w (OnUsers-order p NoneLost-order) (
      All-of_at _ _ λ call m.
        OnUsers-Covers p NoneLost-order (tenant_of call) λ xs ys e r. UserEffect-account r e)

  pub served-Unique :
      (calls : List (Call K D)) (w : World U T R)
      → Unique (token_rows p w)
      → Unique (token_rows p (served p passport pipes calls w))
  served-Unique calls w =
      served-moved p passport pipes calls w (OnTokens-order p StillDistinct-order) (
        All-of_at _ _ λ call m.
          OnTokens-Covers p StillDistinct-order (tenant_of call) λ New s xs ys e. Effect-Unique e)

  -- Whatever requests are served and however they end, users keep unique ids and, in their tenants,
  -- unique addresses, and refresh tokens keep unique ids and hashes, if they had them.
  pub served-UniqueUsers :
      (calls : List (Call K D)) (w : World U T R)
      → UniqueUsers (user_rows p w)
      → Unique (token_rows p w)
      → UniqueUsers (user_rows p (served p passport pipes calls w))
        × Unique (token_rows p (served p passport pipes calls w))
  served-UniqueUsers calls w u v = (
    served-moved p passport pipes calls w (OnUsers-order p StillUnique-order)
        (All-of_at _ _ λ call m. StillUnique-Covers p (tenant_of call)) u,
    served-Unique calls w v,
  )
