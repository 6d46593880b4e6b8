-- ===== src/Api/Served.antt =====
-- Requests that are served one after the other, and what each of them and all of them keep.
use hotel_crm.Prelude.{Option, String, List, [], ◌∷◌, All}
use hotel_crm.Platform.{Platform, World}
use hotel_crm.Platform.Moves.{IsPreorder}
use hotel_crm.Tenant.{tenant_of_header}
use hotel_crm.Auth.Guards.{Passport}
use hotel_crm.Api.Routes.{Endpoint}
use hotel_crm.Api.Handlers.{Pipes}
use hotel_crm.Api.Pipeline.{Incoming, reply}
use hotel_crm.Api.Covers.{Covers}
use hotel_crm.Api.Moved.{reply-Moves}

pub record Call (K D : Type 0) : Type 0 where
  pub endpoint : Endpoint
  pub incoming : Incoming K D

abbrev pub tenant_of : {K D : Type 0} → Call K D → Option String
tenant_of call = tenant_of_header call.incoming.tenant_id

module _ {U T R K D : Type 0} (p : Platform U T R K) (passport : Passport p.jwt)
    (pipes : Pipes K D) where
  -- The world after the calls, the first of them first.
  unfoldable pub served : List (Call K D) → World U T R → World U T R
  served [] w = w
  served (call ∷ calls) w = served calls (reply p passport pipes call.endpoint call.incoming w).1

  pub served-moved :
      {Rel : World U T R → World U T R → Type 0} (calls : List (Call K D)) (w : World U T R)
      → IsPreorder Rel
      → All (λ call. Covers p (tenant_of call) Rel) calls
      → Rel w (served calls w)
  unfolding served
  served-moved [] w order h = order.reflexive w
  served-moved (call ∷ calls) w order (h, k) =
      order.transitive w _ _ ((reply-Moves p passport pipes call.endpoint call.incoming h).moved w)
        (served-moved calls _ order k)
