-- ===== src/Api/Covers.antt =====
-- A relation of worlds that holds across each step of a request; the actions of a request then
-- move the world along it.
use hotel_crm.Prelude.{◌≤◌, ◌≡◌, refl, arith, String, Option}
use hotel_crm.Platform.{Platform, World}
use hotel_crm.Platform.Results.{Action}
use hotel_crm.Platform.Moves.{IsPreorder, Moves}
use hotel_crm.Users.Types.{UpdateUserDto, NewUserRecord}
use hotel_crm.Users.Effects as Users
use hotel_crm.Users.Service.{update}
use hotel_crm.RefreshToken.Effects as Tokens
use hotel_crm.RefreshToken.Idle.{StoresNone}
use hotel_crm.RefreshToken.Service.{TokenSubject, issue}

-- Users and refresh tokens are the same, and no UUID is taken back.
abbrev pub Idle : {U T R : Type 0} → World U T R → World U T R → Type 0
Idle v w = (w.users ≡ v.users) × (w.tokens ≡ v.tokens) × (v.drawn ≤ w.drawn)

-- What a relation covers of a request of the tenant `current`: the transactions that change rows,
-- an update and an issue of a token as a whole, and what touches neither table.
pub record Covers {U T R K : Type 0} (p : Platform U T R K) (current : Option String)
    (Rel : World U T R → World U T R → Type 0) : Type 0 where
  pub order : IsPreorder Rel
  pub idle : (v w : World U T R) → Idle v w → Rel v w
  pub creates :
      (new : NewUserRecord) (w : World U T R) → Rel w (Users.step p (Users.creates current new) w)
  pub marks : (id : String) (w : World U T R) → Rel w (Users.step p (Users.marks current id) w)
  pub updates :
      (id actor : String) (dto : UpdateUserDto) (w : World U T R)
      → Rel w (update p current id dto actor w).1
  pub tokens : (x : Tokens.Transaction) (w : World U T R) → StoresNone x → Rel w (Tokens.step p x w)
  pub issues :
      (subject : TokenSubject) (family_id : String) (w : World U T R)
      → Rel w (issue p subject family_id w).1

module _ {U T R K : Type 0} (p : Platform U T R K) {current : Option String}
    {Rel : World U T R → World U T R → Type 0} (covers : Covers p current Rel) where
  pub idle-Moves :
      {A : Type 0} {m : Action (World U T R) A} → ((w : World U T R) → Idle w (m w).1) → Moves Rel m
  idle-Moves h = record { moved = λ w. covers.idle w _ (h w) }

  pub read-Moves :
      {A : Type 0} {m : Action (World U T R) A} → ((w : World U T R) → (m w).1 ≡ w) → Moves Rel m
  read-Moves h = idle-Moves λ w. rw (h w) (refl, refl, omega arith)
