-- ===== src/Api/Ended.antt =====
-- The rows of a refresh token that are revoked stay so over requests.
use hotel_crm.Prelude.{ℕ, ◌+◌, ◌≤◌, ◌≢◌, refl, sym, ◌∙◌, subst, arith, String, Option}
use hotel_crm.Platform.{Platform, World}
use hotel_crm.Platform.Moves.{IsPreorder}
use hotel_crm.Users.Effects as Users
use hotel_crm.Users.Effects.{creates, marks, current_setting, setting}
use hotel_crm.Users.Types.{UpdateUserDto}
use hotel_crm.Users.Idle.{LeavesTokens, step-LeavesTokens}
use hotel_crm.Users.Service.{update}
use hotel_crm.RefreshToken.Repository.{has_hash}
use hotel_crm.RefreshToken.Service.{TokenSubject, issue, hash, sign_refresh, refresh_claims}
use hotel_crm.RefreshToken.Effects as Tokens
use hotel_crm.RefreshToken.Effects.{token_rows, step-Effect, step-drawn, IsNew}
use hotel_crm.RefreshToken.Idle.{StoresNone}
use hotel_crm.RefreshToken.Revoked.{AllRevoked, Effect-AllRevoked}
use hotel_crm.RefreshToken.Once.{IsFresh, IsNew-hash}
use hotel_crm.Api.Covers.{Covers}
use hotel_crm.Api.Steps.{update-Moves, store, store-Moves, issue-store, stored_token}

module _ {U T R K : Type 0} (p : Platform U T R K) where
  LeavesTokens-order : IsPreorder {W = World U T R} LeavesTokens
  LeavesTokens-order = record {
    reflexive = λ w. (refl, omega arith);
    transitive = λ u v w h k. (k.0 ∙ h.0, omega (arith, h.1, k.1));
  }

  -- An update of a user leaves refresh tokens.
  pub update-LeavesTokens :
      (current : Option String) (id actor : String) (dto : UpdateUserDto) (w : World U T R)
      → LeavesTokens w (update p current id dto actor w).1
  update-LeavesTokens current id actor dto =
      (update-Moves p
        (record {
          order = LeavesTokens-order;
          idle = λ v w i. (i.1, i.2);
          users = λ x w e. step-LeavesTokens p x w;
        })
        id actor dto).moved

module _ {U T R K : Type 0} (p : Platform U T R K) (h : String) where
  -- No refresh token that is signed from here on has the hash.
  abbrev pub IsUnrepeated : World U T R → Type 0
  IsUnrepeated w =
      (subject : TokenSubject) (n at : ℕ)
      → w.drawn ≤ n
      → hash p (sign_refresh p at (refresh_claims subject (p.random_uuid n))) ≢ h

  abbrev pub Ended : World U T R → Type 0
  Ended w = AllRevoked (has_hash h) (token_rows p w)

  -- The rows with a hash that are revoked stay so, if no token repeats it.
  abbrev pub StaysEnded : World U T R → World U T R → Type 0
  StaysEnded v w = (v.drawn ≤ w.drawn) × (IsUnrepeated v → Ended v → Ended w)

  pub StaysEnded-order : IsPreorder StaysEnded
  StaysEnded-order = record {
    reflexive = λ w. (omega arith, λ f d. d);
    transitive = λ u v w h k. (
      omega (arith, h.0, k.0),
      λ f d. k.1 (λ subject n at l. f subject n at (omega (arith, l, h.0))) (h.1 f d),
    );
  }

  leaves-StaysEnded : (v w : World U T R) → LeavesTokens v w → StaysEnded v w
  leaves-StaysEnded v w (e, l) =
      (l, λ f d. subst (λ t. AllRevoked (has_hash h) (p.tokens.rows t)) (sym e) d)

  step-Ended :
      (x : Tokens.Transaction) (w : World U T R) → IsFresh h x → Ended w → Ended (Tokens.step p x w)
  step-Ended x w f d = Effect-AllRevoked _ (IsNew-hash p h x w f) (step-Effect p x w) d

  StoresNone-IsFresh : (x : Tokens.Transaction) → StoresNone x → IsFresh h x
  StoresNone-IsFresh (Tokens.creates _ _) n = elim n [ ]
  StoresNone-IsFresh (Tokens.finds _ _) n = tt
  StoresNone-IsFresh (Tokens.claims _ _) n = tt
  StoresNone-IsFresh (Tokens.revokes _ _) n = tt
  StoresNone-IsFresh (Tokens.deletes _ _) n = tt

  Drawn-order : IsPreorder {W = World U T R} (λ v w. v.drawn ≤ w.drawn)
  Drawn-order = record {
    reflexive = λ w. omega arith;
    transitive = λ u v w h k. omega (arith, h, k);
  }

  StillEnded-order : IsPreorder {W = World U T R} (λ v w. Ended v → Ended w)
  StillEnded-order = record { reflexive = λ w d. d; transitive = λ u v w h k d. k (h d) }

  module _ (subject : TokenSubject) (family_id : String) (w : World U T R) where
    abbrev jti : String
    jti = p.random_uuid w.drawn

    abbrev at : ℕ
    at = p.clock w.reads

    abbrev deletion : Tokens.Transaction
    deletion = Tokens.deletes subject.tenant_id subject.id

    abbrev creation : ℕ → Tokens.Transaction
    creation expires_at =
        Tokens.creates subject.tenant_id (stored_token p subject family_id jti at expires_at)

    abbrev signed_world : World U T R
    signed_world = record w { reads = w.reads + 1; drawn = w.drawn + 1 }

    store-drawn : w.drawn + 1 ≤ (store p subject family_id jti at signed_world).1.drawn
    store-drawn =
        (store-Moves p subject family_id jti at Drawn-order (step-drawn p deletion)
            (λ expires_at. step-drawn p (creation expires_at))).moved
          signed_world

    store-Ended : IsUnrepeated w → Ended w → Ended (store p subject family_id jti at signed_world).1
    store-Ended f d =
        (store-Moves p subject family_id jti at StillEnded-order (λ v. step-Ended deletion v tt)
            (λ expires_at v.
              step-Ended (creation expires_at) v (f subject w.drawn at (omega arith)))).moved
          signed_world d

    issue-StaysEnded : StaysEnded w (issue p subject family_id w).1
    issue-StaysEnded =
        rw (issue-store p subject family_id w) (omega (arith, store-drawn), store-Ended)

  pub StaysEnded-Covers : (current : Option String) → Covers p current StaysEnded
  StaysEnded-Covers current = record {
    order = StaysEnded-order;
    idle = λ v w i. leaves-StaysEnded v w (i.1, i.2);
    creates = λ new w.
        leaves-StaysEnded w (Users.step p (creates current new) w)
          (step-LeavesTokens p (creates current new) w);
    marks = λ id w.
        leaves-StaysEnded w (Users.step p (marks current id) w)
          (step-LeavesTokens p (marks current id) w);
    updates = λ id actor dto w.
        leaves-StaysEnded w (update p current id dto actor w).1
          (update-LeavesTokens p current id actor dto w);
    tokens = λ x w n. (step-drawn p x w, λ f. step-Ended x w (StoresNone-IsFresh x n));
    issues = issue-StaysEnded;
  }
