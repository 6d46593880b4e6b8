-- ===== src/Api/Steps.antt =====
-- Relations that hold across every single transaction cover requests.
use hotel_crm.Prelude.{ℕ, ◌+◌, ◌≡◌, refl, ◌∙◌, arith, String, Option, none, some, not, zero, suc}
use hotel_crm.Platform.{Platform, World}
use hotel_crm.Platform.Results.{Action, pure, ◌>>=◌, ◌>>◌}
use hotel_crm.Platform.Moves.{IsPreorder, Moves, >>=-Moves, pure-Moves, throw-Moves, if-Moves}
use hotel_crm.Users.Types.{PublicUser, UpdateUserDto}
use hotel_crm.Users.Repository
use hotel_crm.Users.Repository.{count_active_admins}
use hotel_crm.Users.Service.{
  update, update_record, or_not_found, assert_not_self_lockout, assert_an_admin_remains,
  enough_admins, drops_admin,
}
use hotel_crm.Users.Effects as Users
use hotel_crm.Users.Effects.{current_setting, setting}
use hotel_crm.RefreshToken.Effects as Tokens
use hotel_crm.RefreshToken.Idle.{step-users}
use hotel_crm.RefreshToken.Repository.{NewRefreshToken, create, delete_expired_for_user}
use hotel_crm.RefreshToken.Service.{
  TokenSubject, issue, expires_at_of, milliseconds, sign_refresh, refresh_claims, hash,
}
use hotel_crm.Api.Covers.{Idle, Covers}

-- What a relation has across each transaction on users under the setting of a tenant.
pub record UserSteps {U T R K : Type 0} (p : Platform U T R K) (current : Option String)
    (Rel : World U T R → World U T R → Type 0) : Type 0 where
  pub order : IsPreorder Rel
  pub idle : (v w : World U T R) → Idle v w → Rel v w
  pub users :
      (x : Users.Transaction) (w : World U T R)
      → setting p x ≡ current_setting p current
      → Rel w (Users.step p x w)

module _ {U T R K : Type 0} (p : Platform U T R K) {current : Option String}
    {Rel : World U T R → World U T R → Type 0} (steps : UserSteps p current Rel) where
  idle-Moves :
      {A : Type 0} {m : Action (World U T R) A} → ((w : World U T R) → Idle w (m w).1) → Moves Rel m
  idle-Moves h = record { moved = λ w. steps.idle w _ (h w) }

  find-Moves : (id : String) → Moves Rel (Repository.find_by_id p current id)
  unfolding Users.step
  find-Moves id = record { moved = λ w. steps.users (Users.finds current id) w refl }

  count-Moves : Moves Rel (count_active_admins p current)
  unfolding Users.step
  count-Moves = record { moved = λ w. steps.users (Users.counts current) w refl }

  or_not_found-Moves : (o : Option PublicUser) → Moves Rel (or_not_found p o)
  unfolding or_not_found
  or_not_found-Moves none = throw-Moves steps.order _
  or_not_found-Moves (some user) = pure-Moves steps.order user

  assert_not_self_lockout-Moves :
      (id actor : String) (dto : UpdateUserDto) (target : PublicUser)
      → Moves Rel (assert_not_self_lockout p id actor dto target)
  unfolding assert_not_self_lockout
  assert_not_self_lockout-Moves id actor dto target = idle-Moves λ w. ground arith

  enough_admins-Moves : (n : ℕ) → Moves Rel (enough_admins p n)
  unfolding enough_admins
  enough_admins-Moves n = idle-Moves λ w. ground arith

  assert_an_admin_remains-Moves :
      (dto : UpdateUserDto) (target : PublicUser)
      → Moves Rel (assert_an_admin_remains p current dto target)
  unfolding assert_an_admin_remains
  assert_an_admin_remains-Moves dto target =
      if-Moves steps.order (not (drops_admin dto target)) (pure-Moves steps.order tt)
        (>>=-Moves steps.order count-Moves enough_admins-Moves)

  pub update-Moves :
      (id actor : String) (dto : UpdateUserDto) → Moves Rel (update p current id dto actor)
  unfolding update Users.step
  update-Moves id actor dto = >>=-Moves steps.order (find-Moves id) λ found.
      >>=-Moves steps.order (or_not_found-Moves found) λ target.
        >>=-Moves steps.order (assert_not_self_lockout-Moves id actor dto target) λ _.
          >>=-Moves steps.order (assert_an_admin_remains-Moves dto target) λ _.
            >>=-Moves steps.order
              (record {
                moved = λ w. steps.users (Users.updates current id (update_record dto)) w refl;
              })
              or_not_found-Moves

-- Storing a token, from the time that it is signed.
module _ {U T R K : Type 0} (p : Platform U T R K) (subject : TokenSubject) (family_id jti : String)
    (at : ℕ) where
  abbrev pub signed : K
  signed = sign_refresh p at (refresh_claims subject jti)

  abbrev pub stored_token : ℕ → NewRefreshToken
  stored_token expires_at = record {
    user_id = subject.id;
    family_id = family_id;
    token_hash = hash p signed;
    expires_at = expires_at;
  }

  unfoldable pub store : Action (World U T R) K
  store = do
    delete_expired_for_user p subject.tenant_id subject.id
    expires_at ← expires_at_of p signed
    create p subject.tenant_id (stored_token expires_at)
    pure signed

  module _ {Rel : World U T R → World U T R → Type 0} (order : IsPreorder Rel)
      (deletes : (w : World U T R)
        → Rel w (Tokens.step p (Tokens.deletes subject.tenant_id subject.id) w))
      (creates : (expires_at : ℕ) (w : World U T R)
        → Rel w
            (Tokens.step p (Tokens.creates subject.tenant_id (stored_token expires_at)) w)) where
    milliseconds-Moves : (o : Option ℕ) → Moves Rel (milliseconds p o)
    unfolding milliseconds
    milliseconds-Moves none = throw-Moves order _
    milliseconds-Moves (some zero) = throw-Moves order _
    milliseconds-Moves (some (suc n)) = pure-Moves order _

    create-Moves :
        (expires_at : ℕ) → Moves Rel (create p subject.tenant_id (stored_token expires_at))
    unfolding Tokens.step
    create-Moves expires_at = record { moved = creates expires_at }

    delete-Moves : Moves Rel (delete_expired_for_user p subject.tenant_id subject.id)
    unfolding Tokens.step
    delete-Moves = record { moved = deletes }

    pub store-Moves : Moves Rel store
    unfolding store expires_at_of
    store-Moves = >>=-Moves order delete-Moves λ _.
        >>=-Moves order (milliseconds-Moves (p.jwt.decode_exp signed))
          λ expires_at. >>=-Moves order (create-Moves expires_at) λ _. pure-Moves order signed

module _ {U T R K : Type 0} (p : Platform U T R K) where
  -- `issue` signs at once and then stores.
  pub issue-store :
      (subject : TokenSubject) (family_id : String) (w : World U T R)
      → issue p subject family_id w
        ≡ store p subject family_id
            (p.random_uuid w.drawn)
            (p.clock w.reads)
            (record w { reads = w.reads + 1; drawn = w.drawn + 1 })
  unfolding issue store
  issue-store subject family_id w = refl

  SameUsers-order : IsPreorder {W = World U T R} (λ v w. w.users ≡ v.users)
  SameUsers-order = record { reflexive = λ w. refl; transitive = λ u v w h k. k ∙ h }

  pub issue-users :
      (subject : TokenSubject) (family_id : String) (w : World U T R)
      → (issue p subject family_id w).1.users ≡ w.users
  issue-users subject family_id w =
      let jti = p.random_uuid w.drawn in
      let at = p.clock w.reads in
      rw (issue-store subject family_id w) (
        (store-Moves p subject family_id jti at SameUsers-order
            (step-users p (Tokens.deletes subject.tenant_id subject.id))
            (λ expires_at. step-users p (
              Tokens.creates subject.tenant_id
                (stored_token p subject family_id jti at expires_at)))).moved
          (record w { reads = w.reads + 1; drawn = w.drawn + 1 }))

-- Relations that hold across every transaction, on tokens of any tenant.
module _ {U T R K : Type 0} (p : Platform U T R K) {current : Option String}
    {Rel : World U T R → World U T R → Type 0} (steps : UserSteps p current Rel)
    (tokens : (x : Tokens.Transaction) (w : World U T R) → Rel w (Tokens.step p x w)) where
  issue-moved :
      (subject : TokenSubject) (family_id : String) (w : World U T R)
      → Rel w (issue p subject family_id w).1
  issue-moved subject family_id w =
      let v : World U T R = record w { reads = w.reads + 1; drawn = w.drawn + 1 } in
      rw (issue-store p subject family_id w) (
        steps.order.transitive w v _ (steps.idle w v (refl, refl, omega arith)) (
          (store-Moves p subject family_id (p.random_uuid w.drawn) (p.clock w.reads) steps.order
              (tokens (Tokens.deletes subject.tenant_id subject.id))
              (λ expires_at. tokens (
                Tokens.creates subject.tenant_id (
                  stored_token p subject family_id (p.random_uuid w.drawn) (p.clock w.reads)
                    expires_at)))).moved
            v))

  pub all-Covers : Covers p current Rel
  all-Covers = record {
    order = steps.order;
    idle = steps.idle;
    creates = λ new w. steps.users (Users.creates current new) w refl;
    marks = λ id w. steps.users (Users.marks current id) w refl;
    updates = λ id actor dto. (update-Moves p steps id actor dto).moved;
    tokens = λ x w h. tokens x w;
    issues = issue-moved;
  }
