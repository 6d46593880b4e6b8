-- ===== src/Api/Once.antt =====
-- A refresh token is good for one request.
use hotel_crm.Prelude.{
  ℕ, ◌+◌, ◌≤◌, ◌≡◌, ◌≢◌, refl, sym, ◌∙◌, ap, subst, arith, String, none, List, ◌∷◌, All-of_at,
  All-at, str_eq_refl,
}
use hotel_crm.Platform.{Platform, World}
use hotel_crm.Platform.Moves.{Moves, >>=-Moves}
use hotel_crm.Platform.Results.{Outcome, ok, err, Action, pure, ◌>>=◌, >>=-ok}
use hotel_crm.Tenant.{tenant_of_header}
use hotel_crm.Auth.Guards.{Passport, activate, jwt_auth_guard, tenant_guard, permissions_guard}
use hotel_crm.Auth.Sessions.{TokenPair, refresh, renew}
use hotel_crm.Users.Types.{PublicUser}
use hotel_crm.Users.Repository.{find_by_id_in_tenant}
use hotel_crm.RefreshToken.Repository.{ConsumedRefreshToken, has_hash}
use hotel_crm.RefreshToken.Revoked.{AllRevoked}
use hotel_crm.RefreshToken.Service.{consume, hash}
use hotel_crm.RefreshToken.Effects.{token_rows}
use hotel_crm.RefreshToken.Unique.{Unique}
use hotel_crm.RefreshToken.Consume.{consume-IsUse}
use hotel_crm.Http.Envelope.{Payload, SuccessResponse, plain, intercept}
use hotel_crm.Http.Errors.{ErrorResponse, catch}
use hotel_crm.Api.Routes.{refresh_session, route_of}
use hotel_crm.Api.Handlers.{Value, Pipes, handle, pair}
use hotel_crm.Api.Pipeline.{Incoming, Reply, success, failure, serve, respond, reply}
use hotel_crm.Api.Guarded.{request_id_lem}
use hotel_crm.Api.Tokens.{consume-Moves}
use hotel_crm.Api.Logins.{renew-Moves, find_by_id_in_tenant-Moves}
use hotel_crm.Api.Moved.{request_id_of-Moves, reply-Moves}
use hotel_crm.Api.Ended.{IsUnrepeated, Ended, StaysEnded, StaysEnded-Covers, StaysEnded-order}
use hotel_crm.Api.Kept.{served-Unique}
use hotel_crm.Api.Served.{Call, tenant_of, served, served-moved}

module _ {U T R K D : Type 0} (p : Platform U T R K) (passport : Passport p.jwt)
    (pipes : Pipes K D) where
  abbrev refreshed : K → Action (World U T R) (Payload (Value K) PublicUser)
  refreshed raw = refresh p raw >>= λ tokens. pure (plain (pair tokens))

  module _ (incoming : Incoming K D) (raw : K)
      (e : pipes.token_body incoming.content ≡ ok raw) where
    serve_refresh_lem :
        (w : World U T R)
        → serve p passport pipes refresh_session incoming w
          ≡ refreshed raw (record w { reads = w.reads + 1 })
    unfolding serve activate jwt_auth_guard tenant_guard permissions_guard route_of handle
    serve_refresh_lem w = rw e refl

  -- What `refresh` does after the token is consumed.
  abbrev rest : ConsumedRefreshToken → Action (World U T R) (TokenPair K)
  rest c = find_by_id_in_tenant p c.user_id c.tenant_id >>= renew p c

  consumed-ok :
      (raw : K) (a : Payload (Value K) PublicUser) (w w' : World U T R)
      → refreshed raw w ≡ (ok a, w')
      → (c : ConsumedRefreshToken) × (v : World U T R) × (consume p raw w ≡ (ok c, v))
        × (w' ≡ (rest c v).1)
  unfolding refresh
  consumed-ok raw a w w' h =
      let (tokens, u, f, g) = >>=-ok (refresh p raw) _ w w' a h in
      let (c, v, k, l) = >>=-ok (consume p raw) rest w u tokens f in
      (c, v, k, sym (ap (λ o. o.1) l ∙ ap (λ o. o.1) g))

  -- After a successful refresh no row with the hash of its token is live, if no token repeats it.
  refreshed-Ended :
      (raw : K) (a : Payload (Value K) PublicUser) (w w' : World U T R)
      → Unique (token_rows p w)
      → IsUnrepeated p (hash p raw) w
      → refreshed raw w ≡ (ok a, w')
      → Ended p (hash p raw) w'
  refreshed-Ended raw a w w' u f h =
      let covers = StaysEnded-Covers p (hash p raw) none in
      let (c, v, k, same) = consumed-ok raw a w w' h in
      let (at, first) = consume-IsUse p raw w v c u k in
      let drawn : w.drawn ≤ v.drawn =
        subst (λ o. w.drawn ≤ o.1.drawn) k ((consume-Moves p covers raw).moved w).0 in
      let later : Moves (StaysEnded p (hash p raw)) (rest c) =
        >>=-Moves covers.order (find_by_id_in_tenant-Moves p covers c.user_id c.tenant_id)
          (renew-Moves p covers c) in
      rw same (
        (later.moved v).1 (λ subject n at l. f subject n at (omega (arith, l, drawn)))
          first.revoked)

  -- A token whose rows are revoked is refused.
  refreshed-refused :
      (raw : K) (a : Payload (Value K) PublicUser) (w w' : World U T R)
      → Unique (token_rows p w)
      → Ended p (hash p raw) w
      → refreshed raw w ≢ (ok a, w')
  refreshed-refused raw a w w' u d h =
      let (c, v, k, same) = consumed-ok raw a w w' h in
      let (at, first) = consume-IsUse p raw w v c u k in
      ground
        (arith, All-at _ _ d first.listed, first.hashed, first.was_live, str_eq_refl (hash p raw))

  abbrev answered :
      String
      → Outcome (Payload (Value K) PublicUser) × World U T R
      → Outcome (Reply K) × World U T R
  answered = respond p passport pipes refresh_session

  answered-tokens :
      (id : String) (o : Outcome (Payload (Value K) PublicUser) × World U T R)
      → (answered id o).1.tokens ≡ o.1.tokens
  unfolding respond intercept catch
  answered-tokens id (ok a, w) = refl
  answered-tokens id (err x, w) = refl

  answered-success :
      (id : String) (o : Outcome (Payload (Value K) PublicUser) × World U T R) (status : ℕ)
      (header : String) (r : SuccessResponse (Value K) PublicUser)
      → (answered id o).0 ≡ ok (success status header r)
      → (a : Payload (Value K) PublicUser) × (o ≡ (ok a, o.1))
  unfolding respond intercept catch
  answered-success id (ok a, w) status header r h = (a, refl)
  answered-success id (err x, w) status header r h = absurd (ground arith)

  answered-failure :
      (id : String) (o : Outcome (Payload (Value K) PublicUser) × World U T R)
      → ((a : Payload (Value K) PublicUser) → o ≢ (ok a, o.1))
      → (f : ErrorResponse) × ((answered id o).0 ≡ ok (failure f))
  unfolding respond intercept catch
  answered-failure id (ok a, w) h = absurd (h a refl)
  answered-failure id (err x, w) h = (_, refl)

  module _ (incoming : Incoming K D) (raw : K)
      (e : pipes.token_body incoming.content ≡ ok raw) where
    -- The request as an answer to what `refresh` does.
    reply_refresh_lem :
        (w : World U T R)
        → (id : String) × (v : World U T R) × (reply p passport pipes refresh_session incoming w
            ≡ answered id (refreshed raw v))
          × (v.tokens ≡ w.tokens)
          × (w.drawn ≤ v.drawn)
    unfolding reply
    reply_refresh_lem w =
        let (id, v, f, (_, tokens, _), _, _) =
          request_id_lem p passport pipes incoming.request_id w in
        let covers = StaysEnded-Covers p (hash p raw) (tenant_of_header incoming.tenant_id) in
        let moved =
          (request_id_of-Moves p passport pipes refresh_session incoming covers
              incoming.request_id).moved
            w in
        (
          id,
          record v { reads = v.reads + 1 },
          rw (f, serve_refresh_lem incoming raw e v) refl,
          tokens,
          subst (λ o. w.drawn ≤ o.1.drawn) f moved.0,
        )

    -- After a refresh that succeeds the rows with the hash of the token are revoked, if no token
    -- repeats it.
    reply-Ended :
        (w : World U T R) (status : ℕ) (header : String) (r : SuccessResponse (Value K) PublicUser)
        → Unique (token_rows p w)
        → IsUnrepeated p (hash p raw) w
        → (reply p passport pipes refresh_session incoming w).0 ≡ ok (success status header r)
        → Ended p (hash p raw) (reply p passport pipes refresh_session incoming w).1
    reply-Ended w status header r u f h =
        let (id, v, g, tokens, drawn) = reply_refresh_lem w in
        let (a, k) =
          answered-success id (refreshed raw v) status header r (sym (ap (λ o. o.0) g) ∙ h) in
        let ended =
          refreshed-Ended raw a v (refreshed raw v).1
            (subst (λ t. Unique (p.tokens.rows t)) (sym tokens) u)
            (λ subject n at l. f subject n at (omega (arith, l, drawn))) k in
        rw g (
          subst (λ t. AllRevoked (has_hash (hash p raw)) (p.tokens.rows t))
            (sym (answered-tokens id (refreshed raw v))) ended)

    -- A refresh is refused where the rows with the hash of the token are revoked.
    pub reply-refused :
        (w : World U T R)
        → Unique (token_rows p w)
        → Ended p (hash p raw) w
        → (f : ErrorResponse) × ((reply p passport pipes refresh_session incoming w).0
            ≡ ok (failure f))
    reply-refused w u d =
        let (id, v, g, tokens, drawn) = reply_refresh_lem w in
        rw g (
          answered-failure id (refreshed raw v) λ a.
            refreshed-refused raw a v (refreshed raw v).1
              (subst (λ t. Unique (p.tokens.rows t)) (sym tokens) u)
              (subst (λ t. Ended p (hash p raw) (record w { tokens = t })) (sym tokens) d))

  -- The rows with a hash that are revoked stay so over requests.
  pub served-Ended :
      (h : String) (calls : List (Call K D)) (w : World U T R)
      → IsUnrepeated p h w
      → Ended p h w
      → Ended p h (served p passport pipes calls w)
  served-Ended h calls w f d =
      (served-moved p passport pipes calls w (StaysEnded-order p h)
          (All-of_at _ _ λ call m. StaysEnded-Covers p h (tenant_of call))).1
        f d

  -- A refresh token that a request has exchanged is refused to every later request, whatever
  -- requests come between, if the rows had unique ids and hashes and no refresh token that is signed
  -- later has its hash.
  pub refresh_once :
      (first second : Incoming K D) (raw : K) (calls : List (Call K D)) (w : World U T R)
      (status : ℕ) (header : String) (r : SuccessResponse (Value K) PublicUser)
      → pipes.token_body first.content ≡ ok raw
      → pipes.token_body second.content ≡ ok raw
      → Unique (token_rows p w)
      → IsUnrepeated p (hash p raw) w
      → (reply p passport pipes refresh_session first w).0 ≡ ok (success status header r)
      → (f : ErrorResponse) × ((reply p passport pipes refresh_session second
            (served p passport pipes calls (reply p passport pipes refresh_session first w).1)).0
          ≡ ok (failure f))
  unfolding served
  refresh_once first second raw calls w status header r e g u f h =
      let call : Call K D = record { endpoint = refresh_session; incoming = first } in
      let v = (reply p passport pipes refresh_session first w).1 in
      let drawn =
        ((reply-Moves p passport pipes refresh_session first
            (StaysEnded-Covers p (hash p raw) (tenant_of call))).moved
          w).0 in
      reply-refused second raw g (served p passport pipes calls v)
        (served-Unique p passport pipes (call ∷ calls) w u)
        (served-Ended (hash p raw) calls v
          (λ subject n at l. f subject n at (omega (arith, l, drawn)))
          (reply-Ended first raw e w status header r u f h))
