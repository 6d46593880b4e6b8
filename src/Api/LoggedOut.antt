-- ===== src/Api/LoggedOut.antt =====
-- A session that a request has ended stays ended.
use hotel_crm.Prelude.{
  ◌+◌, ◌≡◌, refl, sym, subst, arith, String, true, Option, some, List, ◌∷◌, Memᴰ, inl, inr,
}
use hotel_crm.Schema.{TokenRow}
use hotel_crm.Platform.{Platform, World}
use hotel_crm.Platform.Results.{ok, Action, Outcome-cases, pure, ◌>>=◌}
use hotel_crm.Platform.JsonWebToken.{Claims}
use hotel_crm.Tenant.{setting_of}
use hotel_crm.Auth.Guards.{Passport, activate, jwt_auth_guard, tenant_guard, permissions_guard}
use hotel_crm.Auth.Sessions.{logout}
use hotel_crm.Users.Types.{PublicUser}
use hotel_crm.RefreshToken.Repository.{policy, has_hash}
use hotel_crm.RefreshToken.Service.{revoke_session, hash}
use hotel_crm.RefreshToken.Effects.{token_rows}
use hotel_crm.RefreshToken.Unique.{Unique}
use hotel_crm.RefreshToken.Revoked.{AllRevoked}
use hotel_crm.RefreshToken.Reuse.{verified}
use hotel_crm.RefreshToken.LogOut.{revoke_session-Ended}
use hotel_crm.Http.Envelope.{Payload, plain, intercept}
use hotel_crm.Http.Errors.{ErrorResponse, catch}
use hotel_crm.Api.Routes.{log_out, refresh_session, route_of}
use hotel_crm.Api.Handlers.{Value, Pipes, handle, nothing}
use hotel_crm.Api.Pipeline.{Incoming, failure, serve, respond, reply}
use hotel_crm.Api.Guarded.{request_id_lem}
use hotel_crm.Api.Ended.{IsUnrepeated, Ended, StaysEnded-Covers}
use hotel_crm.Api.Moved.{reply-Moves}
use hotel_crm.Api.Kept.{served-Unique}
use hotel_crm.Api.Once.{reply-refused, served-Ended}
use hotel_crm.Api.Served.{Call, tenant_of, served}

module _ {U T R K D : Type 0} (p : Platform U T R K) (passport : Passport p.jwt)
    (pipes : Pipes K D) where
  abbrev logged_out : K → Action (World U T R) (Payload (Value K) PublicUser)
  logged_out raw = logout p raw >>= λ _. pure (plain nothing)

  logged_out-tokens :
      (raw : K) (id : String) (w : World U T R)
      → (respond p passport pipes log_out id (logged_out raw w)).1.tokens
        ≡ (revoke_session p raw w).1.tokens
  unfolding respond intercept catch logout
  logged_out-tokens raw id w = elim (Outcome-cases (revoke_session p raw w).0) [
    | inl (a, f) ↦ rw f refl
    | inr (x, f) ↦ rw f refl
  ]

  module _ (incoming : Incoming K D) (raw : K)
      (e : pipes.token_body incoming.content ≡ ok raw) where
    serve_log_out_lem :
        (w : World U T R)
        → serve p passport pipes log_out incoming w
          ≡ logged_out raw (record w { reads = w.reads + 1 })
    unfolding serve activate jwt_auth_guard tenant_guard permissions_guard route_of handle
    serve_log_out_lem w = rw e refl

    -- The rows of the session's tokens are revoked when the request is over.
    reply-Ended :
        (w : World U T R) (c : Claims) (s : Option String) (r r' : TokenRow)
        → verified p raw (record w { reads = w.reads + 1 }) ≡ some c
        → setting_of p c.tenant_id ≡ ok s
        → p.tokens.find_first (policy s) (has_hash (hash p raw)) w.tokens ≡ some r
        → Memᴰ r' (token_rows p w)
        → policy s r' ≡ true
        → r'.family_id ≡ r.family_id
        → Unique (token_rows p w)
        → Ended p r'.token_hash (reply p passport pipes log_out incoming w).1
    unfolding reply
    reply-Ended w c s r r' v t g m a same u =
        let (id, x, f, (_, tokens, _), reads, _) =
          request_id_lem p passport pipes incoming.request_id w in
        let at : World U T R = record x { reads = x.reads + 1 } in
        rw (f, serve_log_out_lem x)
          (subst (λ q. AllRevoked (has_hash r'.token_hash) (p.tokens.rows q))
            (sym (logged_out-tokens raw id at))
            (revoke_session-Ended p raw at c s r (rw reads v) t (rw tokens g) r' (rw tokens u)
              (rw tokens m) a same))

  -- After a log-out whose token verifies and is stored, no request exchanges a refresh token of the
  -- session, whatever requests come between: one whose row was there under the same tenant and in
  -- the same family. The rows had unique ids and hashes, and no refresh token that is signed later
  -- has its hash.
  pub log_out_final :
      (first second : Incoming K D) (raw other : K) (calls : List (Call K D)) (w : World U T R)
      (c : Claims) (s : Option String) (r r' : TokenRow)
      → pipes.token_body first.content ≡ ok raw
      → pipes.token_body second.content ≡ ok other
      → verified p raw (record w { reads = w.reads + 1 }) ≡ some c
      → setting_of p c.tenant_id ≡ ok s
      → p.tokens.find_first (policy s) (has_hash (hash p raw)) w.tokens ≡ some r
      → Memᴰ r' (token_rows p w)
      → r'.token_hash ≡ hash p other
      → policy s r' ≡ true
      → r'.family_id ≡ r.family_id
      → Unique (token_rows p w)
      → IsUnrepeated p (hash p other) w
      → (f : ErrorResponse) × ((reply p passport pipes refresh_session second
            (served p passport pipes calls (reply p passport pipes log_out first w).1)).0
          ≡ ok (failure f))
  unfolding served
  log_out_final first second raw other calls w c s r r' e e' v t g m hashed a same u f =
      let call : Call K D = record { endpoint = log_out; incoming = first } in
      let after = (reply p passport pipes log_out first w).1 in
      let drawn =
        ((reply-Moves p passport pipes log_out first
            (StaysEnded-Covers p (hash p other) (tenant_of call))).moved
          w).0 in
      reply-refused p passport pipes second other e' (served p passport pipes calls after)
        (served-Unique p passport pipes (call ∷ calls) w u)
        (served-Ended p passport pipes (hash p other) calls after
          (λ subject n at l. f subject n at (omega (arith, l, drawn)))
          (subst (λ h. Ended p h after) hashed
            (reply-Ended first raw e w c s r r' v t g m a same u)))
