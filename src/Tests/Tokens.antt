-- ===== src/Tests/Tokens.antt =====
-- Refresh tokens that are issued, used, used again and revoked.
use hotel_crm.Prelude.{
  Option, ◌≡◌, ◌≢◌, ◌+◌, ◌<◌, refl, sym, ◌∙◌, none, ap, str_eq, arith, String, some, List, [], ◌∷◌,
  All, keep,
}
use mathlib.Core.Option
use hotel_crm.Platform.Results.{ok, err, unauthorized}
use hotel_crm.Tenant.{setting_of, with_tenant}
use hotel_crm.RefreshToken.Repository.{
  policy, revoke_at, NewRefreshToken, has_hash, claim, create, find_by_hash, insert, stamp,
  delete_expired_for_user,
}
use hotel_crm.RefreshToken.Service.{
  issue, consume, verify, try_verify, or_invalid, unexpired, settle, hash, sign_refresh,
  expires_at_of, milliseconds, revoke_session, invalid_refresh_token, refresh_claims,
}
use hotel_crm.RefreshToken.Effects.{
  setting, Transaction, creates, claims, revokes, deletes, token_rows, step, run,
}
use hotel_crm.RefreshToken.Unique.{Unique}
use hotel_crm.RefreshToken.Once.{consume_once}
use hotel_crm.RefreshToken.Revoked.{AllRevoked}
use hotel_crm.RefreshToken.Separate.{consume-access}
use hotel_crm.Auth.Sessions.{access_claims}
use hotel_crm.RefreshToken.Reuse.{verified, has_id, in_family, consume-reuse}
use hotel_crm.RefreshToken.Statements.{Does, step-Does}
use hotel_crm.RefreshToken.Ending.{Ends, revoke_session-Ends}
use hotel_crm.Platform.JsonWebToken.{Claims}
use hotel_crm.RefreshToken.RoundTrip.{consume-issue}
use hotel_crm.RefreshToken.Isolation.{in_tenant, run-isolated}
use hotel_crm.RefreshToken.Issue.{stored_row}
use hotel_crm.Schema.{TokenRow}
use hotel_crm.Tests.Worlds.{start, subject, token, issued, used, consumed}
use hotel_crm.Platform.{Platform}
use hotel_crm.Platform.RedisServer.{Entry}
use hotel_crm.Schema.{UserRow}
use hotel_crm.Memory.Server.{Signed, settings, memory}

abbrev other_new : NewRefreshToken
other_new = record { user_id = "b"; family_id = "g"; token_hash = "h"; expires_at = 9000 }

abbrev others : List Transaction
others = creates "t" other_new ∷ revokes "s" "f" ∷ deletes "t" "b" ∷ []

abbrev strangers : List Transaction
strangers = revokes "s" "f" ∷ claims "s" "xu" ∷ []

abbrev unspent : TokenRow
unspent = stored_row memory subject "f" start

abbrev spent : TokenRow
spent = revoke_at 5 unspent

issue_run : issue memory subject "f" start ≡ (ok token, issued)
unfolding issue sign_refresh hash expires_at_of milliseconds delete_expired_for_user create insert
    with_tenant setting_of
issue_run = refl

consume_run : consume memory token issued ≡ (ok consumed, used)
unfolding issue sign_refresh hash expires_at_of milliseconds delete_expired_for_user create insert
    with_tenant setting_of consume verify try_verify or_invalid find_by_hash unexpired claim stamp
    settle
consume_run = refl

issued-Unique : Unique (token_rows memory issued)
unfolding issue sign_refresh hash expires_at_of milliseconds delete_expired_for_user create insert
    with_tenant setting_of
issued-Unique = (tt, tt)

fresh : "h" ≢ hash memory token
unfolding sign_refresh hash
fresh e = ground (arith, ap (λ s. str_eq s "u") e)

consume_once_example : consume memory token (run memory others used) ≢ (ok consumed, used)
consume_once_example =
    consume_once memory token others issued used used consumed consumed issued-Unique
      (fresh, (tt, (tt, tt))) consume_run

used_claims : verified memory token used ≡ some (refresh_claims subject "u")
unfolding issue sign_refresh hash expires_at_of milliseconds delete_expired_for_user create insert
    with_tenant setting_of consume verify try_verify or_invalid find_by_hash unexpired claim stamp
    settle
used_claims = refl

token_setting : setting_of memory "t" ≡ ok (some "t")
unfolding setting_of
token_setting = refl

used_row :
    (memory.tokens.find_first (policy (some "t")) (has_hash (hash memory token)) used.tokens)
    ≡ some spent
unfolding issue sign_refresh hash expires_at_of milliseconds delete_expired_for_user create insert
    with_tenant setting_of consume verify try_verify or_invalid find_by_hash unexpired claim stamp
    settle
used_row = refl

used_time : memory.clock (used.reads + 1) < spent.expires_at
unfolding issue sign_refresh hash expires_at_of milliseconds delete_expired_for_user create insert
    with_tenant setting_of consume verify try_verify or_invalid find_by_hash unexpired claim stamp
    settle
used_time = omega arith

used_revoked : AllRevoked (has_id (some "t") "xu") (token_rows memory used)
unfolding issue sign_refresh hash expires_at_of milliseconds delete_expired_for_user create insert
    with_tenant setting_of consume verify try_verify or_invalid find_by_hash unexpired claim stamp
    settle
used_revoked = (refl, tt)

consume-reuse_example :
    ((consume memory token used).0 ≡ err (unauthorized invalid_refresh_token))
    × AllRevoked (in_family (some "t") "f") (token_rows memory (consume memory token used).1)
consume-reuse_example =
    consume-reuse memory token used (refresh_claims subject "u") (some "t") spent used_claims
      token_setting used_row used_time used_revoked

named : ◌≢◌ {A = String} "t" ""
named e = ground (arith, ap (λ s. str_eq s "t") e)

first_time : memory.clock issued.reads < 100000
unfolding issue sign_refresh hash expires_at_of milliseconds delete_expired_for_user create insert
    with_tenant setting_of
first_time = omega arith

second_time : memory.clock (issued.reads + 1) < 100000
unfolding issue sign_refresh hash expires_at_of milliseconds delete_expired_for_user create insert
    with_tenant setting_of
second_time = omega arith

consume-issue_example : (consume memory token issued).0 ≡ ok consumed
consume-issue_example =
    consume-issue memory subject "f" token start issued issued named refl tt issue_run refl
      first_time second_time

elsewhere : All (λ x. setting memory x ≢ some "t") strangers
unfolding setting_of
elsewhere = (
  λ e. ground (arith, ap (λ o. str_eq (Option.get_or o "") "t") e),
  (λ e. ground (arith, ap (λ o. str_eq (Option.get_or o "") "t") e), tt),
)

run-isolated_example :
    keep (in_tenant "t") (token_rows memory (run memory strangers issued))
    ≡ keep (in_tenant "t") (token_rows memory issued)
run-isolated_example = run-isolated memory "t" strangers issued elsewhere

step-Does_example : Does memory (claims "t" "xu") "t" issued (step memory (claims "t" "xu") issued)
step-Does_example = step-Does memory issued (claims "t" "xu") "t" named refl

issued_claims : verified memory token issued ≡ some (refresh_claims subject "u")
unfolding issue sign_refresh hash expires_at_of milliseconds delete_expired_for_user create insert
    with_tenant setting_of
issued_claims = refl

tenant_or_none : Option Claims → String
tenant_or_none none = ""
tenant_or_none (some c) = c.tenant_id

its_tenant : (c : Claims) → verified memory token issued ≡ some c → c.tenant_id ≡ "t"
unfolding tenant_or_none
its_tenant c e = ap tenant_or_none (sym e ∙ issued_claims)

its_uuid :
    (c : Claims)
    → verified memory token issued ≡ some c
    → (c.tenant_id ≢ "") × ((u : String) × (memory.to_uuid c.tenant_id ≡ ok u))
its_uuid c e = rw (its_tenant c e) (named, ("t", refl))

revoke_session-Ends_example :
    ((revoke_session memory token issued).0 ≡ ok tt)
    × Ends memory token issued (revoke_session memory token issued).1
revoke_session-Ends_example = revoke_session-Ends memory token issued its_uuid

-- The platform with one secret for both kinds of token.
abbrev shared : Platform (List UserRow) (List TokenRow) (String → Option Entry) Signed
shared = record memory { env = record settings { jwt_refresh_secret = "access-secret" } }

consume-access_example :
    consume shared (shared.jwt.sign "access-secret" "24h" 0 (access_claims subject)) issued
    ≡ (err (unauthorized invalid_refresh_token), record issued { reads = issued.reads + 1 })
consume-access_example = consume-access shared subject "24h" 0 issued refl
