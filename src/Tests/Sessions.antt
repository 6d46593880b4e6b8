-- ===== src/Tests/Sessions.antt =====
-- Log-ins and refreshes that are refused, on the platform in memory.
use hotel_crm.Prelude.{◌+◌, ◌<◌, ◌≤◌, ◌≡◌, refl, arith, true, false, some, [], ◌∷◌}
use hotel_crm.Schema.{UserRow}
use hotel_crm.Platform.Results.{ok, err, too_many_requests, unauthorized}
use hotel_crm.Tenant.{setting_of, with_tenant, with_current_tenant, require_tenant_id}
use hotel_crm.Users.Rows.{resolve}
use hotel_crm.Users.Repository.{
  user_policy, has_email, has_id, find_by_email_with_secret, mark_logged_in, update_users,
}
use hotel_crm.RefreshToken.Repository.{
  claim, create, find_by_hash, insert, stamp, delete_expired_for_user,
}
use hotel_crm.RefreshToken.Service.{
  issue, consume, verify, try_verify, or_invalid, unexpired, settle, hash, sign_refresh,
  expires_at_of, milliseconds, start_family, refresh_claims,
}
use hotel_crm.RefreshToken.Effects.{token_rows}
use hotel_crm.RefreshToken.Revoked.{AllRevoked}
use hotel_crm.RefreshToken.Reuse.{in_family}
use hotel_crm.LoginThrottle.Counter.{
  key_for, increment, increment_with_ttl, start_lockout, reset_ttl, count_attempts, get_count,
  clear, delete,
}
use hotel_crm.LoginThrottle.Service.{
  record_failure, lock_out, locked_message, assert_not_locked, refuse_locked, reset,
}
use hotel_crm.LoginThrottle.Lockout.{failures}
use hotel_crm.Auth.Sessions.{
  LoginDto, invalid_credentials, identity_of, login, refresh, LoginResult, access_claims,
  profile_of, authenticate, accept, issue_session, sign_access_token,
}
use hotel_crm.Auth.Credentials.{login-ok}
use hotel_crm.Auth.Login.{attempts, login-locked, login-rejected, refresh-closed}
use hotel_crm.Tests.Worlds.{subject, start, ann, bob, cem, token, issued, consumed}
use hotel_crm.Memory.Server.{Memory, Signed, memory}

abbrev wrong : LoginDto
wrong = record { email = "ann@hotel"; password = "guess" }

pub tenant : resolve memory (some "t") ≡ ok ("t", some "t")
unfolding resolve setting_of
tenant = refl

abbrev pub right : LoginDto
right = record { email = "ann@hotel"; password = "secret" }

abbrev guessed : Memory
guessed = (failures memory (identity_of memory "t" wrong "ip") 3 start).1

too_many : 3 ≤ attempts memory (some "t") (some "t") "t" "ip" right guessed tenant
unfolding failures record_failure increment increment_with_ttl lock_out key_for start_lockout
    reset_ttl
too_many = omega arith

login-locked_example :
    login memory (some "t") right "ip" guessed
    ≡ (err (too_many_requests locked_message), record guessed { reads = guessed.reads + 1 })
login-locked_example =
    login-locked memory (some "t") (some "t") "t" "ip" right guessed tenant too_many

few : attempts memory (some "t") (some "t") "t" "ip" wrong start tenant < 3
unfolding key_for
few = omega arith

wrong_password :
    (user : UserRow)
    → memory.users.find_first (user_policy (some "t")) (has_email "ann@hotel") start.users
      ≡ some user
    → user.is_active ≡ true
    → memory.bcrypt_compare "guess" user.password_hash ≡ false
wrong_password user h a = let e : ann ≡ user = ground arith in rw (← e)

login-rejected_example :
    ((login memory (some "t") wrong "ip" start).0 ≡ err (unauthorized invalid_credentials))
    × ((login memory (some "t") wrong "ip" start).1
        ≡ (record_failure memory
            (identity_of memory "t" wrong "ip")
            (record start { reads = 1 })).1)
login-rejected_example =
    login-rejected memory (some "t") (some "t") "t" "ip" wrong start tenant few wrong_password

-- Ann is deactivated after the token was issued.
abbrev left : Memory
left = record issued { users = record ann { is_active = false } ∷ bob ∷ cem ∷ [] }

abbrev spent : Memory
spent = (consume memory token left).1

consume_run : consume memory token left ≡ (ok consumed, spent)
unfolding issue sign_refresh hash expires_at_of milliseconds delete_expired_for_user create insert
    with_tenant setting_of consume verify try_verify or_invalid find_by_hash unexpired claim stamp
    settle
consume_run = refl

token_setting : setting_of memory "t" ≡ ok (some "t")
unfolding setting_of
token_setting = refl

gone :
    (user : UserRow)
    → memory.users.find_first (user_policy (some "t")) (has_id "a") spent.users ≡ some user
    → user.is_active ≡ false
unfolding issue sign_refresh hash expires_at_of milliseconds delete_expired_for_user create insert
    with_tenant setting_of consume verify try_verify or_invalid find_by_hash unexpired claim stamp
    settle
gone user h = ground arith

refresh-closed_example :
    ((refresh memory token left).0 ≡ err (unauthorized "Invalid refresh token"))
    × AllRevoked (in_family (some "t") "f") (token_rows memory (refresh memory token left).1)
refresh-closed_example =
    refresh-closed memory token left spent consumed (some "t") "a" consume_run token_setting refl
      gone

abbrev pub session : LoginResult Signed
session = record {
  tokens = record {
    access_token = record { secret = "access-secret"; exp = 102; claims = access_claims subject };
    refresh_token = record {
      secret = "refresh-secret";
      exp = 103;
      claims = refresh_claims subject "xu";
    };
  };
  user = profile_of ann;
}

abbrev pub logged_in_world : Memory
logged_in_world = (login memory (some "t") right "ip" start).1

pub login_run : login memory (some "t") right "ip" start ≡ (ok session, logged_in_world)
unfolding login require_tenant_id assert_not_locked count_attempts get_count refuse_locked
    find_by_email_with_secret with_current_tenant with_tenant setting_of authenticate accept reset
    clear delete mark_logged_in update_users start_family issue_session sign_access_token issue
    sign_refresh hash expires_at_of milliseconds delete_expired_for_user create insert key_for
login_run = refl

login-ok_example :
    (attempts memory (some "t") (some "t") "t" "ip" right start tenant < 3)
    × (user : UserRow) × (memory.users.find_first
          (user_policy (some "t"))
          (has_email "ann@hotel")
          start.users
        ≡ some user)
    × (user.is_active ≡ true)
    × (memory.bcrypt_compare "secret" user.password_hash ≡ true)
    × (session.user ≡ profile_of user)
login-ok_example =
    login-ok memory (some "t") (some "t") "t" "ip" right start tenant session logged_in_world
      login_run
