-- ===== src/Tests/Throttle.antt =====
-- Failed logins on the platform in memory, which locks an account after three.
use hotel_crm.Prelude.{
  ℕ, ◌+◌, ◌*◌, ◌<◌, ◌≤◌, ◌≡◌, ◌≢◌, refl, arith, ap, str_eq, none, ltb, if◌then◌else◌, IsColonFree,
  inl,
}
use hotel_crm.Platform.Results.{ok, err, too_many_requests}
use hotel_crm.Platform.RedisServer.{live}
use hotel_crm.LoginThrottle.Counter.{LoginAttemptIdentity, key_for, increment, increment_with_ttl}
use hotel_crm.LoginThrottle.Service.{
  assert_not_locked, record_failure, reset, lock_out, locked_message,
}
use hotel_crm.LoginThrottle.Effects.{entry_of, incremented_entry, incremented_world}
use hotel_crm.LoginThrottle.Lockout.{failures, assert_not_locked-failures, record_failure-duration}
use hotel_crm.LoginThrottle.Separate.{HasPlainParts, AreDifferent, failures-other}
use hotel_crm.Tests.Worlds.{start}
use hotel_crm.Memory.Server.{Memory, memory}

abbrev pub account : LoginAttemptIdentity
account = record { tenant_id = "t"; email = "ann@hotel"; ip = "1.2.3.4" }

-- One address in two tenants.
abbrev guest : LoginAttemptIdentity
guest = record { tenant_id = "t"; email = "a@h"; ip = "1.2.3.4" }

abbrev stranger : LoginAttemptIdentity
stranger = record { tenant_id = "s"; email = "a@h"; ip = "1.2.3.4" }

close : (j k : ℕ) → j ≤ 10 → k ≤ 10 → j < k + 900 * 1000
close j k h l = omega arith

positive : 0 < 900
positive = omega arith

short : 0 + 2 * 3 ≤ 10
short = omega arith

assert_not_locked-failures_example :
    (assert_not_locked memory account (failures memory account 3 start).1).0
    ≡ (if ltb 3 3 then ok tt else err (too_many_requests locked_message))
assert_not_locked-failures_example =
    assert_not_locked-failures memory account 10 positive close 3 start refl short

abbrev pub twice : Memory
twice = (failures memory account 2 start).1

attempts : 0 < 3
attempts = omega arith

at_limit : 3 ≤ (incremented_entry memory account twice).value
unfolding twice failures record_failure increment increment_with_ttl lock_out key_for
at_limit = omega arith

counted :
    live
      (memory.clock (twice.reads + 1))
      (entry_of memory (incremented_world memory account twice) (key_for memory account))
    ≢ none
unfolding twice failures record_failure increment increment_with_ttl lock_out key_for
counted e = ground arith

abbrev locked : Memory
locked = (record_failure memory account twice).1

record_failure-duration_example : (assert_not_locked memory account locked).0 ≡ (
    if ltb (memory.clock locked.reads) (memory.clock (twice.reads + 1) + 900 * 1000)
    then err (too_many_requests locked_message)
    else ok tt)
record_failure-duration_example =
    record_failure-duration memory account twice locked positive at_limit attempts counted refl

plain : IsColonFree "a@h"
plain = (λ e. ground arith, (λ e. ground arith, (λ e. ground arith, tt)))

guest_plain : HasPlainParts memory guest
guest_plain = ((λ e. ground arith, tt), plain)

stranger_plain : HasPlainParts memory stranger
stranger_plain = ((λ e. ground arith, tt), plain)

different : AreDifferent memory guest stranger
different = inl λ e. ground (arith, ap (λ s. str_eq s "t") e)

failures-other_example :
    (entry_of memory (failures memory guest 3 start).1 (key_for memory stranger)
      ≡ entry_of memory start (key_for memory stranger))
    × (entry_of memory (reset memory guest start).1 (key_for memory stranger)
        ≡ entry_of memory start (key_for memory stranger))
failures-other_example =
    failures-other memory guest stranger 3 start positive guest_plain stranger_plain different
