-- ===== src/Config/Startup.antt =====
-- What holds of the settings of an application that has started.
use hotel_crm.Prelude.{
  ℕ, ◌≡◌, ◌≤◌, ◌<◌, refl, sym, subst, String, Option, none, some, arith, leb, Option-cases,
  Bool-cases, inl, inr,
}
use hotel_crm.Config.{Env}
use hotel_crm.Config.Validation.{
  Zod, positive_int, secret, env_of, env_schema, or_throw, validate_env,
}
use hotel_crm.Config.Schemas.{Parsed, parsed, failed, ◌<*>◌}
use hotel_crm.Platform.Results.{ok}

<*>-parsed :
    {A B : Type 0} (f : Parsed (A → B)) (x : Parsed A) (b : B)
    → f <*> x ≡ parsed b
    → (g : A → B) × (a : A) × (f ≡ parsed g) × (x ≡ parsed a) × (b ≡ g a)
<*>-parsed (parsed g) (parsed a) b h = (g, a, refl, refl, ground arith)
<*>-parsed (parsed g) (failed ys) b h = absurd (ground arith)
<*>-parsed (failed xs) (parsed a) b h = absurd (ground arith)
<*>-parsed (failed xs) (failed ys) b h = absurd (ground arith)

-- Every output of a schema passes the test.
record Gives {A : Type 0} (P : A → Type 0) (o : Parsed A) : Type 0 where
  gives : (a : A) → o ≡ parsed a → P a

any : {A : Type 0} (o : Parsed A) → Gives (λ _. Unit {0}) o
any o = record { gives = λ a e. tt }

parsed-Gives : {A : Type 0} {P : A → Type 0} {a : A} → P a → Gives P (parsed a)
parsed-Gives {P = P} {a = a} h = record {
  gives = λ b e. let same : a ≡ b = ground arith in subst P same h;
}

<*>-Gives :
    {A B : Type 0} {P : B → Type 0} {Q : A → Type 0} {f : Parsed (A → B)} {x : Parsed A}
    → Gives (λ g. (a : A) → Q a → P (g a)) f
    → Gives Q x
    → Gives P (f <*> x)
<*>-Gives {P = P} {f = f} {x = x} h k = record {
  gives = λ b e.
      let (g, a, ef, ex, eb) = <*>-parsed f x b e in
      subst P (sym eb) (h.gives g ef a (k.gives a ex));
}

from_ok : (o : Parsed Env) (env : Env) → or_throw o ≡ ok env → o ≡ parsed env
from_ok (parsed e) env h = ground arith
from_ok (failed xs) env h = absurd (ground arith)

module _ (z : Zod) where
  positive_int-pos :
      (variable : String) (default_ n : ℕ) (o : Option String)
      → 0 < default_
      → positive_int z variable default_ o ≡ parsed n
      → 0 < n
  positive_int-pos variable default_ n none p h = ground arith
  positive_int-pos variable default_ n (some s) p h = elim (Option-cases (z.number s)) [
    | inl e ↦ absurd (ground arith)
    | inr (m, e) ↦ let q = z.number-pos s m e in ground arith
  ]

  secret-length :
      (variable t : String) (o : Option String) → secret z variable o ≡ parsed t → 16 ≤ z.length t
  secret-length variable t none h = absurd (ground arith)
  secret-length variable t (some s) h = elim (Bool-cases (leb 16 (z.length s))) [
    | inl e ↦ let same : s ≡ t = ground arith in rw (← same) (ground arith)
    | inr e ↦ absurd (ground arith)
  ]

  -- What the source asks of the variables that the application reads.
  pub record IsStartable (env : Env) : Type 0 where
    pub some_attempt : 0 < env.login_max_attempts
    pub some_lockout : 0 < env.login_lockout_seconds
    pub long_secret : 16 ≤ z.length env.jwt_secret
    pub long_refresh_secret : 16 ≤ z.length env.jwt_refresh_secret

  gathered-IsStartable :
      (o1 : Parsed String) (o2 : Parsed ℕ) (o3 : Parsed String) (o4 : Parsed (Option String))
      (o5 o6 o7 o8 o9 : Parsed String) (o10 o11 : Parsed ℕ)
      → Gives (λ t. 16 ≤ z.length t) o5
      → Gives (λ t. 16 ≤ z.length t) o7
      → Gives (λ n. 0 < n) o10
      → Gives (λ n. 0 < n) o11
      → Gives IsStartable (
          parsed (env_of z)
          <*> o1
          <*> o2
          <*> o3
          <*> o4
          <*> o5
          <*> o6
          <*> o7
          <*> o8
          <*> o9
          <*> o10
          <*> o11)
  gathered-IsStartable o1 o2 o3 o4 o5 o6 o7 o8 o9 o10 o11 p5 p7 p10 p11 =
      let start = parsed-Gives (λ n _ po _ d _ di _ j long jl _ r long' rl _ re _ at p se q.
        record {
          some_attempt = p;
          some_lockout = q;
          long_secret = long;
          long_refresh_secret = long';
        }) in
      let first =
        <*>-Gives (<*>-Gives (<*>-Gives (<*>-Gives start (any o1)) (any o2)) (any o3)) (any o4) in
      let second = <*>-Gives (<*>-Gives (<*>-Gives (<*>-Gives first p5) (any o6)) p7) (any o8) in
      <*>-Gives (<*>-Gives (<*>-Gives second (any o9)) p10) p11

  env_schema-IsStartable : (raw : String → Option String) → Gives IsStartable (env_schema z raw)
  unfolding env_schema
  env_schema-IsStartable raw =
      gathered-IsStartable _ _ _ _ _ _ _ _ _ _ _
        (record { gives = λ t. secret-length "JWT_SECRET" t (raw "JWT_SECRET") })
        (record { gives = λ t. secret-length "JWT_REFRESH_SECRET" t (raw "JWT_REFRESH_SECRET") })
        (record {
          gives = λ n.
              positive_int-pos "LOGIN_MAX_ATTEMPTS" 5 n (raw "LOGIN_MAX_ATTEMPTS") (omega arith);
        })
        (record {
          gives = λ n.
              positive_int-pos "LOGIN_LOCKOUT_SECONDS" 900 n (raw "LOGIN_LOCKOUT_SECONDS")
                (omega arith);
        })

  -- If the application starts, then an account may fail at least once before it is locked, a
  -- lockout lasts at least a second, and both secrets have sixteen characters at least.
  pub validate_env-IsStartable :
      (raw : String → Option String) (env : Env) → validate_env z raw ≡ ok env → IsStartable env
  unfolding validate_env
  validate_env-IsStartable raw env h =
      (env_schema-IsStartable raw).gives env (from_ok (env_schema z raw) env h)
