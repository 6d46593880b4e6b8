-- ===== src/Memory/Server.antt =====
-- The platform in memory. A token is what was signed; a `uuid` is any text, its own spelling
-- except that "A" is another spelling of "a"; the clock ticks once a reading.
use hotel_crm.Prelude.{
  ℕ, zero, suc, ◌+◌, ◌*◌, ◌<◌, ◌≡◌, refl, String, true, Option, none, some, List, [], ◌∷◌, ◌&&◌,
  ltb, if◌then◌else◌, str_eq, str_eq_refl, str_eq_ne, arith, ap, subst, ◌≢◌, Bool-cases, inl, inr,
}
use Prim.Native.Char.{code}
use hotel_crm.Config.{Env}
use hotel_crm.Schema.{UserRow, TokenRow}
use hotel_crm.Platform.{Platform, World}
use hotel_crm.Platform.Results.{ok}
use hotel_crm.Platform.JsonWebToken.{Claims, Jwt}
use hotel_crm.Platform.RedisServer.{
  Redis, Entry, Command, Reply, incr, expire_nx, number, nothing, live, incremented, expiring,
  expiring_nx,
}
use mathlib.Core.Option
use hotel_crm.Memory.Order.{before, before-asym, before_trans, before_total}
use hotel_crm.Memory.Rows.{list_table}

pub record Signed : Type 0 where
  pub secret : String
  pub exp : ℕ
  pub claims : Claims

-- Tokens live for a hundred seconds.
abbrev sign : String → String → ℕ → Claims → Signed
sign secret lifetime at c = record { secret = secret; exp = at + 100; claims = c }

abbrev verify : String → ℕ → Signed → Option Claims
verify secret now t =
    if str_eq t.secret secret && ltb now (t.exp * 1000) then some t.claims else none

pub verify-sign :
    (secret lifetime : String) (at later : ℕ) (c : Claims)
    → later < (at + 100) * 1000
    → verify secret later (sign secret lifetime at c) ≡ some c
verify-sign secret lifetime at later c h = ground (arith, str_eq_refl secret)

pub verify-sign_some :
    (secret lifetime : String) (at later : ℕ) (c d : Claims)
    → verify secret later (sign secret lifetime at c) ≡ some d
    → d ≡ c
verify-sign_some secret lifetime at later c d h = ground arith

pub expiry_pos : (lifetime : String) (at : ℕ) → 0 < at + 100
expiry_pos lifetime at = omega arith

abbrev pub memory_jwt : Jwt Signed
memory_jwt = record {
  sign = sign;
  verify = verify;
  decode_exp = λ t. some t.exp;
  expiry = λ lifetime at. at + 100;
  expiry_pos = expiry_pos;
  decode_exp-sign = λ secret lifetime at c. refl;
  verify-sign = verify-sign;
  verify-sign_some = verify-sign_some;
}

abbrev Store : Type 0
Store = String → Option Entry

abbrev write : String → Option Entry → Store → Store
write k e r j = if str_eq k j then e else r j

abbrev exec : ℕ → List Command → Store → Option (List Reply) × Store
exec now [] r = (some [], r)
exec now (incr k ∷ []) r = (
  some (number (incremented (live now (r k))).value ∷ []),
  write k (some (incremented (live now (r k)))) r,
)
exec now (incr k ∷ expire_nx j ttl ∷ rest) r = (
  some (number (incremented (live now (r k))).value ∷ nothing ∷ []),
  write k (some (expiring_nx (now + ttl * 1000) (incremented (live now (r k))))) r,
)
exec now _ r = (none, r)

abbrev pub memory_redis : Redis (String → Option Entry)
memory_redis = record {
  entries = λ r. r;
  get = λ now k r. Option.map (λ e. e.value) (live now (r k));
  get_lem = λ now k r. refl;
  exec = exec;
  exec-incr_expire_nx = λ now k ttl r. (nothing, refl);
  entries-incr_expire_nx = λ now k ttl r j h. refl;
  expire = λ now k ttl r. write k (expiring (now + ttl * 1000) (live now (r k))) r;
  entries-expire = λ now k ttl r j h. refl;
  del = λ k r. write k none r;
  entries-del = λ k r j. refl;
}

abbrev canonical : String → String
canonical s = if str_eq s "A" then "a" else s

canonical_fixed : (s : String) → canonical (canonical s) ≡ canonical s
canonical_fixed s = elim (Bool-cases (str_eq s "A")) [ inl e ↦ rw e | inr e ↦ rw (e, e) ]

pub canonical_idem : (s u : String) → ok (canonical s) ≡ ok u → ok (canonical u) ≡ ok u
canonical_idem s u h =
    let e : canonical s ≡ u = ground arith in
    ap ok (subst (λ v. canonical v ≡ v) e (canonical_fixed s))

-- "u", "xu", "xxu", …
abbrev numbered : ℕ → String
numbered zero = "u"
numbered (suc n) = String.◌∷◌ "x" (numbered n)

first_code : String → ℕ
first_code String.[] = 0
first_code (String.◌∷◌ c s) = code c

numbered-ne : (n : ℕ) → numbered n ≢ "A"
unfolding first_code
numbered-ne zero e = absurd (omega (arith, ap first_code e))
numbered-ne (suc n) e = absurd (omega (arith, ap first_code e))

pub numbered_canonical : (n : ℕ) → ok (canonical (numbered n)) ≡ ok (numbered n)
numbered_canonical n = rw (str_eq_ne (numbered n) "A" (numbered-ne n))

pub bcrypt_same : (salt : String) (rounds : ℕ) (password : String) → str_eq password password ≡ true
bcrypt_same salt rounds password = str_eq_refl password

abbrev pub settings : Env
settings = record {
  jwt_secret = "access-secret";
  jwt_expires_in = "24h";
  jwt_refresh_secret = "refresh-secret";
  jwt_refresh_expires_in = "30d";
  login_max_attempts = 3;
  login_lockout_seconds = 900;
}

abbrev pub Memory : Type 0
Memory = World (List UserRow) (List TokenRow) (String → Option Entry)

abbrev pub memory : Platform (List UserRow) (List TokenRow) (String → Option Entry) Signed
memory = record {
  env = settings;
  users = list_table;
  tokens = list_table;
  redis = memory_redis;
  jwt = memory_jwt;
  sha256 = λ t. Option.get_or t.claims.jti "";
  bcrypt_hash = λ salt rounds password. password;
  bcrypt_compare = λ password hash. str_eq password hash;
  compare-hash = bcrypt_same;
  to_uuid = λ s. ok (canonical s);
  to_uuid_canonical = canonical_idem;
  uuid_before = before;
  uuid_before-asym = before-asym;
  uuid_before-trans = before_trans;
  uuid_before_total = before_total;
  lowercase = canonical;
  clock = λ n. n;
  random_uuid = numbered;
  random_uuid_canonical = numbered_canonical;
}
