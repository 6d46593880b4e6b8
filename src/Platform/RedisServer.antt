-- ===== src/Platform/RedisServer.antt =====
-- The Redis commands that the application sends. `entries` is what the server stores under a key;
-- an entry whose expiry time has come counts as absent.
use hotel_crm.Prelude.{
  ℕ, suc, ◌+◌, ◌*◌, ◌<◌, ◌≡◌, String, Bool, false, Option, none, some, List, [], ◌∷◌, leb,
  if◌then◌else◌, str_eq,
}
use mathlib.Core.Option

pub record Entry : Type 0 where
  pub value : ℕ
  pub expires_at : Option ℕ

abbrev pub expired : ℕ → Option ℕ → Bool
expired now none = false
expired now (some t) = leb t now

abbrev pub live : ℕ → Option Entry → Option Entry
live now none = none
live now (some e) = if expired now e.expires_at then none else some e

-- A command of a MULTI block.
pub data Command : Type 0 where
  incr : String → Command
  expire_nx : String → ℕ → Command

-- The value part of a reply.
pub data Reply : Type 0 where
  number : ℕ → Reply
  nothing : Reply

-- INCR on a key.
abbrev pub incremented : Option Entry → Entry
incremented none = record { value = 1; expires_at = none }
incremented (some e) = record e { value = suc e.value }

-- EXPIRE with NX: only an entry with no expiry gets one.
abbrev pub expiring_nx : ℕ → Entry → Entry
expiring_nx t e = record e { expires_at = elim e.expires_at [ none ↦ some t | some u ↦ some u ] }

abbrev pub expiring : ℕ → Option Entry → Option Entry
expiring t none = none
expiring t (some e) = some (record e { expires_at = some t })

pub record Redis (R : Type 0) : Type 0 where
  pub entries : R → String → Option Entry
  pub get : ℕ → String → R → Option ℕ
  pub get_lem :
      (now : ℕ) (k : String) (r : R)
      → get now k r ≡ Option.map (λ e. e.value) (live now (entries r k))
  -- MULTI … EXEC: the replies, or `none` where the block was not run.
  pub exec : ℕ → List Command → R → Option (List Reply) × R
  pub exec-incr_expire_nx :
      (now : ℕ) (k : String) (ttl : ℕ) (r : R)
      → (last : Reply) × ((exec now (incr k ∷ expire_nx k ttl ∷ []) r).0
          ≡ some (number (incremented (live now (entries r k))).value ∷ last ∷ []))
  pub entries-incr_expire_nx :
      (now : ℕ) (k : String) (ttl : ℕ) (r : R) (j : String)
      → 0 < ttl
      → entries (exec now (incr k ∷ expire_nx k ttl ∷ []) r).1 j ≡ (
          if str_eq k j
          then some (expiring_nx (now + ttl * 1000) (incremented (live now (entries r k))))
          else entries r j)
  pub expire : ℕ → String → ℕ → R → R
  pub entries-expire :
      (now : ℕ) (k : String) (ttl : ℕ) (r : R) (j : String)
      → 0 < ttl
      → entries (expire now k ttl r) j
        ≡ (if str_eq k j then expiring (now + ttl * 1000) (live now (entries r k)) else entries r j)
  pub del : String → R → R
  pub entries-del :
      (k : String) (r : R) (j : String)
      → entries (del k r) j ≡ (if str_eq k j then none else entries r j)
