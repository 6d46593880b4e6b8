-- ===== src/Seed/Tables.antt =====
-- The columns that the script writes, and Prisma's `upsert` without row-level security. The columns
-- that the database or Prisma fills in by itself are left out, apart from the ids.
use hotel_crm.Prelude.{
  ℕ, ◌≡◌, ◌⊎◌, String, Bool, true, false, Option, List, ◌∷◌, ◌||◌, ◌&&◌, Memᴰ, All, change, str_eq,
}
use hotel_crm.Schema.{Role}
use hotel_crm.Platform.Results.{Outcome, ok}

pub record TenantSeed : Type 0 where
  pub id : String
  pub name : String
  pub slug : String
  pub status : String

pub record UserSeed : Type 0 where
  pub id : String
  pub tenant_id : String
  pub email : String
  pub password_hash : String
  pub full_name : String
  pub role : Role
  pub permissions : List String

pub record GuestSeed : Type 0 where
  pub id : String
  pub tenant_id : String
  pub full_name : String
  pub phone : String
  pub room_number : String
  pub status : String

pub record ConversationSeed : Type 0 where
  pub id : String
  pub tenant_id : String
  pub guest_id : String
  pub assigned_to : String
  pub status : String
  pub last_message_at : ℕ

pub record MessageSeed : Type 0 where
  pub id : String
  pub tenant_id : String
  pub conversation_id : String
  pub sender_type : String
  pub sender_id : Option String
  pub content : String

pub record TicketSeed : Type 0 where
  pub id : String
  pub tenant_id : String
  pub guest_id : Option String
  pub conversation_id : Option String
  pub category : String
  pub priority : String
  pub status : String
  pub title : String
  pub room_number : String
  pub assigned_to : Option String
  pub resolved_at : Option ℕ
  pub resolution_notes : Option String

-- `@id` and `@unique` on the slug.
abbrev pub tenant_conflict : TenantSeed → TenantSeed → Bool
tenant_conflict r x = str_eq r.id x.id || str_eq r.slug x.slug

-- `@id` and `@@unique([tenantId, email])`.
abbrev pub user_seed_conflict : UserSeed → UserSeed → Bool
user_seed_conflict r x =
    str_eq r.id x.id || (str_eq r.tenant_id x.tenant_id && str_eq r.email x.email)

-- `upsert` on a table whose unique constraints are `conflict`; its filter names a unique key. It
-- changes the row that matches, or inserts a row where none does, or throws and changes nothing.
pub record Upserts (Row : Type 0) (conflict : Row → Row → Bool) : Type 0 where
  pub upsert : (Row → Bool) → (Row → Row) → Row → List Row → Outcome Row × List Row
  pub upsert-ok :
      (where_ : Row → Bool) (update : Row → Row) (new a : Row) (rows rows' : List Row)
      → upsert where_ update new rows ≡ (ok a, rows')
      → ((r : Row) × Memᴰ r rows
          × (where_ r ≡ true)
          × (a ≡ update r)
          × (rows' ≡ change where_ update rows))
        ⊎ ((a ≡ new) × (rows' ≡ new ∷ rows) × All (λ x. where_ x ≡ false) rows)
  -- A row that matches is changed where the change leaves the unique columns alone.
  pub upsert-found :
      (where_ : Row → Bool) (update : Row → Row) (new r : Row) (rows : List Row)
      → Memᴰ r rows
      → where_ r ≡ true
      → All (λ x. where_ x ≡ true → (y : Row) → conflict (update x) y ≡ conflict x y) rows
      → (a : Row) × (upsert where_ update new rows ≡ (ok a, change where_ update rows))
