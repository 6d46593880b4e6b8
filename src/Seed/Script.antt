-- ===== src/Seed/Script.antt =====
-- The script.
use hotel_crm.Prelude.{
  ℕ, zero, suc, ◌+◌, ◌/◌, ◌%◌, String, Bool, List, [], ◌∷◌, ltb, str_eq, if◌then◌else◌,
}
use Prim.Native.String.{◌++◌}
use hotel_crm.Platform.Results.{ok, Action}
use hotel_crm.Users.Service.{bcrypt_rounds}
use hotel_crm.Seed.Tables.{
  TenantSeed, UserSeed, GuestSeed, ConversationSeed, MessageSeed, TicketSeed, tenant_conflict,
  user_seed_conflict, Upserts,
}

pub record DemoHotel : Type 0 where
  pub id : String
  pub name : String
  pub slug : String
  pub prefix : String
  pub email_domain : String

abbrev pub deniz : DemoHotel
deniz = record {
  id = "11111111-1111-1111-1111-111111111111";
  name = "Deniz Otel";
  slug = "deniz-otel";
  prefix = "a";
  email_domain = "deniz.test";
}

abbrev pub dag : DemoHotel
dag = record {
  id = "22222222-2222-2222-2222-222222222222";
  name = "Dağ Resort";
  slug = "dag-resort";
  prefix = "b";
  email_domain = "dag.test";
}

-- HOTELS
abbrev pub hotels : List DemoHotel
hotels = deniz ∷ dag ∷ []

-- The decimal digits of a number, by fuel: each step takes a digit off, so the number itself is
-- enough.
abbrev digit_text : List String → ℕ → String
digit_text [] n = ""
digit_text (d ∷ ds) zero = d
digit_text (d ∷ ds) (suc n) = digit_text ds n

abbrev digit_of : ℕ → String
digit_of n = digit_text ("0" ∷ "1" ∷ "2" ∷ "3" ∷ "4" ∷ "5" ∷ "6" ∷ "7" ∷ "8" ∷ "9" ∷ []) n

abbrev decimal_text : ℕ → ℕ → String
decimal_text zero n = digit_of n
decimal_text (suc fuel) n =
    let rest = decimal_text fuel (n / 10) in
    if ltb n 10 then digit_of n else rest ++ digit_of (n % 10)

abbrev number_text : ℕ → String
number_text n = decimal_text n n

-- `String(n).padStart(2, '0')`
abbrev padded : ℕ → String
padded n = if ltb n 10 then "0" ++ number_text n else number_text n

unfoldable pub demo_id : String → ℕ → ℕ → String
demo_id prefix kind n =
    prefix ++ (number_text kind ++ ("000000-0000-4000-8000-0000000000" ++ padded n))

-- The tables, and how often the clock was read and a salt drawn.
pub record Database : Type 0 where
  pub tenants : List TenantSeed
  pub users : List UserSeed
  pub guests : List GuestSeed
  pub conversations : List ConversationSeed
  pub messages : List MessageSeed
  pub tickets : List TicketSeed
  pub reads : ℕ
  pub drawn : ℕ

-- Prisma's client for each of the tables, bcrypt and the clock.
pub record Client : Type 0 where
  pub tenant : Upserts TenantSeed tenant_conflict
  pub user : Upserts UserSeed user_seed_conflict
  pub guest : Upserts GuestSeed (λ r x. str_eq r.id x.id)
  pub conversation : Upserts ConversationSeed (λ r x. str_eq r.id x.id)
  pub message : Upserts MessageSeed (λ r x. str_eq r.id x.id)
  pub ticket : Upserts TicketSeed (λ r x. str_eq r.id x.id)
  pub bcrypt_hash : ℕ → ℕ → String → String
  pub clock : ℕ → ℕ

abbrev pub renamed : DemoHotel → TenantSeed → TenantSeed
renamed hotel r = record r { name = hotel.name; slug = hotel.slug; status = "active" }

module _ (prisma : Client) where
  -- `new Date()`
  abbrev pub date : Action Database ℕ
  date db = (ok (prisma.clock db.reads), record db { reads = db.reads + 1 })

  abbrev pub hash_password : String → Action Database String
  hash_password password db =
      (ok (prisma.bcrypt_hash db.drawn bcrypt_rounds password), record db { drawn = db.drawn + 1 })

  unfoldable pub upsert_tenant_row :
      (TenantSeed → Bool) → (TenantSeed → TenantSeed) → TenantSeed → Action Database TenantSeed
  upsert_tenant_row where_ update new db =
      let (a, rows) = prisma.tenant.upsert where_ update new db.tenants in
      (a, record db { tenants = rows })

  unfoldable pub upsert_user_row :
      (UserSeed → Bool) → (UserSeed → UserSeed) → UserSeed → Action Database UserSeed
  upsert_user_row where_ update new db =
      let (a, rows) = prisma.user.upsert where_ update new db.users in
      (a, record db { users = rows })

  -- The other upserts find a row by its id and change nothing of it.
  unfoldable pub upsert_guest : GuestSeed → Action Database GuestSeed
  upsert_guest new db =
      let (a, rows) = prisma.guest.upsert (λ r. str_eq r.id new.id) (λ r. r) new db.guests in
      (a, record db { guests = rows })

  unfoldable pub upsert_conversation : ConversationSeed → Action Database ConversationSeed
  upsert_conversation new db =
      let (a, rows) =
        prisma.conversation.upsert (λ r. str_eq r.id new.id) (λ r. r) new db.conversations in
      (a, record db { conversations = rows })

  unfoldable pub upsert_message : MessageSeed → Action Database MessageSeed
  upsert_message new db =
      let (a, rows) = prisma.message.upsert (λ r. str_eq r.id new.id) (λ r. r) new db.messages in
      (a, record db { messages = rows })

  unfoldable pub upsert_ticket : TicketSeed → Action Database TicketSeed
  upsert_ticket new db =
      let (a, rows) = prisma.ticket.upsert (λ r. str_eq r.id new.id) (λ r. r) new db.tickets in
      (a, record db { tickets = rows })

  unfoldable pub upsert_tenant : DemoHotel → Action Database TenantSeed
  upsert_tenant hotel =
      upsert_tenant_row (λ r. str_eq r.id hotel.id) (renamed hotel)
        (record { id = hotel.id; name = hotel.name; slug = hotel.slug; status = "active" })
