-- ===== src/Seed/Hotel.antt =====
-- What the script writes for a hotel, and for all.
use hotel_crm.Prelude.{ℕ, String, Bool, none, some, List, [], ◌∷◌, ◌&&◌, str_eq}
use Prim.Native.String.{◌++◌}
use hotel_crm.Schema.{Role, admin, manager, staff}
use hotel_crm.Platform.Results.{Action, pure, ◌>>=◌, ◌>>◌}
use hotel_crm.Auth.Permissions.{default_permissions}
use hotel_crm.Seed.Tables.{UserSeed, GuestSeed, ConversationSeed, MessageSeed, TicketSeed}
use hotel_crm.Seed.Script.{
  DemoHotel, hotels, demo_id, Client, Database, date, hash_password, upsert_tenant, upsert_user_row,
  upsert_guest, upsert_conversation, upsert_message, upsert_ticket,
}

pub record SeedUser : Type 0 where
  pub id : String
  pub tenant_id : String
  pub email : String
  pub full_name : String
  pub role : Role

abbrev pub at_address : String → String → UserSeed → Bool
at_address tenant_id email r = str_eq r.tenant_id tenant_id && str_eq r.email email

abbrev pub reset_role : SeedUser → UserSeed → UserSeed
reset_role input r = record r {
  role = input.role;
  permissions = default_permissions input.role;
  full_name = input.full_name;
}

abbrev pub admin_of : DemoHotel → SeedUser
admin_of hotel = record {
  id = demo_id hotel.prefix 9 1;
  tenant_id = hotel.id;
  email = "admin@" ++ hotel.email_domain;
  full_name = hotel.name ++ " Admin";
  role = admin;
}

abbrev pub manager_of : DemoHotel → SeedUser
manager_of hotel = record {
  id = demo_id hotel.prefix 9 2;
  tenant_id = hotel.id;
  email = "manager@" ++ hotel.email_domain;
  full_name = hotel.name ++ " Manager";
  role = manager;
}

abbrev pub staff_of : DemoHotel → SeedUser
staff_of hotel = record {
  id = demo_id hotel.prefix 9 3;
  tenant_id = hotel.id;
  email = "staff@" ++ hotel.email_domain;
  full_name = hotel.name ++ " Staff";
  role = staff;
}

-- The rows that are written where there are none.
abbrev pub user_row : SeedUser → String → UserSeed
user_row input password_hash = record {
  id = input.id;
  tenant_id = input.tenant_id;
  email = input.email;
  password_hash = password_hash;
  full_name = input.full_name;
  role = input.role;
  permissions = default_permissions input.role;
}

abbrev pub ayse : DemoHotel → GuestSeed
ayse hotel = record {
  id = demo_id hotel.prefix 0 1;
  tenant_id = hotel.id;
  full_name = "Ayşe Yılmaz";
  phone = "+905550000001";
  room_number = "101";
  status = "checked_in";
}

abbrev pub mehmet : DemoHotel → GuestSeed
mehmet hotel = record {
  id = demo_id hotel.prefix 0 2;
  tenant_id = hotel.id;
  full_name = "Mehmet Demir";
  phone = "+905550000002";
  room_number = "205";
  status = "checked_out";
}

abbrev pub conversation_row : DemoHotel → String → String → ℕ → ConversationSeed
conversation_row hotel guest_id staff_id at = record {
  id = demo_id hotel.prefix 1 1;
  tenant_id = hotel.id;
  guest_id = guest_id;
  assigned_to = staff_id;
  status = "active";
  last_message_at = at;
}

abbrev pub question : DemoHotel → String → MessageSeed
question hotel conversation_id = record {
  id = demo_id hotel.prefix 2 1;
  tenant_id = hotel.id;
  conversation_id = conversation_id;
  sender_type = "guest";
  sender_id = none;
  content = "Merhaba, odada havlu kalmamış.";
}

abbrev pub answer : DemoHotel → String → String → MessageSeed
answer hotel conversation_id staff_id = record {
  id = demo_id hotel.prefix 2 2;
  tenant_id = hotel.id;
  conversation_id = conversation_id;
  sender_type = "staff";
  sender_id = some staff_id;
  content = "Hemen gönderiyoruz, kusura bakmayın.";
}

abbrev pub open_ticket : DemoHotel → String → String → String → TicketSeed
open_ticket hotel guest_id conversation_id manager_id = record {
  id = demo_id hotel.prefix 3 1;
  tenant_id = hotel.id;
  guest_id = some guest_id;
  conversation_id = some conversation_id;
  category = "housekeeping";
  priority = "high";
  status = "pending";
  title = "Odaya havlu talebi";
  room_number = "101";
  assigned_to = some manager_id;
  resolved_at = none;
  resolution_notes = none;
}

abbrev pub resolved_ticket : DemoHotel → ℕ → TicketSeed
resolved_ticket hotel at = record {
  id = demo_id hotel.prefix 3 2;
  tenant_id = hotel.id;
  guest_id = none;
  conversation_id = none;
  category = "maintenance";
  priority = "medium";
  status = "resolved";
  title = "Klima çalışmıyor";
  room_number = "205";
  assigned_to = none;
  resolved_at = some at;
  resolution_notes = some "Kompresör değişti.";
}

module _ (prisma : Client) where
  unfoldable pub upsert_user : SeedUser → Action Database UserSeed
  upsert_user input = do
    password_hash ← hash_password prisma "admin1234"
    upsert_user_row prisma (at_address input.tenant_id input.email) (reset_role input)
        (user_row input password_hash)

  abbrev pub seed_conversation : DemoHotel → String → String → Action Database ConversationSeed
  seed_conversation hotel guest_id staff_id = do
    at ← date prisma
    upsert_conversation prisma (conversation_row hotel guest_id staff_id at)

  abbrev pub seed_messages : DemoHotel → String → String → Action Database (Unit {0})
  seed_messages hotel conversation_id staff_id = do
    first ← upsert_message prisma (question hotel conversation_id)
    second ← upsert_message prisma (answer hotel conversation_id staff_id)
    pure tt

  abbrev pub seed_tickets : DemoHotel → String → String → String → Action Database (Unit {0})
  seed_tickets hotel guest_id conversation_id manager_id = do
    first ← upsert_ticket prisma (open_ticket hotel guest_id conversation_id manager_id)
    at ← date prisma
    second ← upsert_ticket prisma (resolved_ticket hotel at)
    pure tt

  unfoldable pub seed_hotel : DemoHotel → Action Database (Unit {0})
  seed_hotel hotel = do
    tenant ← upsert_tenant prisma hotel
    admin_user ← upsert_user (admin_of hotel)
    manager_user ← upsert_user (manager_of hotel)
    staff_user ← upsert_user (staff_of hotel)
    guest ← upsert_guest prisma (ayse hotel)
    other ← upsert_guest prisma (mehmet hotel)
    conversation ← seed_conversation hotel guest.id staff_user.id
    seed_messages hotel conversation.id staff_user.id
    seed_tickets hotel guest.id conversation.id manager_user.id

  -- `for (const hotel of HOTELS)`
  unfoldable pub seed_hotels : List DemoHotel → Action Database (Unit {0})
  seed_hotels [] = pure tt
  seed_hotels (hotel ∷ rest) = seed_hotel hotel >> seed_hotels rest

  unfoldable pub main : Action Database (Unit {0})
  main = seed_hotels hotels
