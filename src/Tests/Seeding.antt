-- ===== src/Tests/Seeding.antt =====
-- The seed script on an empty database, twice.
use hotel_crm.Prelude.{◌≡◌, refl, []}
use hotel_crm.Platform.Results.{ok}
use hotel_crm.Seed.Script.{
  Database, demo_id, upsert_tenant, upsert_tenant_row, upsert_user_row, upsert_guest,
  upsert_conversation, upsert_message, upsert_ticket,
}
use hotel_crm.Seed.Hotel.{main, seed_hotels, seed_hotel, upsert_user}
use hotel_crm.Seed.Facts.{sizes}
use hotel_crm.Seed.Again.{main-again}
use hotel_crm.Memory.Seeding.{client}

abbrev empty : Database
empty = record {
  tenants = [];
  users = [];
  guests = [];
  conversations = [];
  messages = [];
  tickets = [];
  reads = 0;
  drawn = 0;
}

abbrev seeded : Database
seeded = (main client empty).1

first_run : main client empty ≡ (ok tt, seeded)
unfolding main seed_hotels seed_hotel upsert_user demo_id upsert_tenant upsert_tenant_row
    upsert_user_row upsert_guest upsert_conversation upsert_message upsert_ticket
first_run = refl

main-again_example :
    (db : Database) × (main client seeded ≡ (ok tt, db)) × (sizes db ≡ sizes seeded)
main-again_example = main-again client empty seeded first_run
