-- ===== src/Seed/Rows.antt =====
-- Each upsert of the script builds its row.
use hotel_crm.Prelude.{
  ◌≡◌, refl, ap, subst, String, Bool, true, List, [], ◌∷◌, Memᴰ, All, All-of_at, length, str_eq,
  str_eq_refl,
}
use hotel_crm.Platform.Results.{ok, Action}
use hotel_crm.Seed.Tables.{
  Upserts, TenantSeed, UserSeed, GuestSeed, ConversationSeed, MessageSeed, TicketSeed,
}
use hotel_crm.Seed.Script.{
  DemoHotel, Client, Database, upsert_guest, upsert_conversation, upsert_message, upsert_ticket,
}
use hotel_crm.Seed.Hotel.{at_address}
use hotel_crm.Seed.Keys.{Has, upserted-Has, kept-Has, upsert-again}
use hotel_crm.Seed.Facts.{
  Fact, tenant_is, user_at, guest_is, conversation_is, message_is, ticket_is, Holds, sizes, IsKnown,
  Grows, Builds,
}

-- An upsert on one of the tables.
module _ {Row : Type 0} {conflict : Row → Row → Bool} (u : Upserts Row conflict)
    (where_ : Row → Bool) (update : Row → Row) (new : Row) (get : Database → List Row)
    (set : List Row → Database → Database) (hs : List DemoHotel) (x : Fact) where
  abbrev pub upserting : Action Database Row
  upserting db = let (a, rows) = u.upsert where_ update new (get db) in (a, set rows db)

  abbrev pub Upserted : (Database → List Row → Type 0) → Type 0
  Upserted P =
      (db : Database) (a : Row) (rows : List Row)
      → u.upsert where_ update new (get db) ≡ (ok a, rows)
      → P db rows

  pub upserting-Builds :
      IsKnown hs x
      → Upserted (λ db rows. Grows hs db (set rows db))
      → Upserted (λ db rows. Holds x (set rows db))
      → ((db : Database)
          → Holds x db
          → Has where_ (get db)
            × All
                (λ r. where_ r ≡ true → (y : Row) → conflict (update r) y ≡ conflict r y)
                (get db))
      → ((db : Database) (rows : List Row)
          → length rows ≡ length (get db)
          → sizes (set rows db) ≡ sizes db)
      → Builds hs (x ∷ []) upserting
  upserting-Builds known still done there same = record {
    known = (known, tt);
    grows =
        λ db db' a e. subst (Grows hs db) (ap (λ o. o.1) e) (still db a _ (succeeded db db' a e));
    makes =
        λ db db' a e. (subst (Holds x) (ap (λ o. o.1) e) (done db a _ (succeeded db db' a e)), tt);
    again = λ db (h, _).
        let (has, safe) = there db h in
        let (a, rows, e, s) = upsert-again u where_ update new (get db) has safe in
        (a, set rows db, rw e refl, same db rows s);
  }
    where
      succeeded :
          (db db' : Database) (a : Row)
          → upserting db ≡ (ok a, db')
          → u.upsert where_ update new (get db) ≡ (ok a, (u.upsert where_ update new (get db)).1)
      succeeded db db' a e = ap (λ o. (o.0, (u.upsert where_ update new (get db)).1)) e

module _ (hs : List DemoHotel) (db : Database) where
  guest-Grows :
      (rows : List GuestSeed)
      → ((id : String) → Has (λ r. str_eq r.id id) db.guests → Has (λ r. str_eq r.id id) rows)
      → Grows hs db (record db { guests = rows })
  guest-Grows rows g = record {
    still = λ x k h.
        elim x as (λ x. IsKnown hs x → Holds x db → Holds x (record db { guests = rows })) [
          | tenant_is hotel ↦ λ k h. h
          | user_at t m ↦ λ k h. h
          | guest_is id ↦ λ k h. g id h
          | conversation_is id ↦ λ k h. h
          | message_is id ↦ λ k h. h
          | ticket_is id ↦ λ k h. h
        ]
          k h;
  }

  conversation-Grows :
      (rows : List ConversationSeed)
      → ((id : String)
          → Has (λ r. str_eq r.id id) db.conversations
          → Has (λ r. str_eq r.id id) rows)
      → Grows hs db (record db { conversations = rows })
  conversation-Grows rows g = record {
    still = λ x k h.
        elim x as (λ x. IsKnown hs x → Holds x db → Holds x (record db { conversations = rows })) [
          | tenant_is hotel ↦ λ k h. h
          | user_at t m ↦ λ k h. h
          | guest_is id ↦ λ k h. h
          | conversation_is id ↦ λ k h. g id h
          | message_is id ↦ λ k h. h
          | ticket_is id ↦ λ k h. h
        ]
          k h;
  }

  message-Grows :
      (rows : List MessageSeed)
      → ((id : String) → Has (λ r. str_eq r.id id) db.messages → Has (λ r. str_eq r.id id) rows)
      → Grows hs db (record db { messages = rows })
  message-Grows rows g = record {
    still = λ x k h.
        elim x as (λ x. IsKnown hs x → Holds x db → Holds x (record db { messages = rows })) [
          | tenant_is hotel ↦ λ k h. h
          | user_at t m ↦ λ k h. h
          | guest_is id ↦ λ k h. h
          | conversation_is id ↦ λ k h. h
          | message_is id ↦ λ k h. g id h
          | ticket_is id ↦ λ k h. h
        ]
          k h;
  }

  ticket-Grows :
      (rows : List TicketSeed)
      → ((id : String) → Has (λ r. str_eq r.id id) db.tickets → Has (λ r. str_eq r.id id) rows)
      → Grows hs db (record db { tickets = rows })
  ticket-Grows rows g = record {
    still = λ x k h.
        elim x as (λ x. IsKnown hs x → Holds x db → Holds x (record db { tickets = rows })) [
          | tenant_is hotel ↦ λ k h. h
          | user_at t m ↦ λ k h. h
          | guest_is id ↦ λ k h. h
          | conversation_is id ↦ λ k h. h
          | message_is id ↦ λ k h. h
          | ticket_is id ↦ λ k h. g id h
        ]
          k h;
  }

  pub user-Grows :
      (rows : List UserSeed)
      → ((t m : String) → Has (at_address t m) db.users → Has (at_address t m) rows)
      → Grows hs db (record db { users = rows })
  user-Grows rows g = record {
    still = λ x k h.
        elim x as (λ x. IsKnown hs x → Holds x db → Holds x (record db { users = rows })) [
          | tenant_is hotel ↦ λ k h. h
          | user_at t m ↦ λ k h. g t m h
          | guest_is id ↦ λ k h. h
          | conversation_is id ↦ λ k h. h
          | message_is id ↦ λ k h. h
          | ticket_is id ↦ λ k h. h
        ]
          k h;
  }

  pub tenant-Grows :
      (rows : List TenantSeed)
      → ((hotel : DemoHotel)
          → Memᴰ hotel hs
          → Holds (tenant_is hotel) db
          → Holds (tenant_is hotel) (record db { tenants = rows }))
      → Grows hs db (record db { tenants = rows })
  tenant-Grows rows g = record {
    still = λ x k h.
        elim x as (λ x. IsKnown hs x → Holds x db → Holds x (record db { tenants = rows })) [
          | tenant_is hotel ↦ λ k h. g hotel k h
          | user_at t m ↦ λ k h. h
          | guest_is id ↦ λ k h. h
          | conversation_is id ↦ λ k h. h
          | message_is id ↦ λ k h. h
          | ticket_is id ↦ λ k h. h
        ]
          k h;
  }

module _ (prisma : Client) (hs : List DemoHotel) where
  pub guest-Builds : (new : GuestSeed) → Builds hs (guest_is new.id ∷ []) (upsert_guest prisma new)
  unfolding upsert_guest
  guest-Builds new =
      upserting-Builds prisma.guest (λ r. str_eq r.id new.id) (λ r. r) new (λ db. db.guests)
        (λ rows db. record db { guests = rows }) hs (guest_is new.id) tt
        (λ db a rows e. guest-Grows hs db rows λ id h.
          kept-Has prisma.guest _ _ new a db.guests rows e (λ r. str_eq r.id id) (λ r i. i) h)
        (λ db a rows e.
          upserted-Has prisma.guest _ _ new a db.guests rows e (λ r i. i) (str_eq_refl new.id))
        (λ db h. (h, All-of_at _ db.guests (λ r m i y. refl)))
        (λ db rows e.
          ap
            (λ n.
              length db.tenants
              ∷ length db.users
              ∷ n
              ∷ length db.conversations
              ∷ length db.messages
              ∷ length db.tickets
              ∷ [])
            e)

  pub conversation-Builds :
      (new : ConversationSeed)
      → Builds hs (conversation_is new.id ∷ []) (upsert_conversation prisma new)
  unfolding upsert_conversation
  conversation-Builds new =
      upserting-Builds prisma.conversation (λ r. str_eq r.id new.id) (λ r. r) new
        (λ db. db.conversations) (λ rows db. record db { conversations = rows }) hs
        (conversation_is new.id) tt
        (λ db a rows e. conversation-Grows hs db rows λ id h.
          kept-Has prisma.conversation _ _ new a db.conversations rows e (λ r. str_eq r.id id)
            (λ r i. i) h)
        (λ db a rows e.
          upserted-Has prisma.conversation _ _ new a db.conversations rows e (λ r i. i)
            (str_eq_refl new.id))
        (λ db h. (h, All-of_at _ db.conversations (λ r m i y. refl)))
        (λ db rows e.
          ap
            (λ n.
              length db.tenants
              ∷ length db.users
              ∷ length db.guests
              ∷ n
              ∷ length db.messages
              ∷ length db.tickets
              ∷ [])
            e)

  pub message-Builds :
      (new : MessageSeed) → Builds hs (message_is new.id ∷ []) (upsert_message prisma new)
  unfolding upsert_message
  message-Builds new =
      upserting-Builds prisma.message (λ r. str_eq r.id new.id) (λ r. r) new (λ db. db.messages)
        (λ rows db. record db { messages = rows }) hs (message_is new.id) tt
        (λ db a rows e. message-Grows hs db rows λ id h.
          kept-Has prisma.message _ _ new a db.messages rows e (λ r. str_eq r.id id) (λ r i. i) h)
        (λ db a rows e.
          upserted-Has prisma.message _ _ new a db.messages rows e (λ r i. i) (str_eq_refl new.id))
        (λ db h. (h, All-of_at _ db.messages (λ r m i y. refl)))
        (λ db rows e.
          ap
            (λ n.
              length db.tenants
              ∷ length db.users
              ∷ length db.guests
              ∷ length db.conversations
              ∷ n
              ∷ length db.tickets
              ∷ [])
            e)

  pub ticket-Builds :
      (new : TicketSeed) → Builds hs (ticket_is new.id ∷ []) (upsert_ticket prisma new)
  unfolding upsert_ticket
  ticket-Builds new =
      upserting-Builds prisma.ticket (λ r. str_eq r.id new.id) (λ r. r) new (λ db. db.tickets)
        (λ rows db. record db { tickets = rows }) hs (ticket_is new.id) tt
        (λ db a rows e. ticket-Grows hs db rows λ id h.
          kept-Has prisma.ticket _ _ new a db.tickets rows e (λ r. str_eq r.id id) (λ r i. i) h)
        (λ db a rows e.
          upserted-Has prisma.ticket _ _ new a db.tickets rows e (λ r i. i) (str_eq_refl new.id))
        (λ db h. (h, All-of_at _ db.tickets (λ r m i y. refl)))
        (λ db rows e.
          ap
            (λ n.
              length db.tenants
              ∷ length db.users
              ∷ length db.guests
              ∷ length db.conversations
              ∷ length db.messages
              ∷ n
              ∷ [])
            e)
