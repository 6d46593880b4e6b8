-- ===== src/Seed/Again.antt =====
-- The script, run again.
use hotel_crm.Prelude.{
  ℕ, ◌≡◌, refl, ap, subst, ◌+◌, String, List, [], ◌∷◌, ◌++◌, Memᴰ, All, arith, ◌⊎◌, inl, inr,
}
use hotel_crm.Platform.Results.{ok}
use hotel_crm.Seed.Script.{
  DemoHotel, deniz, dag, hotels, demo_id, Client, Database, date, hash_password,
}
use hotel_crm.Seed.Hotel.{
  SeedUser, admin_of, manager_of, staff_of, user_row, ayse, mehmet, conversation_row, question,
  answer, open_ticket, resolved_ticket, seed_conversation, seed_messages, seed_tickets, upsert_user,
  seed_hotel, seed_hotels, main,
}
use hotel_crm.Seed.Facts.{
  Fact, tenant_is, user_at, guest_is, conversation_is, message_is, ticket_is, Holds, sizes, IsKnown,
  Grows, Builds, pure-Builds, >>=-Builds,
}
use hotel_crm.Seed.Rows.{guest-Builds, conversation-Builds, message-Builds, ticket-Builds}
use hotel_crm.Seed.Accounts.{IsConsistent, user_row-Builds, tenant-Builds}

module _ (prisma : Client) (hs : List DemoHotel) where
  -- Reading the clock and drawing a salt changes no row.
  counters-Grows :
      (db : Database) (reads drawn : ℕ) → Grows hs db (record db { reads = reads; drawn = drawn })
  counters-Grows db reads drawn = record {
    still = λ x k h.
        elim x as (λ x. Holds x db → Holds x (record db { reads = reads; drawn = drawn })) [
          | tenant_is hotel ↦ λ h. h
          | user_at t m ↦ λ h. h
          | guest_is id ↦ λ h. h
          | conversation_is id ↦ λ h. h
          | message_is id ↦ λ h. h
          | ticket_is id ↦ λ h. h
        ]
          h;
  }

  date-Builds : Builds hs [] (date prisma)
  date-Builds = record {
    known = tt;
    grows = λ db db' a e.
        subst (Grows hs db) (ap (λ o. o.1) e) (counters-Grows db (db.reads + 1) db.drawn);
    makes = λ db db' a e. tt;
    again = λ db h. (prisma.clock db.reads, record db { reads = db.reads + 1 }, refl, refl);
  }

  hash_password-Builds : (password : String) → Builds hs [] (hash_password prisma password)
  hash_password-Builds password = record {
    known = tt;
    grows = λ db db' a e.
        subst (Grows hs db) (ap (λ o. o.1) e) (counters-Grows db db.reads (db.drawn + 1));
    makes = λ db db' a e. tt;
    again = λ db h. (_, record db { drawn = db.drawn + 1 }, refl, refl);
  }

  upsert_user-Builds :
      (input : SeedUser)
      → Builds hs (user_at input.tenant_id input.email ∷ []) (upsert_user prisma input)
  unfolding upsert_user
  upsert_user-Builds input =
      >>=-Builds hs [] (user_at input.tenant_id input.email ∷ []) (hash_password-Builds "admin1234")
        (λ hash. user_row-Builds prisma hs input (user_row input hash) refl refl) (tt, tt)

  module _ (hotel : DemoHotel) where
    abbrev own_user : SeedUser → Fact
    own_user input = user_at input.tenant_id input.email

    abbrev message_fact : ℕ → Fact
    message_fact n = message_is (demo_id hotel.prefix 2 n)

    abbrev ticket_fact : ℕ → Fact
    ticket_fact n = ticket_is (demo_id hotel.prefix 3 n)

    abbrev guest_fact : ℕ → Fact
    guest_fact n = guest_is (demo_id hotel.prefix 0 n)

    abbrev late_facts : List Fact
    late_facts = message_fact 1 ∷ message_fact 2 ∷ ticket_fact 1 ∷ ticket_fact 2 ∷ []

    abbrev talk_facts : List Fact
    talk_facts = conversation_is (demo_id hotel.prefix 1 1) ∷ late_facts

    -- What the script writes for the hotel.
    abbrev facts_of : List Fact
    facts_of =
        tenant_is hotel
        ∷ own_user (admin_of hotel)
        ∷ own_user (manager_of hotel)
        ∷ own_user (staff_of hotel)
        ∷ guest_fact 1
        ∷ guest_fact 2
        ∷ talk_facts

    seed_messages-Builds :
        (conversation_id staff_id : String)
        → Builds hs
            (message_fact 1 ∷ message_fact 2 ∷ [])
            (seed_messages prisma hotel conversation_id staff_id)
    seed_messages-Builds conversation_id staff_id =
        >>=-Builds hs (message_fact 1 ∷ []) (message_fact 2 ∷ [])
          (message-Builds prisma hs (question hotel conversation_id))
          (λ _.
            >>=-Builds hs (message_fact 2 ∷ []) []
              (message-Builds prisma hs (answer hotel conversation_id staff_id))
              (λ _. pure-Builds hs tt) tt)
          (tt, tt)

    seed_tickets-Builds :
        (guest_id conversation_id manager_id : String)
        → Builds hs
            (ticket_fact 1 ∷ ticket_fact 2 ∷ [])
            (seed_tickets prisma hotel guest_id conversation_id manager_id)
    seed_tickets-Builds guest_id conversation_id manager_id =
        >>=-Builds hs (ticket_fact 1 ∷ []) (ticket_fact 2 ∷ [])
          (ticket-Builds prisma hs (open_ticket hotel guest_id conversation_id manager_id))
          (λ _.
            >>=-Builds hs [] (ticket_fact 2 ∷ []) date-Builds
              (λ at.
                >>=-Builds hs (ticket_fact 2 ∷ []) []
                  (ticket-Builds prisma hs (resolved_ticket hotel at)) (λ _. pure-Builds hs tt) tt)
              (tt, tt))
          (tt, tt)

    seed_conversation-Builds :
        (guest_id staff_id : String)
        → Builds hs
            (conversation_is (demo_id hotel.prefix 1 1) ∷ [])
            (seed_conversation prisma hotel guest_id staff_id)
    seed_conversation-Builds guest_id staff_id =
        >>=-Builds hs [] (conversation_is (demo_id hotel.prefix 1 1) ∷ []) date-Builds
          (λ at. conversation-Builds prisma hs (conversation_row hotel guest_id staff_id at))
          (tt, tt)

    late_facts-IsKnown : All (IsKnown hs) late_facts
    late_facts-IsKnown = (tt, (tt, (tt, (tt, tt))))

    facts_of-IsKnown : Memᴰ hotel hs → All (IsKnown hs) facts_of
    facts_of-IsKnown m = (m, (tt, (tt, (tt, (tt, (tt, (tt, late_facts-IsKnown)))))))

    seed_hotel-Builds :
        IsConsistent hs → Memᴰ hotel hs → Builds hs facts_of (seed_hotel prisma hotel)
    unfolding seed_hotel
    seed_hotel-Builds c m =
        let guests : List Fact = guest_fact 1 ∷ guest_fact 2 ∷ talk_facts in
        >>=-Builds hs (tenant_is hotel ∷ [])
          (own_user (admin_of hotel)
            ∷ own_user (manager_of hotel)
            ∷ own_user (staff_of hotel)
            ∷ guests)
          (tenant-Builds prisma hs c hotel m)
          (λ _.
            >>=-Builds hs (own_user (admin_of hotel) ∷ [])
              (own_user (manager_of hotel) ∷ own_user (staff_of hotel) ∷ guests)
              (upsert_user-Builds (admin_of hotel))
              (λ _.
                >>=-Builds hs (own_user (manager_of hotel) ∷ [])
                  (own_user (staff_of hotel) ∷ guests) (upsert_user-Builds (manager_of hotel))
                  (λ manager_user.
                    >>=-Builds hs (own_user (staff_of hotel) ∷ []) guests
                      (upsert_user-Builds (staff_of hotel))
                      (λ staff_user.
                        >>=-Builds hs (guest_fact 1 ∷ []) (guest_fact 2 ∷ talk_facts)
                          (guest-Builds prisma hs (ayse hotel))
                          (λ guest.
                            >>=-Builds hs (guest_fact 2 ∷ []) talk_facts
                              (guest-Builds prisma hs (mehmet hotel))
                              (λ _.
                                >>=-Builds hs (conversation_is (demo_id hotel.prefix 1 1) ∷ [])
                                  late_facts (seed_conversation-Builds guest.id staff_user.id)
                                  (λ conversation.
                                    >>=-Builds hs (message_fact 1 ∷ message_fact 2 ∷ [])
                                      (ticket_fact 1 ∷ ticket_fact 2 ∷ [])
                                      (seed_messages-Builds conversation.id staff_user.id)
                                      (λ _.
                                        seed_tickets-Builds guest.id conversation.id
                                          manager_user.id)
                                      (tt, (tt, tt)))
                                  late_facts-IsKnown)
                              (tt, late_facts-IsKnown))
                          (tt, (tt, late_facts-IsKnown)))
                      (tt, (tt, (tt, late_facts-IsKnown))))
                  (tt, (tt, (tt, (tt, late_facts-IsKnown)))))
              (tt, (tt, (tt, (tt, (tt, late_facts-IsKnown))))))
          (tt, (tt, (tt, (tt, (tt, (tt, late_facts-IsKnown))))))

one_of_two : (h : DemoHotel) → Memᴰ h hotels → (h ≡ deniz) ⊎ (h ≡ dag)
one_of_two h (Memᴰ.head e) = inl e
one_of_two h (Memᴰ.tail (Memᴰ.head e)) = inr e
one_of_two h (Memᴰ.tail (Memᴰ.tail m)) = elim m [ ]

consistent : IsConsistent hotels
consistent h g m n e = elim (one_of_two h m) [
  | inl a ↦ elim (one_of_two g n) [
    | inl b ↦ rw (a, b) refl
    | inr b ↦ absurd (ground (arith, rw (a, b) at e))
  ]
  | inr a ↦ elim (one_of_two g n) [
    | inl b ↦ absurd (ground (arith, rw (a, b) at e))
    | inr b ↦ rw (a, b) refl
  ]
]

module _ (prisma : Client) where
  main-Builds :
      Builds hotels
        (facts_of prisma hotels deniz ++ (facts_of prisma hotels dag ++ []))
        (main prisma)
  unfolding main seed_hotels
  main-Builds =
      >>=-Builds hotels (facts_of prisma hotels deniz) (facts_of prisma hotels dag ++ [])
        (seed_hotel-Builds prisma hotels deniz consistent (Memᴰ.head refl))
        (λ _.
          >>=-Builds hotels (facts_of prisma hotels dag) []
            (seed_hotel-Builds prisma hotels dag consistent (Memᴰ.tail (Memᴰ.head refl)))
            (λ _. pure-Builds hotels tt) tt)
        (facts_of-IsKnown prisma hotels dag (Memᴰ.tail (Memᴰ.head refl)))

  -- Once the script has run to its end, it runs to its end again, and every table has as many rows
  -- after the second run as before it.
  pub main-again :
      (db db' : Database)
      → main prisma db ≡ (ok tt, db')
      → (db'' : Database) × (main prisma db' ≡ (ok tt, db'')) × (sizes db'' ≡ sizes db')
  main-again db db' e =
      let (a, db'', f, s) = main-Builds.again db' (main-Builds.makes db db' tt e) in (db'', f, s)
