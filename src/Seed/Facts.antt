-- ===== src/Seed/Facts.antt =====
-- What a part of the script writes, so that it can be run again.
use hotel_crm.Prelude.{
  ℕ, ◌≡◌, refl, ap, ◌∙◌, subst, String, true, List, [], ◌∷◌, ◌++◌, Memᴰ, All, length, str_eq,
}
use hotel_crm.Platform.Results.{ok, Action, pure, ◌>>=◌, >>=-ok}
use hotel_crm.Seed.Tables.{TenantSeed}
use hotel_crm.Seed.Script.{DemoHotel, Database}
use hotel_crm.Seed.Hotel.{at_address}
use hotel_crm.Seed.Keys.{Has}

-- A row that the script brings about.
pub data Fact : Type 0 where
  tenant_is : DemoHotel → Fact
  user_at : String → String → Fact
  guest_is conversation_is message_is ticket_is : String → Fact

-- The rows with the id of the hotel have its slug.
abbrev pub HasSlug : DemoHotel → TenantSeed → Type 0
HasSlug hotel r = str_eq r.id hotel.id ≡ true → r.slug ≡ hotel.slug

abbrev pub Holds : Fact → Database → Type 0
Holds (tenant_is hotel) db =
    Has (λ r. str_eq r.id hotel.id) db.tenants × All (HasSlug hotel) db.tenants
Holds (user_at tenant_id email) db = Has (at_address tenant_id email) db.users
Holds (guest_is id) db = Has (λ r. str_eq r.id id) db.guests
Holds (conversation_is id) db = Has (λ r. str_eq r.id id) db.conversations
Holds (message_is id) db = Has (λ r. str_eq r.id id) db.messages
Holds (ticket_is id) db = Has (λ r. str_eq r.id id) db.tickets

-- How many rows each table has.
abbrev pub sizes : Database → List ℕ
sizes db =
    length db.tenants
    ∷ length db.users
    ∷ length db.guests
    ∷ length db.conversations
    ∷ length db.messages
    ∷ length db.tickets
    ∷ []

module _ (P : Fact → Type 0) where
  All-append : (xs ys : List Fact) → All P xs → All P ys → All P (xs ++ ys)
  All-append [] ys h k = k
  All-append (x ∷ xs) ys (h, hs) k = (h, All-append xs ys hs k)

  All-of_append : (xs ys : List Fact) → All P (xs ++ ys) → All P xs × All P ys
  All-of_append [] ys h = (tt, h)
  All-of_append (x ∷ xs) ys (h, k) = let (a, b) = All-of_append xs ys k in ((h, a), b)

module _ (hs : List DemoHotel) where
  -- Facts about the hotels of the list, and about other rows.
  abbrev pub IsKnown : Fact → Type 0
  IsKnown (tenant_is hotel) = Memᴰ hotel hs
  IsKnown _ = Unit

  -- What was there is there.
  pub record Grows (db db' : Database) : Type 0 where
    pub still : (x : Fact) → IsKnown x → Holds x db → Holds x db'

  -- An action that brings the facts about, and that succeeds and adds no row where they hold.
  pub record Builds {A : Type 0} (xs : List Fact) (m : Action Database A) : Type 0 where
    pub known : All IsKnown xs
    pub grows : (db db' : Database) (a : A) → m db ≡ (ok a, db') → Grows db db'
    pub makes : (db db' : Database) (a : A) → m db ≡ (ok a, db') → All (λ x. Holds x db') xs
    pub again :
        (db : Database)
        → All (λ x. Holds x db) xs
        → (a : A) × (db' : Database) × (m db ≡ (ok a, db')) × (sizes db' ≡ sizes db)

  pub Grows-All :
      {db db' : Database} (xs : List Fact)
      → Grows db db'
      → All IsKnown xs
      → All (λ x. Holds x db) xs
      → All (λ x. Holds x db') xs
  Grows-All [] g k h = tt
  Grows-All (x ∷ xs) g (k, ks) (h, hs') = (g.still x k h, Grows-All xs g ks hs')

  pub pure-Builds : {A : Type 0} (a : A) → Builds [] (pure a)
  pure-Builds a = record {
    known = tt;
    grows = λ db db' b e. record { still = λ x k h. subst (Holds x) (ap (λ o. o.1) e) h };
    makes = λ db db' b e. tt;
    again = λ db h. (a, db, refl, refl);
  }

  pub >>=-Builds :
      {A B : Type 0} (xs ys : List Fact) {m : Action Database A} {f : A → Action Database B}
      → Builds xs m
      → ((a : A) → Builds ys (f a))
      → All IsKnown ys
      → Builds (xs ++ ys) (m >>= f)
  >>=-Builds xs ys {m} {f} h k known = record {
    known = All-append IsKnown xs ys h.known known;
    grows = λ db db' b e.
        let (a, v, e1, e2) = >>=-ok m f db db' b e in
        record {
          still = λ x i j. ((k a).grows v db' b e2).still x i ((h.grows db v a e1).still x i j);
        };
    makes = λ db db' b e.
        let (a, v, e1, e2) = >>=-ok m f db db' b e in
        All-append (λ x. Holds x db') xs ys
          (Grows-All xs ((k a).grows v db' b e2) h.known (h.makes db v a e1))
          ((k a).makes v db' b e2);
    again = λ db holds.
        let (first, rest) = All-of_append (λ x. Holds x db) xs ys holds in
        let (a, v, e1, s1) = h.again db first in
        let (b, db', e2, s2) = (k a).again v (Grows-All ys (h.grows db v a e1) known rest) in
        (b, db', rw e1 e2, s2 ∙ s1);
  }
