-- ===== src/Seed/Accounts.antt =====
-- The upserts of hotels and of users build their rows.
use hotel_crm.Prelude.{
  ◌≡◌, refl, ap, ◌∙◌, true, List, [], ◌∷◌, Memᴰ, All-of_at, All-imp, length, str_eq, str_eq_refl,
  str_eq-true,
}
use hotel_crm.Seed.Tables.{TenantSeed, UserSeed}
use hotel_crm.Seed.Script.{
  DemoHotel, Client, renamed, upsert_tenant, upsert_tenant_row, upsert_user_row,
}
use hotel_crm.Seed.Hotel.{SeedUser, at_address, reset_role}
use hotel_crm.Seed.Keys.{upserted-Has, kept-Has, upserted-All, kept-All}
use hotel_crm.Seed.Facts.{tenant_is, user_at, HasSlug, Builds}
use hotel_crm.Seed.Rows.{upserting-Builds, user-Grows, tenant-Grows}

-- Hotels with one id have one slug.
abbrev pub IsConsistent : List DemoHotel → Type 0
IsConsistent hs =
    (h g : DemoHotel) → Memᴰ h hs → Memᴰ g hs → str_eq h.id g.id ≡ true → h.slug ≡ g.slug

module _ (prisma : Client) (hs : List DemoHotel) where
  pub user_row-Builds :
      (input : SeedUser) (new : UserSeed)
      → new.tenant_id ≡ input.tenant_id
      → new.email ≡ input.email
      → Builds hs
          (user_at input.tenant_id input.email ∷ [])
          (upsert_user_row prisma (at_address input.tenant_id input.email) (reset_role input) new)
  unfolding upsert_user_row
  user_row-Builds input new t m =
      upserting-Builds prisma.user (at_address input.tenant_id input.email) (reset_role input) new
        (λ db. db.users) (λ rows db. record db { users = rows }) hs
        (user_at input.tenant_id input.email) tt
        (λ db a rows e.
          user-Grows hs db rows
            λ u v h. kept-Has prisma.user _ _ new a db.users rows e (at_address u v) (λ r i. i) h)
        (λ db a rows e.
          upserted-Has prisma.user _ _ new a db.users rows e (λ r i. i)
            (rw (t, m, str_eq_refl input.tenant_id, str_eq_refl input.email) refl))
        (λ db h. (h, All-of_at _ db.users (λ r m i y. refl)))
        (λ db rows e.
          ap
            (λ n.
              length db.tenants
              ∷ n
              ∷ length db.guests
              ∷ length db.conversations
              ∷ length db.messages
              ∷ length db.tickets
              ∷ [])
            e)

  slug_given :
      IsConsistent hs
      → (h g : DemoHotel) (r : TenantSeed) → Memᴰ h hs
      → Memᴰ g hs
      → r.id ≡ h.id
      → r.slug ≡ h.slug
      → HasSlug g r
  slug_given c h g r m n i s e = s ∙ c h g m n (rw (← i) e)

  pub tenant-Builds :
      IsConsistent hs
      → (hotel : DemoHotel) → Memᴰ hotel hs
      → Builds hs (tenant_is hotel ∷ []) (upsert_tenant prisma hotel)
  unfolding upsert_tenant upsert_tenant_row
  tenant-Builds c hotel m =
      let new : TenantSeed = record {
        id = hotel.id;
        name = hotel.name;
        slug = hotel.slug;
        status = "active";
      } in
      upserting-Builds prisma.tenant (λ r. str_eq r.id hotel.id) (renamed hotel) new
        (λ db. db.tenants) (λ rows db. record db { tenants = rows }) hs (tenant_is hotel) m
        (λ db a rows e. tenant-Grows hs db rows λ g n (has, slugs). (
          kept-Has prisma.tenant _ _ new a db.tenants rows e (λ r. str_eq r.id g.id) (λ r i. i) has,
          kept-All prisma.tenant _ _ new a db.tenants rows e (HasSlug g)
              (λ r _ w.
                slug_given c hotel g (renamed hotel r) m n (str_eq-true r.id hotel.id w) refl)
              (slug_given c hotel g new m n refl refl) slugs,
        ))
        (λ db a rows e. (
          upserted-Has prisma.tenant _ _ new a db.tenants rows e (λ r i. i) (str_eq_refl hotel.id),
          upserted-All prisma.tenant _ _ new a db.tenants rows e (HasSlug hotel) (λ r w i. refl)
              (λ r w i. absurd (cc (w, i))) (λ i. refl),
        ))
        (λ db (has, slugs). (has, All-imp _ _ db.tenants (λ r slug w y. rw (slug w) refl) slugs))
        (λ db rows e.
          ap
            (λ n.
              n
              ∷ length db.users
              ∷ length db.guests
              ∷ length db.conversations
              ∷ length db.messages
              ∷ length db.tickets
              ∷ [])
            e)
