-- ===== src/Tests/Pages.antt =====
-- The users of a hotel in two pages.
use hotel_crm.Prelude.{◌*◌, ◌≤◌, ◌≡◌, refl, arith, some, List, map, Perm, length}
use hotel_crm.Platform.Results.{ok}
use hotel_crm.Tenant.{setting_of}
use hotel_crm.Users.Types.{PublicUser, public_user}
use hotel_crm.Users.Rows.{UniqueUsers, user_rows, resolve}
use hotel_crm.Users.Pages.{read_pages, read_pages-all, users_of_tenant}
use hotel_crm.Tests.Worlds.{start}
use hotel_crm.Memory.Server.{memory}

tenant : resolve memory (some "t") ≡ ok ("t", some "t")
unfolding resolve setting_of
tenant = refl

unique : UniqueUsers (user_rows memory start)
unique = ((refl, (refl, tt)), ((refl, tt), (tt, tt)))

room : length (users_of_tenant memory (some "t") (some "t") "t" 2 start tenant unique) ≤ 2 * 2
room = omega arith

read_pages-all_example :
    (xs : List PublicUser) × (read_pages memory (some "t") 2 2 start ≡ (ok xs, start))
    × Perm xs
        (map public_user (users_of_tenant memory (some "t") (some "t") "t" 2 start tenant unique))
read_pages-all_example =
    read_pages-all memory (some "t") (some "t") "t" 2 start tenant unique 2 room
