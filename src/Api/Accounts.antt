-- ===== src/Api/Accounts.antt =====
-- The services of users.
use hotel_crm.Prelude.{String, Option, none, some}
use hotel_crm.Schema.{staff}
use hotel_crm.Platform.{Platform, World}
use hotel_crm.Platform.Moves.{Moves, >>=-Moves, pure-Moves, throw-Moves}
use hotel_crm.Auth.Permissions.{default_permissions}
use hotel_crm.Users.Types.{PublicUser, NewUserRecord, CreateUserDto, UpdateUserDto, or_default}
use hotel_crm.Users.Repository
use hotel_crm.Users.Repository.{PageRequest}
use hotel_crm.Users.Service.{find_page, find_by_id, create, update, or_not_found, bcrypt_rounds}
use hotel_crm.Users.Effects.{pages, finds, step}
use hotel_crm.Users.Idle.{step-IsRead}
use hotel_crm.Api.Covers.{Covers, read-Moves}
use hotel_crm.Api.Tokens.{draw-Moves}

module _ {U T R K : Type 0} (p : Platform U T R K) {current : Option String}
    {Rel : World U T R → World U T R → Type 0} (covers : Covers p current Rel) where
  or_not_found-Moves : (o : Option PublicUser) → Moves Rel (or_not_found p o)
  unfolding or_not_found
  or_not_found-Moves none = throw-Moves covers.order _
  or_not_found-Moves (some user) = pure-Moves covers.order user

  pub find_page-Moves : (query : PageRequest) → Moves Rel (find_page p current query)
  unfolding find_page step
  find_page-Moves query =
      >>=-Moves covers.order (read-Moves p covers λ w. step-IsRead p (pages current query) w tt)
        λ found. pure-Moves covers.order (record {
          items = found.items;
          page = query.page;
          limit = query.limit;
          total = found.total;
        })

  pub find_by_id-Moves : (id : String) → Moves Rel (find_by_id p current id)
  unfolding find_by_id step
  find_by_id-Moves id =
      >>=-Moves covers.order (read-Moves p covers λ w. step-IsRead p (finds current id) w tt)
        or_not_found-Moves

  insert-Moves : (new : NewUserRecord) → Moves Rel (Repository.create p current new)
  unfolding step
  insert-Moves new = record { moved = λ w. covers.creates new w }

  pub create-Moves : (dto : CreateUserDto) → Moves Rel (create p current dto)
  unfolding create
  create-Moves dto = >>=-Moves covers.order (draw-Moves p covers) λ salt. insert-Moves (record {
    email = dto.email;
    password_hash = p.bcrypt_hash salt bcrypt_rounds dto.password;
    full_name = dto.full_name;
    role = or_default dto.role staff;
    permissions = or_default dto.permissions (default_permissions (or_default dto.role staff));
    phone = dto.phone;
  })

  pub update-Moves :
      (id actor : String) (dto : UpdateUserDto) → Moves Rel (update p current id dto actor)
  update-Moves id actor dto = record { moved = covers.updates id actor dto }
