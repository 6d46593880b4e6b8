-- ===== src/Tests/Accounts.antt =====
-- Transactions on the users of two hotels.
use hotel_crm.Prelude.{some, []}
use hotel_crm.Schema.{manager}
use hotel_crm.Users.Types.{NewUserRecord, UpdateUserDto, absent, value}
use hotel_crm.Users.Rows.{user_rows}
use hotel_crm.Users.Effects.{creates, UserEffect, setting, step, step-UserEffect}
use hotel_crm.Tests.Worlds.{start}
use hotel_crm.Memory.Server.{memory}

abbrev newcomer : NewUserRecord
newcomer = record {
  email = "dan@hotel";
  password_hash = "password";
  full_name = "Dan";
  role = manager;
  permissions = [];
  phone = absent;
}

abbrev promotion : UpdateUserDto
promotion = record {
  full_name = absent;
  role = value manager;
  permissions = absent;
  phone = absent;
  is_active = absent;
}

step-UserEffect_example :
    UserEffect
      (setting memory (creates (some "t") newcomer))
      (user_rows memory start)
      (user_rows memory (step memory (creates (some "t") newcomer) start))
step-UserEffect_example = step-UserEffect memory (creates (some "t") newcomer) start
