-- ===== src/Api/Footprint.antt =====
-- Relations of the rows of `users`, and of the rows of `refresh_tokens`, over requests.
use hotel_crm.Prelude.{◌≡◌, sym, subst, String, Option, List}
use hotel_crm.Schema.{UserRow, TokenRow}
use hotel_crm.Platform.{Platform, World}
use hotel_crm.Platform.Moves.{IsPreorder}
use hotel_crm.Users.Rows.{user_rows}
use hotel_crm.Users.Effects as Users
use hotel_crm.RefreshToken.Effects as Tokens
use hotel_crm.Users.Effects.{UserEffect, step-UserEffect, current_setting}
use hotel_crm.Users.Idle.{step-LeavesTokens}
use hotel_crm.RefreshToken.Effects.{Transaction, Effect, IsNew, token_rows, step-Effect, setting}
use hotel_crm.RefreshToken.Idle.{step-users}
use hotel_crm.Api.Covers.{Covers}
use hotel_crm.Api.Steps.{all-Covers}

module _ {U T R K : Type 0} (p : Platform U T R K) {Q : List UserRow → List UserRow → Type 0}
    (order : IsPreorder Q) where
  abbrev pub OnUsers : World U T R → World U T R → Type 0
  OnUsers v w = Q (user_rows p v) (user_rows p w)

  same-OnUsers : (v w : World U T R) → w.users ≡ v.users → OnUsers v w
  same-OnUsers v w e =
      subst (λ u. Q (user_rows p v) (p.users.rows u)) (sym e) (order.reflexive (user_rows p v))

  pub OnUsers-order : IsPreorder OnUsers
  OnUsers-order = record {
    reflexive = λ w. order.reflexive _;
    transitive = λ u v w h k. order.transitive _ _ _ h k;
  }

  -- A relation that holds across the effects of transactions under a setting covers the requests
  -- with that setting.
  pub OnUsers-Covers :
      (current : Option String)
      → ((xs ys : List UserRow) → UserEffect (current_setting p current) xs ys → Q xs ys)
      → Covers p current OnUsers
  OnUsers-Covers current h =
      all-Covers p
        (record {
          order = OnUsers-order;
          idle = λ v w i. same-OnUsers v w i.0;
          users = λ x w e.
              h (user_rows p w) (user_rows p (Users.step p x w)) (rw (← e) (step-UserEffect p x w));
        })
        λ x w. same-OnUsers w (Tokens.step p x w) (step-users p x w)

module _ {U T R K : Type 0} (p : Platform U T R K) {Q : List TokenRow → List TokenRow → Type 0}
    (order : IsPreorder Q) where
  abbrev pub OnTokens : World U T R → World U T R → Type 0
  OnTokens v w = Q (token_rows p v) (token_rows p w)

  same-OnTokens : (v w : World U T R) → w.tokens ≡ v.tokens → OnTokens v w
  same-OnTokens v w e =
      subst (λ t. Q (token_rows p v) (p.tokens.rows t)) (sym e) (order.reflexive (token_rows p v))

  pub OnTokens-order : IsPreorder OnTokens
  OnTokens-order = record {
    reflexive = λ w. order.reflexive _;
    transitive = λ u v w h k. order.transitive _ _ _ h k;
  }

  pub OnTokens-Covers :
      (current : Option String)
      → ((New : TokenRow → Type 0) (s : Option String) (xs ys : List TokenRow)
          → Effect New s xs ys
          → Q xs ys)
      → Covers p current OnTokens
  OnTokens-Covers current h =
      all-Covers p
        (record {
          order = OnTokens-order;
          idle = λ v w i. same-OnTokens v w i.1;
          users = λ x w e. same-OnTokens w (Users.step p x w) (step-LeavesTokens p x w).0;
        })
        λ x w.
          h (IsNew p w x) (setting p x) (token_rows p w) (token_rows p (Tokens.step p x w))
            (step-Effect p x w)
