-- ===== src/Platform/Results.antt =====
-- Results of the application's methods: a value, or what was thrown. An action keeps the changes
-- that it made before it throws, as an `async` method does.
use hotel_crm.Prelude.{arith, ℕ, ◌≡◌, refl, ◌⊎◌, inl, inr, String, List}

-- The `message` of the object that an HttpException carries.
pub data Message : Type 0 where
  one : String → Message
  many : List String → Message
  missing : Message

-- What `getResponse()` returns: a text or an object.
pub data Response : Type 0 where
  text : String → Response
  object : Message → Response

pub record HttpException : Type 0 where
  pub status : ℕ
  pub message : String
  pub response : Response

pub data Exception : Type 0 where
  http : HttpException → Exception
  -- a PrismaClientKnownRequestError with its code
  prisma : String → Exception
  unexpected : String → Exception

pub data Outcome {ℓ} (A : Type ℓ) : Type ℓ where
  ok : A → Outcome A
  err : Exception → Outcome A

-- Nest's exception classes carry these statuses, and their message inside an object.
abbrev http_error : ℕ → String → Exception
http_error status message =
    http (record { status = status; message = message; response = object (one message) })

abbrev pub bad_request : String → Exception
bad_request = http_error 400

abbrev pub unauthorized : String → Exception
unauthorized = http_error 401

abbrev pub forbidden : String → Exception
forbidden = http_error 403

abbrev pub not_found : String → Exception
not_found = http_error 404

abbrev pub conflict : String → Exception
conflict = http_error 409

-- `new HttpException(message, HttpStatus.TOO_MANY_REQUESTS)`: the response is the text itself.
abbrev pub too_many_requests : String → Exception
too_many_requests message =
    http (record { status = 429; message = message; response = text message })

abbrev pub Action : Type 0 → Type 0 → Type 0
Action W A = W → Outcome A × W

module _ {W : Type 0} where
  abbrev pub pure : {A : Type 0} → A → Action W A
  pure a w = (ok a, w)

  abbrev pub throw : {A : Type 0} → Exception → Action W A
  throw e w = (err e, w)

  abbrev pub after : {A B : Type 0} → Outcome A × W → (A → Action W B) → Outcome B × W
  after (ok a, w) f = f a w
  after (err e, w) f = (err e, w)

  infixl 5 ◌>>=◌ ◌>>◌
  abbrev pub ◌>>=◌ : {A B : Type 0} → Action W A → (A → Action W B) → Action W B
  ◌>>=◌ m f w = after (m w) f

  abbrev pub ◌>>◌ : {B : Type 0} → Action W (Unit {0}) → Action W B → Action W B
  m >> k = m >>= λ _. k

pub Outcome-cases {ℓ} :
    {A : Type ℓ} (o : Outcome A) → ((a : A) × (o ≡ ok a)) ⊎ ((e : Exception) × (o ≡ err e))
Outcome-cases (ok a) = inl (a, refl)
Outcome-cases (err e) = inr (e, refl)

after-ok :
    {W A B : Type 0} (o : Outcome A × W) (f : A → Action W B) (w' : W) (b : B)
    → after o f ≡ (ok b, w')
    → (a : A) × (v : W) × (o ≡ (ok a, v)) × (f a v ≡ (ok b, w'))
after-ok (ok a, v) f w' b h = (a, v, refl, h)
after-ok (err e, v) f w' b h = ground arith

-- What a successful chain went through.
pub >>=-ok :
    {W A B : Type 0} (m : Action W A) (f : A → Action W B) (w w' : W) (b : B)
    → (m >>= f) w ≡ (ok b, w')
    → (a : A) × (v : W) × (m w ≡ (ok a, v)) × (f a v ≡ (ok b, w'))
>>=-ok m f w w' b h = after-ok (m w) f w' b h
