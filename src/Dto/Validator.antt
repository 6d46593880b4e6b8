-- ===== src/Dto/Validator.antt =====
-- class-validator, class-transformer and Nest's ValidationPipe, each operation with what is
-- documented of it.
use hotel_crm.Prelude.{
  ℕ, ◌≤◌, ◌≡◌, ◌≢◌, String, Bool, true, Option, none, some, List, [], ◌∷◌, All, Memᴰ, if◌then◌else◌,
  str_eq, ◌⊎◌,
}
use mathlib.Core.Option
use hotel_crm.Platform.Results.{Outcome, Exception, ok, err, http, object, many}

-- What a value of JavaScript is: `typeof` and `Array.isArray`. A number that is no natural number,
-- such as NaN, is `other_number`.
pub data Shape (V : Type 0) : Type 0 where
  undefined null object_value other_number : Shape V
  boolean : Bool → Shape V
  natural : ℕ → Shape V
  text : String → Shape V
  array : List V → Shape V

-- The decorators that the DTOs use, less @IsOptional and @Type. `_each` has `{ each: true }`.
pub data Decorator : Type 0 where
  is_string is_email is_array is_boolean is_int is_not_empty is_string_each : Decorator
  min_length min max : ℕ → Decorator
  is_in is_in_each : List String → Decorator

-- A property of a DTO: @IsOptional, @Type(() => Number), its initial value, and its decorators.
pub record Property : Type 0 where
  pub name : String
  pub optional : Bool
  pub to_number : Bool
  pub initial : Option ℕ
  pub decorators : List Decorator

abbrev pub Dto : Type 0
Dto = List Property

-- The properties of a body or of a query, each with its value.
abbrev pub Plain : Type 0 → Type 0
Plain V = List (String × V)

abbrev pub Is : {V : Type 0} → (V → Shape V) → String → V → Type 0
Is shape s v = shape v ≡ text s

-- A text of the list.
abbrev pub IsOneOf : {V : Type 0} → (V → Shape V) → List String → V → Type 0
IsOneOf shape l v = (s : String) × (shape v ≡ text s) × Memᴰ s l

abbrev pub IsText : {V : Type 0} → (V → Shape V) → V → Type 0
IsText shape v = (s : String) × (shape v ≡ text s)

abbrev pub IsNullish : {V : Type 0} → Shape V → Type 0
IsNullish s = s ≡ undefined ⊎ s ≡ null

pub record Validator (V : Type 0) : Type 0 where
  pub shape : V → Shape V
  pub undefined_value : V
  pub shape-undefined_value : shape undefined_value ≡ undefined
  pub number_value : ℕ → V
  pub shape-number_value : (n : ℕ) → shape (number_value n) ≡ natural n
  -- `Number(v)`
  pub number_of : V → V
  pub shape-number_of :
      (v : V) → ((n : ℕ) × (shape (number_of v) ≡ natural n)) ⊎ (shape (number_of v) ≡ other_number)
  -- Whether a decorator accepts a value.
  pub accepts : Decorator → V → Bool
  pub is_email_text : String → Bool
  pub text_length : String → ℕ
  pub accepts-is_string : (v : V) → accepts is_string v ≡ true → IsText shape v
  pub accepts-is_email :
      (v : V)
      → accepts is_email v ≡ true
      → (s : String) × (shape v ≡ text s) × (is_email_text s ≡ true)
  pub accepts-is_array : (v : V) → accepts is_array v ≡ true → (l : List V) × (shape v ≡ array l)
  pub accepts-is_boolean :
      (v : V) → accepts is_boolean v ≡ true → (b : Bool) × (shape v ≡ boolean b)
  pub accepts-is_not_empty :
      (v : V) (s : String) → shape v ≡ text s → accepts is_not_empty v ≡ true → s ≢ ""
  pub accepts-min_length :
      (v : V) (s : String) (n : ℕ)
      → shape v ≡ text s
      → accepts (min_length n) v ≡ true
      → n ≤ text_length s
  pub accepts-is_in : (v : V) (l : List String) → accepts (is_in l) v ≡ true → IsOneOf shape l v
  pub accepts-is_string_each :
      (v : V) (l : List V)
      → shape v ≡ array l
      → accepts is_string_each v ≡ true
      → All (IsText shape) l
  pub accepts-is_in_each :
      (v : V) (l : List V) (texts : List String)
      → shape v ≡ array l
      → accepts (is_in_each texts) v ≡ true
      → All (IsOneOf shape texts) l
  pub accepts-is_int_min :
      (v : V) (m : ℕ)
      → accepts is_int v ≡ true
      → accepts (min m) v ≡ true
      → (n : ℕ) × (shape v ≡ natural n) × (m ≤ n)
  pub accepts-max : (v : V) (n m : ℕ) → shape v ≡ natural n → accepts (max m) v ≡ true → n ≤ m

-- The value of a property.
abbrev pub property : {V : Type 0} → String → Plain V → Option V
property name [] = none
property name ((key, v) ∷ rest) = if str_eq key name then some v else property name rest

module _ {V : Type 0} (validator : Validator V) where
  -- The value that an instance of the class gets: what the request gives, as a number with
  -- `@Type(() => Number)`, and otherwise the initial value.
  abbrev pub converted : Bool → V → V
  converted to_number v = if to_number then validator.number_of v else v

  abbrev pub initial_value : Option ℕ → V
  initial_value none = validator.undefined_value
  initial_value (some n) = validator.number_value n

  abbrev pub given_or : Property → Option V → V
  given_or p none = initial_value p.initial
  given_or p (some v) = converted p.to_number v

  abbrev pub assigned : Property → Plain V → V
  assigned p plain = given_or p (property p.name plain)

  -- `instance.name`
  abbrev pub read : String → Plain V → V
  read name instance_ = Option.get_or (property name instance_) validator.undefined_value

  -- @IsOptional lets `null` and `undefined` pass, and every other value meets all decorators.
  abbrev pub Meets : Property → V → Type 0
  Meets p v =
      (p.optional ≡ true × IsNullish (validator.shape v))
      ⊎ All (λ d. validator.accepts d v ≡ true) p.decorators

  abbrev pub IsDeclared : Dto → String → Type 0
  IsDeclared dto key = (p : Property) × Memᴰ p dto × (p.name ≡ key)

  -- `new ValidationPipe({ whitelist: true, forbidNonWhitelisted: true, transform: true })`: the
  -- instance of the class, or the exception with a message for each constraint that is not met.
  pub record ValidationPipe : Type 0 where
    pub transform : Dto → Plain V → Outcome (Plain V)
    pub transform-ok :
        (dto : Dto) (plain instance_ : Plain V)
        → transform dto plain ≡ ok instance_
        → All (λ entry. IsDeclared dto entry.0) plain
          × All (λ p. (read p.name instance_ ≡ assigned p plain) × Meets p (assigned p plain)) dto
    pub transform-err :
        (dto : Dto) (plain : Plain V) (e : Exception)
        → transform dto plain ≡ err e
        → (messages : List String) × (e
            ≡ http (record {
              status = 400;
              message = "Bad Request Exception";
              response = object (many messages);
            }))
