-- ===== src/Memory/Transform.antt =====
-- The ValidationPipe and ParseUUIDPipe for the values in memory.
use hotel_crm.Prelude.{
  ◌≡◌, refl, ap, arith, String, Bool, true, false, ◌&&◌, ◌||◌, some, List, [], ◌∷◌, All, All-at,
  All-of_at, Memᴰ, str_eq, str_eq-true, str_eq_refl, str_eq_comm, ◌∙◌, inl, inr, not, if◌then◌else◌,
  Bool-cases,
}
use mathlib.Core.Option
use hotel_crm.Platform.Results.{Outcome, ok, err, Exception, http, object, many}
use hotel_crm.Dto.Validator.{
  Shape, undefined, null, Property, Dto, Plain, property, assigned, read, Meets, IsDeclared,
  IsNullish, ValidationPipe, Decorator,
}
use hotel_crm.Dto.Pipes.{UuidPipe, IsBadRequest}
use hotel_crm.Memory.Values.{Sample, sample_validator}

abbrev is_nullish : Shape Sample → Bool
is_nullish undefined = true
is_nullish null = true
is_nullish _ = false

is_nullish-IsNullish : (s : Shape Sample) → is_nullish s ≡ true → IsNullish s
is_nullish-IsNullish undefined h = inl refl
is_nullish-IsNullish null h = inr refl
is_nullish-IsNullish s h = absurd (ground (arith, h))

unfoldable pub declares : Dto → String → Bool
declares [] key = false
declares (p ∷ dto) key = if str_eq p.name key then true else declares dto key

declares-IsDeclared :
    (dto : Dto) (key : String) → declares dto key ≡ true → IsDeclared sample_validator dto key
unfolding declares
declares-IsDeclared [] key h = absurd (ground (arith, h))
declares-IsDeclared (p ∷ dto) key h = elim (Bool-cases (str_eq p.name key)) [
  | inl e ↦ (p, Memᴰ.head refl, str_eq-true p.name key e)
  | inr e ↦
      let (q, m, k) = declares-IsDeclared dto key (ground (arith, h, e)) in (q, Memᴰ.tail m, k)
]

unfoldable pub all_declared : Dto → Plain Sample → Bool
all_declared dto [] = true
all_declared dto (entry ∷ plain) = declares dto entry.0 && all_declared dto plain

all_declared_lem :
    (dto : Dto) (plain : Plain Sample)
    → all_declared dto plain ≡ true
    → All (λ entry. IsDeclared sample_validator dto entry.0) plain
unfolding all_declared
all_declared_lem dto [] h = tt
all_declared_lem dto (entry ∷ plain) h = (
  declares-IsDeclared dto entry.0 (ground (arith, h)),
  all_declared_lem dto plain (ground (arith, h)),
)

unfoldable pub accepts_all : List Decorator → Sample → Bool
accepts_all [] v = true
accepts_all (d ∷ l) v = sample_validator.accepts d v && accepts_all l v

accepts_all_lem :
    (l : List Decorator) (v : Sample)
    → accepts_all l v ≡ true
    → All (λ d. sample_validator.accepts d v ≡ true) l
unfolding accepts_all
accepts_all_lem [] v h = tt
accepts_all_lem (d ∷ l) v h = (ground (arith, h), accepts_all_lem l v (ground (arith, h)))

abbrev meets : Property → Sample → Bool
meets p v = (p.optional && is_nullish (sample_validator.shape v)) || accepts_all p.decorators v

meets-Meets : (p : Property) (v : Sample) → meets p v ≡ true → Meets sample_validator p v
meets-Meets p v h = elim (Bool-cases (accepts_all p.decorators v)) [
  | inl e ↦ inr (accepts_all_lem p.decorators v e)
  | inr e ↦
      inl (
        ground (arith, h, e),
        is_nullish-IsNullish (sample_validator.shape v) (ground (arith, h, e)),
      )
]

unfoldable pub all_met : Dto → Plain Sample → Bool
all_met [] plain = true
all_met (p ∷ dto) plain = meets p (assigned sample_validator p plain) && all_met dto plain

-- No class declares a property twice.
unfoldable pub distinct : Dto → Bool
distinct [] = true
distinct (p ∷ dto) = not (declares dto p.name) && distinct dto

unfoldable pub instance_of : Dto → Plain Sample → Plain Sample
instance_of [] plain = []
instance_of (p ∷ dto) plain = (p.name, assigned sample_validator p plain) ∷ instance_of dto plain

undeclared_name :
    (dto : Dto) (key : String) (p : Property)
    → declares dto key ≡ false
    → Memᴰ p dto
    → str_eq p.name key ≡ false
unfolding declares
undeclared_name [] key p h m = elim m [ ]
undeclared_name (q ∷ dto) key p h (Memᴰ.head e) = rw e (ground (arith, h))
undeclared_name (q ∷ dto) key p h (Memᴰ.tail m) = undeclared_name dto key p (ground (arith, h)) m

property-instance_of :
    (dto : Dto) (plain : Plain Sample) (p : Property)
    → distinct dto ≡ true
    → Memᴰ p dto
    → property p.name (instance_of dto plain) ≡ some (assigned sample_validator p plain)
unfolding distinct instance_of
property-instance_of [] plain p u m = elim m [ ]
property-instance_of (q ∷ dto) plain p u (Memᴰ.head e) = rw (e, str_eq_refl q.name) refl
property-instance_of (q ∷ dto) plain p u (Memᴰ.tail m) =
    let apart : str_eq q.name p.name ≡ false =
      str_eq_comm q.name p.name ∙ undeclared_name dto q.name p (ground (arith, u)) m in
    rw apart (property-instance_of dto plain p (ground (arith, u)) m)

all_met_lem :
    (dto : Dto) (plain : Plain Sample)
    → all_met dto plain ≡ true
    → All (λ p. Meets sample_validator p (assigned sample_validator p plain)) dto
unfolding all_met
all_met_lem [] plain h = tt
all_met_lem (p ∷ dto) plain h =
    (meets-Meets p _ (ground (arith, h)), all_met_lem dto plain (ground (arith, h)))

abbrev refusal : Exception
refusal =
    http (record { status = 400; message = "Bad Request Exception"; response = object (many []) })

abbrev passes : Dto → Plain Sample → Bool
passes dto plain = distinct dto && all_declared dto plain && all_met dto plain

abbrev transform : Dto → Plain Sample → Outcome (Plain Sample)
transform dto plain = if passes dto plain then ok (instance_of dto plain) else err refusal

pub transform-ok :
    (dto : Dto) (plain i : Plain Sample)
    → transform dto plain ≡ ok i
    → All (λ entry. IsDeclared sample_validator dto entry.0) plain
      × All
          (λ p.
            (read sample_validator p.name i ≡ assigned sample_validator p plain)
            × Meets sample_validator p (assigned sample_validator p plain))
          dto
transform-ok dto plain i h = elim (Bool-cases (passes dto plain)) [
  | inr e ↦ absurd (ground (arith, h, e))
  | inl e ↦
      let same : instance_of dto plain ≡ i = ground (arith, h, e) in
      (
        all_declared_lem dto plain (ground (arith, e)),
        All-of_at _ _ λ p m. (
          rw (← same) (
              ap (λ o. Option.get_or o sample_validator.undefined_value)
                (property-instance_of dto plain p (ground (arith, e)) m)),
          All-at _ _ (all_met_lem dto plain (ground (arith, e))) m,
        ),
      )
]

pub transform-err :
    (dto : Dto) (plain : Plain Sample) (e : Exception)
    → transform dto plain ≡ err e
    → (messages : List String) × (e
        ≡ http (record {
          status = 400;
          message = "Bad Request Exception";
          response = object (many messages);
        }))
transform-err dto plain e h = ([], ground (arith, h))

abbrev pub sample_pipe : ValidationPipe sample_validator
sample_pipe = record {
  transform = transform;
  transform-ok = transform-ok;
  transform-err = transform-err;
}

abbrev parse : String → Outcome String
parse s = if str_eq s "" then err refusal else ok s

pub parse-err : (s : String) (e : Exception) → parse s ≡ err e → IsBadRequest e
parse-err s e h = let same : e ≡ refusal = ground (arith, h) in (_, same, refl)

abbrev pub sample_uuids : UuidPipe
sample_uuids = record { parse = parse; parse-err = parse-err }
