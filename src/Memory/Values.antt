-- ===== src/Memory/Values.antt =====
-- Values of request bodies, and the decorators on them. Arrays hold texts.
use hotel_crm.Prelude.{
  ℕ, suc, ◌≤◌, ◌≡◌, refl, arith, String, Bool, true, false, not, ◌&&◌, List, [], ◌∷◌, All, Memᴰ,
  map, leb, str_eq, str_eq-true, str_eq_refl, ap, subst, ◌∙◌, ◌⊎◌, inl, inr, ◌≢◌, if◌then◌else◌,
  Bool-cases,
}
use hotel_crm.Dto.Validator.{
  Shape, undefined, null, boolean, natural, text, array, other_number, Decorator, is_string,
  is_email, is_array, is_boolean, is_int, is_not_empty, is_string_each, min_length, min, max, is_in,
  is_in_each, Validator, IsText, IsOneOf,
}

pub data Sample : Type 0 where
  missing nil not_a_number : Sample
  flag : Bool → Sample
  count : ℕ → Sample
  word : String → Sample
  words : List String → Sample

abbrev pub shape : Sample → Shape Sample
shape missing = undefined
shape nil = null
shape not_a_number = other_number
shape (flag b) = boolean b
shape (count n) = natural n
shape (word s) = text s
shape (words l) = array (map word l)

abbrev number_of : Sample → Sample
number_of (count n) = count n
number_of _ = not_a_number

unfoldable pub text_length : String → ℕ
text_length String.[] = 0
text_length (String.◌∷◌ c s) = suc (text_length s)

unfoldable pub member : List String → String → Bool
member [] s = false
member (t ∷ l) s = if str_eq s t then true else member l s

unfoldable pub all_members : List String → List String → Bool
all_members names [] = true
all_members names (s ∷ l) = member names s && all_members names l

unfoldable pub accepts : Decorator → Sample → Bool
accepts is_string (word s) = true
accepts is_email (word s) = not (str_eq s "")
accepts is_array (words l) = true
accepts is_boolean (flag b) = true
accepts is_int (count n) = true
accepts is_not_empty (word s) = not (str_eq s "")
accepts is_string_each (words l) = true
accepts (min_length n) (word s) = leb n (text_length s)
accepts (min n) (count m) = leb n m
accepts (max n) (count m) = leb m n
accepts (is_in names) (word s) = member names s
accepts (is_in_each names) (words l) = all_members names l
accepts _ _ = false

member-Memᴰ : (l : List String) (s : String) → member l s ≡ true → Memᴰ s l
unfolding member
member-Memᴰ [] s h = absurd (ground (arith, h))
member-Memᴰ (t ∷ l) s h = elim (Bool-cases (str_eq s t)) [
  | inl e ↦ Memᴰ.head (str_eq-true s t e)
  | inr e ↦ Memᴰ.tail (member-Memᴰ l s (ground (arith, h, e)))
]

words_lem : (l : List String) → All (IsText shape) (map word l)
words_lem [] = tt
words_lem (s ∷ l) = ((s, refl), words_lem l)

all_members_lem :
    (names l : List String) → all_members names l ≡ true → All (IsOneOf shape names) (map word l)
unfolding all_members
all_members_lem names [] h = tt
all_members_lem names (s ∷ l) h = (
  (s, refl, member-Memᴰ names s (ground (arith, h))),
  all_members_lem names l (ground (arith, h)),
)

pub shape-number_of :
    (v : Sample)
    → ((n : ℕ) × (shape (number_of v) ≡ natural n)) ⊎ (shape (number_of v) ≡ other_number)
shape-number_of (count n) = inl (n, refl)
shape-number_of v = inr refl

pub string_law : (v : Sample) → accepts is_string v ≡ true → IsText shape v
unfolding accepts
string_law (word s) h = (s, refl)
string_law v h = absurd (ground (arith, h))

pub email_law :
    (v : Sample)
    → accepts is_email v ≡ true
    → (s : String) × (shape v ≡ text s) × (not (str_eq s "") ≡ true)
unfolding accepts
email_law (word s) h = (s, refl, h)
email_law v h = absurd (ground (arith, h))

pub array_law : (v : Sample) → accepts is_array v ≡ true → (l : List Sample) × (shape v ≡ array l)
unfolding accepts
array_law (words l) h = (map word l, refl)
array_law v h = absurd (ground (arith, h))

pub boolean_law : (v : Sample) → accepts is_boolean v ≡ true → (b : Bool) × (shape v ≡ boolean b)
unfolding accepts
boolean_law (flag b) h = (b, refl)
boolean_law v h = absurd (ground (arith, h))

text_or_default : Shape Sample → String
text_or_default (text s) = s
text_or_default _ = ""

text_eq : (s t : String) → ◌≡◌ {A = Shape Sample} (text s) (text t) → s ≡ t
unfolding text_or_default
text_eq s t e = ap text_or_default e

natural_or_zero : Shape Sample → ℕ
natural_or_zero (natural n) = n
natural_or_zero _ = 0

natural_eq : (m n : ℕ) → ◌≡◌ {A = Shape Sample} (natural m) (natural n) → m ≡ n
unfolding natural_or_zero
natural_eq m n e = ap natural_or_zero e

elements_of : Shape Sample → List Sample
elements_of (array l) = l
elements_of _ = []

array_eq : (l m : List Sample) → ◌≡◌ {A = Shape Sample} (array l) (array m) → l ≡ m
unfolding elements_of
array_eq l m e = ap elements_of e

pub not_empty_law :
    (v : Sample) (s : String) → shape v ≡ text s → accepts is_not_empty v ≡ true → s ≢ ""
unfolding accepts
not_empty_law (word t) s e h k =
    let same : not (str_eq "" "") ≡ true =
      subst (λ u. not (str_eq u "") ≡ true) (text_eq t s e ∙ k) h in
    absurd (ground (arith, same, str_eq_refl ""))
not_empty_law v s e h k = absurd (ground (arith, h))

pub min_length_law :
    (v : Sample) (s : String) (n : ℕ)
    → shape v ≡ text s
    → accepts (min_length n) v ≡ true
    → n ≤ text_length s
unfolding accepts
min_length_law (word t) s n e h = subst (λ u. n ≤ text_length u) (text_eq t s e) (ground (arith, h))
min_length_law v s n e h = absurd (ground (arith, h))

pub is_in_law : (v : Sample) (l : List String) → accepts (is_in l) v ≡ true → IsOneOf shape l v
unfolding accepts
is_in_law (word s) l h = (s, refl, member-Memᴰ l s h)
is_in_law v l h = absurd (ground (arith, h))

pub string_each_law :
    (v : Sample) (l : List Sample)
    → shape v ≡ array l
    → accepts is_string_each v ≡ true
    → All (IsText shape) l
unfolding accepts
string_each_law (words t) l e h =
    subst (All (IsText shape)) (array_eq (map word t) l e) (words_lem t)
string_each_law v l e h = absurd (ground (arith, h))

pub in_each_law :
    (v : Sample) (l : List Sample) (names : List String)
    → shape v ≡ array l
    → accepts (is_in_each names) v ≡ true
    → All (IsOneOf shape names) l
unfolding accepts
in_each_law (words t) l names e h =
    subst (All (IsOneOf shape names)) (array_eq (map word t) l e) (all_members_lem names t h)
in_each_law v l names e h = absurd (ground (arith, h))

pub int_min_law :
    (v : Sample) (m : ℕ)
    → accepts is_int v ≡ true
    → accepts (min m) v ≡ true
    → (n : ℕ) × (shape v ≡ natural n) × (m ≤ n)
unfolding accepts
int_min_law (count n) m h k = (n, refl, ground (arith, k))
int_min_law v m h k = absurd (ground (arith, h))

pub max_law : (v : Sample) (n m : ℕ) → shape v ≡ natural n → accepts (max m) v ≡ true → n ≤ m
unfolding accepts
max_law (count k) n m e h = ground (arith, h, natural_eq k n e)
max_law v n m e h = absurd (ground (arith, h))

abbrev pub sample_validator : Validator Sample
sample_validator = record {
  shape = shape;
  undefined_value = missing;
  shape-undefined_value = refl;
  number_value = count;
  shape-number_value = λ n. refl;
  number_of = number_of;
  shape-number_of = shape-number_of;
  accepts = accepts;
  is_email_text = λ s. not (str_eq s "");
  text_length = text_length;
  accepts-is_string = string_law;
  accepts-is_email = email_law;
  accepts-is_array = array_law;
  accepts-is_boolean = boolean_law;
  accepts-is_not_empty = not_empty_law;
  accepts-min_length = min_length_law;
  accepts-is_in = is_in_law;
  accepts-is_string_each = string_each_law;
  accepts-is_in_each = in_each_law;
  accepts-is_int_min = int_min_law;
  accepts-max = max_law;
}
