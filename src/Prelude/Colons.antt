-- ===== src/Prelude/Colons.antt =====
-- Texts that are joined by colons can be told apart by their parts.
use Prim.Native.Nat.{ℕ}
use Prim.Native.Char.{Char, char, code}
use Prim.Native.String.append
use Prim.Native.String.{String, [], ◌∷◌, ◌++◌}
use mathlib.Core.Path.{◌≡◌, refl, sym, ap, ap₂, ◌∙◌}
use mathlib.Core.Logic.{◌≢◌}
use text.Mathlib.TextEquality.{Char-path}

abbrev colon : ℕ
colon = 58

-- A text without a colon.
abbrev pub IsColonFree : String → Type 0
IsColonFree [] = Unit
IsColonFree (c ∷ s) = (code c ≢ colon) × IsColonFree s

first_code : String → ℕ
first_code [] = 0
first_code (c ∷ s) = code c

rest : String → String
rest [] = []
rest (c ∷ s) = s

first_code-colon : (s : String) → first_code ([] ++ (":" ++ s)) ≡ colon
unfolding first_code
first_code-colon s = rw (append.nil (":" ++ s)) (ap first_code (append.cons (char 58 tt) [] s))

rest-colon : (s : String) → rest ([] ++ (":" ++ s)) ≡ s
unfolding rest
rest-colon s = rw (append.nil (":" ++ s)) (ap rest (append.cons (char 58 tt) [] s) ∙ append.nil s)

first_code-cons : (c : Char) (a s : String) → first_code ((c ∷ a) ++ s) ≡ code c
unfolding first_code
first_code-cons c a s = ap first_code (append.cons c a s)

rest-cons : (c : Char) (a s : String) → rest ((c ∷ a) ++ s) ≡ a ++ s
unfolding rest
rest-cons c a s = ap rest (append.cons c a s)

-- Where the first parts have no colon, both parts of equal texts are equal.
pub colon-injective :
    (a b s t : String)
    → IsColonFree a
    → IsColonFree b
    → a ++ (":" ++ s) ≡ b ++ (":" ++ t)
    → (a ≡ b) × (s ≡ t)
colon-injective [] [] s t h k e = (refl, sym (rest-colon s) ∙ ap rest e ∙ rest-colon t)
colon-injective [] (d ∷ b) s t h (k, _) e =
    absurd (k (sym (first_code-cons d b _) ∙ sym (ap first_code e) ∙ first_code-colon s))
colon-injective (c ∷ a) [] s t (h, _) k e =
    absurd (h (sym (first_code-cons c a _) ∙ ap first_code e ∙ first_code-colon t))
colon-injective (c ∷ a) (d ∷ b) s t (_, h) (_, k) e =
    let head = sym (first_code-cons c a _) ∙ ap first_code e ∙ first_code-cons d b _ in
    let tail = sym (rest-cons c a _) ∙ ap rest e ∙ rest-cons d b _ in
    let (same, others) = colon-injective a b s t h k tail in
    (ap₂ (λ x y. x ∷ y) (Char-path c d head) same, others)

cancelled : (c : Char) (u s t : String) → (c ∷ u) ++ s ≡ (c ∷ u) ++ t → u ++ s ≡ u ++ t
cancelled c u s t e = sym (rest-cons c u s) ∙ ap rest e ∙ rest-cons c u t

pub append-cancel : (u s t : String) → u ++ s ≡ u ++ t → s ≡ t
append-cancel [] s t e = sym (append.nil s) ∙ e ∙ append.nil t
append-cancel (c ∷ u) s t e = append-cancel u s t (cancelled c u s t e)
