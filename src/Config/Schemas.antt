-- ===== src/Config/Schemas.antt =====
-- The outcome of a schema of zod, as `safeParse` has it.
use hotel_crm.Prelude.{String, List, ◌++◌}

pub record Issue : Type 0 where
  pub variable : String
  pub message : String

-- What a schema makes of a value: its output, or the issues.
pub data Parsed (A : Type 0) : Type 0 where
  parsed : A → Parsed A
  failed : List Issue → Parsed A

-- An object's schema gathers the issues of all its members.
infixl 5 ◌<*>◌
abbrev pub ◌<*>◌ : {A B : Type 0} → Parsed (A → B) → Parsed A → Parsed B
parsed f <*> parsed a = parsed (f a)
parsed f <*> failed ys = failed ys
failed xs <*> parsed a = failed xs
failed xs <*> failed ys = failed (xs ++ ys)
