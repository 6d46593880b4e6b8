-- ===== src/Platform/Moves.antt =====
-- Where an action takes the world, as a reflexive and transitive relation of the worlds before and
-- after it.
use hotel_crm.Prelude.{Bool, true, false, if◌then◌else◌}
use hotel_crm.Platform.Results.{Outcome, ok, err, Action, pure, throw, after, ◌>>=◌, Exception}

pub record IsPreorder {W : Type 0} (R : W → W → Type 0) : Type 0 where
  pub reflexive : (w : W) → R w w
  pub transitive : (u v w : W) → R u v → R v w → R u w

pub record Moves {W A : Type 0} (R : W → W → Type 0) (m : Action W A) : Type 0 where
  pub moved : (w : W) → R w (m w).1

module _ {W : Type 0} {R : W → W → Type 0} (order : IsPreorder R) where
  pub pure-Moves : {A : Type 0} (a : A) → Moves R (pure a)
  pure-Moves a = record { moved = λ w. order.reflexive w }

  pub throw-Moves : {A : Type 0} (e : Exception) → Moves {A = A} R (throw e)
  throw-Moves e = record { moved = λ w. order.reflexive w }

  after-moved :
      {A B : Type 0} (u : W) (o : Outcome A × W) (f : A → Action W B)
      → R u o.1
      → ((a : A) → Moves R (f a))
      → R u (after o f).1
  after-moved u (ok a, v) f r h = order.transitive u v _ r ((h a).moved v)
  after-moved u (err e, v) f r h = r

  pub >>=-Moves :
      {A B : Type 0} {m : Action W A} {f : A → Action W B}
      → Moves R m
      → ((a : A) → Moves R (f a))
      → Moves R (m >>= f)
  >>=-Moves {m = m} {f = f} h k = record { moved = λ w. after-moved w (m w) f (h.moved w) k }

  pub if-Moves :
      {A : Type 0} (b : Bool) {m n : Action W A}
      → Moves R m
      → Moves R n
      → Moves R (if b then m else n)
  if-Moves true h k = h
  if-Moves false h k = k
