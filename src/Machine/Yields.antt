-- ===== src/Machine/Yields.antt =====
-- What a call yields if it returns: one rule for each way to build a call.
use kfs.Base.{◌≡◌, refl, subst, Bool, true, false, if◌then◌else◌}
use kfs.Machine.Outcome.{Panic, Outcome, ok, halted, out_of_fuel, ◌>>=◌, ok-injective}

-- if the call returns, `P` holds for the result
pub record Yields {A : Type 0} (P : A → Type 0) (o : Outcome A) : Type 0 where
  pub at : (a : A) → o ≡ ok a → P a

module _ {A : Type 0} {P : A → Type 0} where
  pub Yields-ok : (a : A) → P a → Yields P (ok a)
  Yields-ok a h = record { at = λ b e. subst P (ok-injective a b e) h }

  pub Yields-halted : (p : Panic) → Yields P (halted p)
  Yields-halted p = record { at = λ b e. absurd (cc) }

  pub Yields-out_of_fuel : Yields P out_of_fuel
  Yields-out_of_fuel = record { at = λ b e. absurd (cc) }

  pub Yields-if :
      (c : Bool) (o u : Outcome A) → Yields P o → Yields P u → Yields P (if c then o else u)
  Yields-if true o u h k = h
  Yields-if false o u h k = k

module _ {A B : Type 0} {Q : B → Type 0} where
  -- whatever the first call returns
  pub Yields->>= :
      (o : Outcome A) (f : A → Outcome B) → ((a : A) → Yields Q (f a)) → Yields Q (o >>= f)
  Yields->>= (ok a) f h = h a
  Yields->>= (halted p) f h = Yields-halted p
  Yields->>= out_of_fuel f h = Yields-out_of_fuel

  -- with what the first call yields
  pub Yields-after :
      (P : A → Type 0) (o : Outcome A) (f : A → Outcome B)
      → Yields P o
      → ((a : A) → P a → Yields Q (f a))
      → Yields Q (o >>= f)
  Yields-after P (ok a) f y h = h a (y.at a refl)
  Yields-after P (halted p) f y h = Yields-halted p
  Yields-after P out_of_fuel f y h = Yields-out_of_fuel

-- a call within the first call
pub Yields-nested :
    {A B C : Type 0} {Q : C → Type 0} (o : Outcome A) (g : A → Outcome B) (f : B → Outcome C)
    → ((a : A) → Yields Q (g a >>= f))
    → Yields Q (o >>= g >>= f)
Yields-nested (ok a) g f h = h a
Yields-nested (halted p) g f h = Yields-halted p
Yields-nested out_of_fuel g f h = Yields-out_of_fuel
