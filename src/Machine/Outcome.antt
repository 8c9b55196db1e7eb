-- ===== src/Machine/Outcome.antt =====
-- How a call of the kernel ends.
use kfs.Base.{◌∙◌, ap, ◌≡◌, refl, ℕ, Bool, List, true, false, if◌then◌else◌}

-- The calls of `kpanic_fatal`, one constructor for each message, with the arguments it prints, the
-- shell's `halt`, and a command at which the machine stops or starts again.
pub data Panic : Type 0 where
  pmm_no_memory : Panic
  pmm_out_of_memory : Panic
  pmm_double_free : ℕ → Panic
  kmalloc_out_of_memory : ℕ → Panic
  kfree_double_free : ℕ → Panic
  kfree_invalid : ℕ → ℕ → Panic
  kheap_no_page : ℕ → Panic
  kheap_unmapped : ℕ → Panic
  vmalloc_exceeds : Panic
  vmalloc_no_page : Panic
  vmalloc_unmapped : Panic
  vfree_double_free : ℕ → Panic
  vfree_invalid : ℕ → ℕ → Panic
  vbrk_unmapped : Panic
  write_bios : ℕ → Panic
  write_overflow : List ℕ → ℕ → ℕ → Panic
  read_overflow : List ℕ → ℕ → ℕ → Panic
  halt_command : Panic
  machine_stops : Panic
  bios_access : Panic
  user_access_kernel : Panic
  user_access_supervisor : Panic
  page_fault : Panic

-- `halted` is `kpanic_fatal`, which does not return. `out_of_fuel` marks a loop of the model that
-- was given too few rounds.
pub data Outcome (A : Type 0) : Type 0 where
  ok : A → Outcome A
  halted : Panic → Outcome A
  out_of_fuel : Outcome A

infixl 5 ◌>>=◌
abbrev pub ◌>>=◌ : {A B : Type 0} → Outcome A → (A → Outcome B) → Outcome B
ok a >>= f = f a
halted p >>= f = halted p
out_of_fuel >>= f = out_of_fuel

-- The call panics, or it returns a value for which `P` holds; it does not run out of fuel.
abbrev pub Ends : {A : Type 0} → (A → Type 0) → Outcome A → Type 0
Ends P (ok a) = P a
Ends P (halted p) = Unit {0}
Ends P out_of_fuel = ⊥

pub Ends->>= :
    {A B : Type 0} {P : A → Type 0} (Q : B → Type 0) (o : Outcome A) (f : A → Outcome B)
    → Ends P o
    → ((a : A) → P a → Ends Q (f a))
    → Ends Q (o >>= f)
Ends->>= Q (ok a) f e next = next a e
Ends->>= Q (halted p) f e next = tt
Ends->>= Q out_of_fuel f e next = e

-- A property of the results, for a call that comes to an end.
pub Ends-results :
    {A : Type 0} (P Q : A → Type 0) (o : Outcome A)
    → Ends P o
    → ((a : A) → o ≡ ok a → Q a)
    → Ends Q o
Ends-results P Q (ok a) e f = f a refl
Ends-results P Q (halted p) e f = tt
Ends-results P Q out_of_fuel e f = e

-- what a call that returned behind a guard has gone through
pub guarded-eq-ok :
    {A B : Type 0} (over : Bool) (q : Panic) (o : Outcome A) (f : A → Outcome B) (b : B)
    → (if over then halted q else o >>= f) ≡ ok b
    → (over ≡ false) × ((a : A) × (f a ≡ ok b))
guarded-eq-ok false q (ok a) f b h = (refl, (a, h))
guarded-eq-ok false q (halted p) f b h = absurd (cc)
guarded-eq-ok false q out_of_fuel f b h = absurd (cc)
guarded-eq-ok true q o f b h = absurd (cc)

-- one call after another, in either grouping
pub >>=_assoc :
    {A B C : Type 0} (o : Outcome A) (f : A → Outcome C) (g : A → Outcome B) (h : B → Outcome C)
    → ((a : A) → f a ≡ (g a >>= h))
    → (o >>= f) ≡ (o >>= g >>= h)
>>=_assoc (ok a) f g h same = same a
>>=_assoc (halted p) f g h same = refl
>>=_assoc out_of_fuel f g h same = refl

pub >>=-ok : {A : Type 0} (o : Outcome A) → (o >>= ok) ≡ o
>>=-ok (ok a) = refl
>>=-ok (halted p) = refl
>>=-ok out_of_fuel = refl

-- what a call that returned has gone through
pub >>=-eq-ok :
    {A B : Type 0} (o : Outcome A) (f : A → Outcome B) (b : B)
    → (o >>= f) ≡ ok b
    → (a : A) × (o ≡ ok a) × (f a ≡ ok b)
>>=-eq-ok (ok a) f b h = (a, refl, h)
>>=-eq-ok (halted p) f b h = absurd (cc)
>>=-eq-ok out_of_fuel f b h = absurd (cc)

-- a call whose first part is known
pub >>=-eq-halted :
    {A B : Type 0} (o : Outcome A) (f : A → Outcome B) (q : Panic)
    → o ≡ halted q
    → (o >>= f) ≡ halted q
>>=-eq-halted (ok a) f q h = absurd (cc)
>>=-eq-halted (halted p) f q h = cc
>>=-eq-halted out_of_fuel f q h = absurd (cc)

pub ok->>= :
    {A B : Type 0} (o : Outcome A) (f : A → Outcome B) (a : A) (r : Outcome B)
    → o ≡ ok a
    → f a ≡ r
    → (o >>= f) ≡ r
ok->>= o f a r h k = ap (λ (x : Outcome _). x >>= f) h ∙ k

pub ok-injective : {A : Type 0} (a b : A) → ok a ≡ ok b → a ≡ b
ok-injective a b e = cc
