-- ===== src/Outcome.antt =====
-- How a run of kernel code ends. A panic stops the machine with its
-- message, other code halts it in silence; a fault is a read
-- or write that C leaves undefined, such as one through NULL; a loop with fuel can run out of it.
use vega_os.Base.{◌≡◌, refl, Option, none, some}
use vega_os.Log.{Call}

pub data Outcome (A : Type 0) : Type 0 where
  ok : A → Outcome A
  panicked : Call → Outcome A
  halted : Outcome A
  fault : Outcome A
  out_of_fuel : Outcome A

infixl 5 ◌>>=◌
abbrev pub ◌>>=◌ : {A B : Type 0} → Outcome A → (A → Outcome B) → Outcome B
ok a >>= f = f a
panicked c >>= f = panicked c
halted >>= f = halted
fault >>= f = fault
out_of_fuel >>= f = out_of_fuel

-- `*p` of a pointer that may be NULL.
abbrev pub deref : {A : Type 0} → Option A → Outcome A
deref none = fault
deref (some a) = ok a

-- A sequence that succeeds hands a value from its first part to its second.
pub >>=-parts :
    {A B : Type 0} {b : B} (next : A → Outcome B) (first : Outcome A)
    → (first >>= next) ≡ ok b
    → (a : A) × (next a ≡ ok b) × (first ≡ ok a)
>>=-parts next out_of_fuel success = cc
>>=-parts next fault success = cc
>>=-parts next (panicked c) success = cc
>>=-parts next halted success = cc
>>=-parts next (ok a) success = (a, success, refl)

-- Sequences of sequences, and equal rests after an equal start.
pub >>=-assoc :
    {A B C : Type 0} (o : Outcome A) (f : A → Outcome B) (g : B → Outcome C)
    → (o >>= f >>= g) ≡ (o >>= (λ a. f a >>= g))
>>=-assoc (ok a) f g = refl
>>=-assoc (panicked c) f g = refl
>>=-assoc halted f g = refl
>>=-assoc fault f g = refl
>>=-assoc out_of_fuel f g = refl

pub >>=-cong :
    {A B : Type 0} (o : Outcome A) (f g : A → Outcome B)
    → ((a : A) → f a ≡ g a)
    → (o >>= f) ≡ (o >>= g)
>>=-cong (ok a) f g same = same a
>>=-cong (panicked c) f g same = refl
>>=-cong halted f g same = refl
>>=-cong fault f g same = refl
>>=-cong out_of_fuel f g same = refl

pub ok-injective : {A : Type 0} {a b : A} → ◌≡◌ {A = Outcome A} (ok a) (ok b) → a ≡ b
ok-injective e = cc
