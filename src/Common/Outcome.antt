-- ===== src/Common/Outcome.antt =====
-- Go's (value, error) results. A component has an error type of its own.
use mathlib.Core.Path.{◌≡◌, refl}
use mathlib.Core.Logic.{◌⊎◌, ◌≢◌, inl, inr}
use mathlib.Core.Bool.{Bool, true, false}
use mathlib.Core.Option.{Option, none, some}

pub data Result (E A : Type 0) : Type 0 where
  err : E → Result E A
  ok : A → Result E A

-- `if err != nil { return wrapped }`
abbrev pub map_err : {E F A : Type 0} → (E → F) → Result E A → Result F A
map_err wrap (err fault) = err (wrap fault)
map_err wrap (ok value) = ok value

-- `v, err := …; if err != nil { return e }`
abbrev pub or_error : {E A : Type 0} → Option A → E → Result E A
or_error (some value) fault = ok value
or_error none fault = err fault

-- `if !test { return err }`
abbrev pub guard : {E : Type 0} → Bool → E → Result E (Unit {0})
guard false fault = err fault
guard true fault = ok tt

infixl 5 ◌>>=◌
abbrev pub ◌>>=◌ : {E A B : Type 0} → Result E A → (A → Result E B) → Result E B
err fault >>= next = err fault
ok value >>= next = next value

infixl 5 ◌>>◌
abbrev pub ◌>>◌ : {E B : Type 0} → Result E (Unit {0}) → Result E B → Result E B
first >> second = first >>= λ done. second

-- What returned, and what it was made from.
pub Result-cases :
    {E A : Type 0} (r : Result E A) → ((a : A) × (r ≡ ok a)) ⊎ ((e : E) × (r ≡ err e))
Result-cases (err fault) = inr (fault, refl)
Result-cases (ok value) = inl (value, refl)

pub >>=-eq-ok :
    {E A B : Type 0} (first : Result E A) (next : A → Result E B) {b : B}
    → (first >>= next) ≡ ok b
    → (a : A) × (first ≡ ok a) × (next a ≡ ok b)
>>=-eq-ok (err fault) next same = cc
>>=-eq-ok (ok value) next same = (value, refl, same)

pub or_error-eq-ok :
    {E A : Type 0} (found : Option A) (fault : E) {a : A}
    → or_error found fault ≡ ok a
    → found ≡ some a
or_error-eq-ok none fault same = cc
or_error-eq-ok (some value) fault same = cc

pub ok_inj : {E A : Type 0} {a b : A} → ◌≡◌ {A = Result E A} (ok a) (ok b) → a ≡ b
ok_inj same = cc

pub ok-err : {E A : Type 0} {a : A} {e : E} → ◌≢◌ {A = Result E A} (ok a) (err e)
ok-err same = cc

pub map_err-eq-ok :
    {E F A : Type 0} (wrap : E → F) (result : Result E A) {a : A}
    → map_err wrap result ≡ ok a
    → result ≡ ok a
map_err-eq-ok wrap (err fault) same = cc
map_err-eq-ok wrap (ok value) same = cc

pub guard-eq-ok :
    {E : Type 0} (test : Bool) (fault : E) {done : Unit {0}}
    → guard test fault ≡ ok done
    → test ≡ true
guard-eq-ok false fault same = cc
guard-eq-ok true fault same = refl
