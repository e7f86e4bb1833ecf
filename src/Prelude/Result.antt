-- ===== src/Prelude/Result.antt =====
-- The result of code that may throw: the exception's text is kept. Code on fuel may also run out of it.
use mathlib.Core.Path.{◌≡◌}
use mathlib.Core.Bool.{Bool, true, false}
use localsend_handheld.Prelude.Tests.{if◌then◌else◌}
use localsend_handheld.Prelude.Text.{Bytes}

pub data Result {ℓ} (A : Type ℓ) : Type ℓ where
  ok : A → Result A
  err : Bytes → Result A
  out_of_fuel : Result A

infixl 5 ◌>>=◌
abbrev pub ◌>>=◌ {ℓ κ} : {A : Type ℓ} {B : Type κ} → Result A → (A → Result B) → Result B
ok a >>= f = f a
err what >>= f = err what
out_of_fuel >>= f = out_of_fuel

-- A change of the value.
abbrev pub map_ok {ℓ κ} : {A : Type ℓ} {B : Type κ} → (A → B) → Result A → Result B
map_ok f (ok a) = ok (f a)
map_ok f (err what) = err what
map_ok f out_of_fuel = out_of_fuel

-- Code that does not run out of its fuel, with a property of what it returns if it does not throw.
pub data Ensures {ℓ} {A : Type ℓ} (P : A → Type 0) : Result A → Type ℓ where
  holds : {a : A} → P a → Ensures P (ok a)
  rejected : {what : Bytes} → Ensures P (err what)

pub Ensures-bind {ℓ κ} :
    {A : Type ℓ} {B : Type κ} {P : A → Type 0} {Q : B → Type 0} {m : Result A} {f : A → Result B}
    → Ensures P m
    → ((a : A) → P a → Ensures Q (f a))
    → Ensures Q (m >>= f)
Ensures-bind (holds {a} p) k = k a p
Ensures-bind rejected k = rejected

pub Ensures-if {ℓ} :
    {A : Type ℓ} {P : A → Type 0} {x y : Result A} (b : Bool)
    → Ensures P x
    → Ensures P y
    → Ensures P (if b then x else y)
Ensures-if true h k = h
Ensures-if false h k = k

pub Ensures-weaken {ℓ} :
    {A : Type ℓ} {P Q : A → Type 0} {m : Result A}
    → ((a : A) → P a → Q a)
    → Ensures P m
    → Ensures Q m
Ensures-weaken k (holds {a} p) = holds (k a p)
Ensures-weaken k rejected = rejected

pub Ensures-ne-out_of_fuel {ℓ} :
    {A : Type ℓ} {P : A → Type 0} (m : Result A) → Ensures P m → m ≡ out_of_fuel → ⊥
Ensures-ne-out_of_fuel (ok a) h e = cc
Ensures-ne-out_of_fuel (err what) h e = cc
Ensures-ne-out_of_fuel out_of_fuel h e = elim h [ ]
