-- ===== src/Python/Results.antt =====
-- Results of Python code that may raise: chains of them, optional values, and what is known of a
-- chain that returned.
use scheduler_simulator.Prelude.{◌≡◌, refl, Bool, true, false, Option, none, some}

-- The classes of the exceptions that are raised; their messages are left out.
pub data Exception : Type 0 where
  value_error type_error key_error attribute_error overflow_error recursion_error system_exit :
      Exception

pub data Result {ℓ} (A : Type ℓ) : Type ℓ where
  ok : A → Result A
  err : Exception → Result A

infixl 5 ◌>>=◌ ◌>>◌
abbrev pub ◌>>=◌ {ℓ κ} : {A : Type ℓ} {B : Type κ} → Result A → (A → Result B) → Result B
err raised >>= next = err raised
ok a >>= next = next a

abbrev pub ◌>>◌ {ℓ} : {B : Type ℓ} → Result (Unit {0}) → Result B → Result B
first >> second = first >>= λ _. second

-- `if not test: raise e`
abbrev pub check : Bool → Exception → Result (Unit {0})
check true e = ok tt
check false e = err e

abbrev pub is_some {ℓ} : {A : Type ℓ} → Option A → Bool
is_some none = false
is_some (some a) = true

abbrev pub default_to {ℓ} : {A : Type ℓ} → Option A → A → A
default_to none d = d
default_to (some a) d = a

-- `if x is None: raise e`
abbrev pub require {ℓ} : {A : Type ℓ} → Exception → Option A → Result A
require e none = err e
require e (some a) = ok a

-- A chain that returned is taken apart from the left.
pub on_ok {ℓ κ μ} :
    {A : Type ℓ} {B : Type κ} {C : Type μ} (m : Result A) (f : A → Result B) {b : B}
    → (m >>= f) ≡ ok b
    → ((a : A) → m ≡ ok a → f a ≡ ok b → C)
    → C
on_ok (ok a) f h go = go a refl h
on_ok (err e) f h go = absurd (cc)

pub ok-injective {ℓ} : {A : Type ℓ} {a b : A} → ok a ≡ ok b → a ≡ b
ok-injective h = cc

pub check-eq-ok : (b : Bool) (e : Exception) {u : Unit {0}} → check b e ≡ ok u → b ≡ true
check-eq-ok true e h = refl
check-eq-ok false e h = absurd (cc)

pub require-eq-ok {ℓ} :
    {A : Type ℓ} (e : Exception) (o : Option A) {a : A} → require e o ≡ ok a → o ≡ some a
require-eq-ok e none h = absurd (cc)
require-eq-ok e (some b) h = cc

-- A chain returns if each of its parts does.
abbrev pub Returns {ℓ} : {A : Type ℓ} → Result A → Type ℓ
Returns {A = A} m = (a : A) × (m ≡ ok a)

pub Returns-bind {ℓ κ} :
    {A : Type ℓ} {B : Type κ} (m : Result A) (f : A → Result B)
    → Returns m
    → ((a : A) → m ≡ ok a → Returns (f a))
    → Returns (m >>= f)
Returns-bind (ok a) f r go = go a refl
Returns-bind (err e) f (a, p) go = absurd (cc)

pub Returns-require {ℓ} :
    {A : Type ℓ} (e : Exception) (o : Option A) → is_some o ≡ true → Returns (require e o)
Returns-require e none h = absurd (cc)
Returns-require e (some a) h = (a, refl)

pub Returns-check : (b : Bool) (e : Exception) → b ≡ true → Returns (check b e)
Returns-check true e h = (tt, refl)
Returns-check false e h = absurd (cc)
