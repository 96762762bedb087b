-- ===== src/Base/Results.antt =====
-- Go results: a value, an error with its message, a nil dereference, or (only in the model of a
-- loop on fuel) no result at all.
use Prim.Native.String.{String}
use mathlib.Core.Path.{◌≡◌, refl}
use mathlib.Core.Logic.{◌↔◌}
use mathlib.Core.Option.{Option, none, some}
use mathlib.Core.Bool.{Bool, true, false, false≢true}
use provider_sdk.Base.Tests.{if◌then◌else◌}
use native.Mathlib.Omega.{arith}

pub data Result {ℓ} (A : Type ℓ) : Type ℓ where
  ok : A → Result A
  err : String → Result A
  panic : Result A
  hang : Result A

module _ {ℓ κ} {A : Type ℓ} {B : Type κ} where
  infixl 5 ◌>>=◌
  abbrev pub ◌>>=◌ : Result A → (A → Result B) → Result B
  hang >>= rest = hang
  panic >>= rest = panic
  err message >>= rest = err message
  ok value >>= rest = rest value

module _ {κ} {B : Type κ} where
  infixl 5 ◌>>◌
  abbrev pub ◌>>◌ : Result (Unit {0}) → Result B → Result B
  first >> second = first >>= λ _. second

-- `error` alone, `nil` being `pass`.
abbrev pub Check : Type 0
Check = Result (Unit {0})

abbrev pub pass : Check
pass = ok tt

-- A use of what a pointer points to.
abbrev pub deref {ℓ} : {A : Type ℓ} → Option A → Result A
deref none = panic
deref (some a) = ok a

pub deref-eq-ok {ℓ} : {A : Type ℓ} (o : Option A) {a : A} → deref o ≡ ok a → o ≡ some a
deref-eq-ok none h = cc
deref-eq-ok (some b) h = cc

-- `if b { return errors.New(message) }`
abbrev pub reject : Bool → String → Check
reject true message = err message
reject false message = pass

-- `if f() != nil { return errors.New(message) }`
abbrev pub relabel {ℓ} : {A : Type ℓ} → Result A → String → Result A
relabel (err m) message = err message
relabel r message = r

-- Whether a call returned no error, where the source discards the error itself.
abbrev pub is_ok {ℓ} : {A : Type ℓ} → Result A → Bool
is_ok (ok a) = true
is_ok _ = false

-- `if f() != nil { return false }` before a test that may panic
abbrev pub when_valid : Check → Result Bool → Result Bool
when_valid (ok a) rest = rest
when_valid (err message) rest = ok false
when_valid panic rest = panic
when_valid hang rest = hang

-- A sequence that returned a value went through each of its steps.
module _ {ℓ κ} {A : Type ℓ} {B : Type κ} where
  pub >>=-eq-ok :
      (step : Result A) (rest : A → Result B) {value : B}
      → (step >>= rest) ≡ ok value
      → (given : A) × (step ≡ ok given) × (rest given ≡ ok value)
  >>=-eq-ok (ok given) rest h = (given, refl, h)
  >>=-eq-ok hang rest h = cc
  >>=-eq-ok panic rest h = cc
  >>=-eq-ok (err message) rest h = cc

pub >>-eq-ok {ℓ} :
    {B : Type ℓ} (m : Check) (k : Result B) {b : B} → (m >> k) ≡ ok b → (m ≡ pass) × (k ≡ ok b)
>>-eq-ok (ok a) k h = (refl, h)
>>-eq-ok (err e) k h = cc
>>-eq-ok panic k h = cc
>>-eq-ok hang k h = cc

pub relabel-eq-ok {ℓ} :
    {A : Type ℓ} (r : Result A) (message : String) {a : A} → relabel r message ≡ ok a → r ≡ ok a
relabel-eq-ok (ok b) message h = h
relabel-eq-ok (err m) message h = cc
relabel-eq-ok panic message h = cc
relabel-eq-ok hang message h = cc

pub reject-eq-ok : (b : Bool) (message : String) → reject b message ≡ pass → b ≡ false
reject-eq-ok b message h = ground arith

pub is_ok_iff : (m : Check) → (is_ok m ≡ true) ↔ (m ≡ pass)
is_ok_iff (ok a) = (λ _. refl, λ _. refl)
is_ok_iff (err message) = ground arith
is_ok_iff panic = ground arith
is_ok_iff hang = ground arith

-- The gate of a Boolean test: `if f() != nil { return false }`.
pub gate_iff :
    {P Q : Type 0} (m : Check) (b : Bool)
    → ((m ≡ pass) ↔ P)
    → ((b ≡ true) ↔ Q)
    → ((if is_ok m then b else false) ≡ true) ↔ (P × Q)
gate_iff (ok a) b (to, from) (to', from') = (λ h. (to refl, to' h), λ h. from' h.1)
gate_iff (err message) b (to, from) _ = (λ h. absurd (cc h), λ h. absurd (cc (from h.0)))
gate_iff panic b (to, from) _ = (λ h. absurd (cc h), λ h. absurd (cc (from h.0)))
gate_iff hang b (to, from) _ = (λ h. absurd (cc h), λ h. absurd (cc (from h.0)))

pub when_valid-eq-true :
    (m : Check) (rest : Result Bool) → when_valid m rest ≡ ok true → (m ≡ pass) × (rest ≡ ok true)
when_valid-eq-true (ok a) rest h = (refl, h)
when_valid-eq-true (err message) rest h = absurd (false≢true (cc h))
when_valid-eq-true panic rest h = cc
when_valid-eq-true hang rest h = cc

-- `if !a { return false }; return b`, for tests that may panic
pub and_then-eq-true :
    (a b : Result Bool)
    → (a >>= λ good. if good then b else ok false) ≡ ok true
    → (a ≡ ok true) × (b ≡ ok true)
and_then-eq-true (ok true) b h = (refl, h)
and_then-eq-true (ok false) b h = absurd (false≢true (cc h))
and_then-eq-true (err message) b h = cc
and_then-eq-true panic b h = cc
and_then-eq-true hang b h = cc

pub if_false-eq-true :
    (b : Bool) (r : Result Bool)
    → (if b then r else ok false) ≡ ok true
    → (b ≡ true) × (r ≡ ok true)
if_false-eq-true true r h = (refl, h)
if_false-eq-true false r h = absurd (false≢true (cc h))

pub ok_of : {A : Type 0} {a b : A} → ok a ≡ ok b → a ≡ b
ok_of e = cc
