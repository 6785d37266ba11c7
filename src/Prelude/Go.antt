-- ===== src/Prelude/Go.antt =====
-- Go's outcomes: a value, a returned error, or a run-time panic (an index or a slice out of range).
-- `out_of_fuel` is no outcome of Go: a model's loop has used up its bound.
use Prim.Native.Nat.{ℕ}
use mathlib.Core.Path.{◌≡◌, refl, subst}
use ntp.Prelude.Tests.{if◌then◌else◌}
use mathlib.Core.Bool.{Bool, true, false}

-- The errors that the modelled functions return, one for each message.
pub data Error : Type 0 where
  eof : Error
  unexpected_eof : Error
  not_enough_buffer : Error
  not_enough_data : Error
  wrong_message : Error
  unsupported_type : Error
  unsupported_length : Error
  unsupported_operation : Error
  unsupported_version : Error
  malformed : Error
  no_tlvs : Error
  no_data : Error
  denied : Error
  error_status : Error
  unexpected_grant : Error
  io : Error
  management_error : ℕ → Error

pub data Result {ℓ} (A : Type ℓ) : Type ℓ where
  ok : A → Result A
  err : Error → Result A
  panic : Result A
  out_of_fuel : Result A

-- `if !test { return why }`.
abbrev pub guard : (test : Bool) (why : Error) → Result (Unit {0})
guard false why = err why
guard true why = ok tt

infixl 5 ◌>>=◌ ◌>>◌
abbrev pub ◌>>=◌ {ℓ κ} : {A : Type ℓ} {B : Type κ} (r : Result A) (next : A → Result B) → Result B
out_of_fuel >>= next = out_of_fuel
panic >>= next = panic
err why >>= next = err why
ok value >>= next = next value

abbrev pub ◌>>◌ {ℓ} : {B : Type ℓ} (test : Result (Unit {0})) (next : Result B) → Result B
test >> next = test >>= λ done. next

-- A chain that succeeds, taken apart at its first step.
pub >>=-eq-ok {ℓ κ} :
    {A : Type ℓ} {B : Type κ} (r : Result A) (next : A → Result B) {end : B}
    → (r >>= next) ≡ ok end
    → (value : A) × (r ≡ ok value) × (next value ≡ ok end)
>>=-eq-ok out_of_fuel next fails = cc
>>=-eq-ok panic next fails = cc
>>=-eq-ok (err why) next fails = cc
>>=-eq-ok (ok value) next end_is = (value, refl, end_is)

-- What holds of the value when a computation succeeds.
abbrev ValueHas {ℓ κ} : {A : Type ℓ} (P : A → Type κ) → Result A → Type κ
ValueHas P (ok value) = P value
ValueHas P (err why) = Unit
ValueHas P panic = Unit
ValueHas P out_of_fuel = Unit

pub data Holds {ℓ κ} {A : Type ℓ} (P : A → Type κ) : Result A → Type (ℓ ⊔ κ) where
  holds_ok : {value : A} → P value → Holds P (ok value)
  holds_err : {why : Error} → Holds P (err why)
  holds_panic : Holds P panic
  holds_out_of_fuel : Holds P out_of_fuel

pub Holds-bind {ℓ κ μ} :
    {A : Type ℓ} {B : Type κ} (P : B → Type μ) (r : Result A) (next : A → Result B)
    → ((value : A) → r ≡ ok value → Holds P (next value))
    → Holds P (r >>= next)
Holds-bind P (ok value) next h = h value refl
Holds-bind P (err why) next h = holds_err
Holds-bind P panic next h = holds_panic
Holds-bind P out_of_fuel next h = holds_out_of_fuel

-- A chain whose first step keeps one property from which the rest makes the other.
pub Holds-chain {ℓ κ μ ν} :
    {A : Type ℓ} {B : Type κ} {Q : A → Type μ} {P : B → Type ν} {r : Result A} {next : A → Result B}
    → Holds Q r
    → ((value : A) → Q value → Holds P (next value))
    → Holds P (r >>= next)
Holds-chain (holds_ok q) h = h _ q
Holds-chain holds_err h = holds_err
Holds-chain holds_panic h = holds_panic
Holds-chain holds_out_of_fuel h = holds_out_of_fuel

pub Holds-if {ℓ κ} :
    {A : Type ℓ} {P : A → Type κ} (test : Bool) {r s : Result A}
    → Holds P r
    → Holds P s
    → Holds P (if test then r else s)
Holds-if true h k = h
Holds-if false h k = k

value_has {ℓ κ} : {A : Type ℓ} {P : A → Type κ} {r : Result A} → Holds P r → ValueHas P r
value_has (holds_ok p) = p
value_has holds_err = tt
value_has holds_panic = tt
value_has holds_out_of_fuel = tt

pub Holds-ok {ℓ κ} :
    {A : Type ℓ} (P : A → Type κ) (r : Result A) (value : A) → Holds P r → r ≡ ok value → P value
Holds-ok P r value h e = subst (ValueHas P) (e) (value_has h)
