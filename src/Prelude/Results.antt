-- ===== src/Prelude/Results.antt =====
-- Errors as values. An error is the sentinel that `errors.Is` finds; its message is left out.
use mathlib.Core.Path.{◌≡◌, refl}
use mathlib.Core.Bool.{Bool, true, false}
use mathlib.Core.Option.{Option, none, some}

-- domain/errors.go, a cancelled context, and the errors of what the program only calls
pub data Error : Type 0 where
  not_found conflict invalid not_configured key_expired key_revoked : Error
  unauthorized sync_cursor_invalid canceled external : Error

pub data Result {ℓ} (A : Type ℓ) : Type ℓ where
  err : Error → Result A
  ok : A → Result A

infixl 5 ◌>>=◌
abbrev pub ◌>>=◌ {ℓ κ} : {A : Type ℓ} {B : Type κ} → Result A → (A → Result B) → Result B
err failure >>= next = err failure
ok value >>= next = next value

-- errors.Is(err, domain.ErrNotFound)
abbrev pub is_not_found : Error → Bool
is_not_found not_found = true
is_not_found _ = false

-- What `ctx.Err()` returns when it is asked.
abbrev pub Ctx : Type 0
Ctx = Option Error

-- A reader: `if err := ctx.Err(); err != nil { return err }` and then the body.
abbrev pub live {ℓ} : {A : Type ℓ} → Ctx → Result A → Result A
live none r = r
live (some e) r = err e

-- A writer: the same, with the state beside the result.
abbrev pub live_on {ℓ κ} : {S : Type ℓ} {A : Type κ} → Ctx → S → Result A × S → Result A × S
live_on none s r = r
live_on (some e) s r = (err e, s)

-- A map read whose miss is ErrNotFound.
abbrev pub found {ℓ} : {A : Type ℓ} → Option A → Result A
found none = err not_found
found (some a) = ok a

abbrev pub is_ok {ℓ} : {A : Type ℓ} → Result A → Bool
is_ok (ok a) = true
is_ok (err e) = false

-- Inversion of a bind that succeeded.
pub >>=-eq-ok {ℓ κ} :
    {A : Type ℓ} {B : Type κ} (first : Result A) (next : A → Result B) {last : B}
    → (first >>= next) ≡ ok last
    → (value : A) × (first ≡ ok value) × (next value ≡ ok last)
>>=-eq-ok (err failure) next h = cc
>>=-eq-ok (ok value) next h = (value, refl, h)

-- A reader that succeeded was asked on a live context.
pub live-eq-ok {ℓ} :
    {A : Type ℓ} (ctx : Ctx) (r : Result A) {a : A} → live ctx r ≡ ok a → (ctx ≡ none) × (r ≡ ok a)
live-eq-ok none r h = (refl, h)
live-eq-ok (some e) r h = cc

pub err-ne-ok {ℓ} : {A : Type ℓ} {e : Error} {a : A} → err e ≡ ok a → ⊥
err-ne-ok h = cc

pub ok-injective {ℓ} : {A : Type ℓ} {a b : A} → ok a ≡ ok b → a ≡ b
ok-injective h = cc
