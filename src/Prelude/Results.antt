-- ===== src/Prelude/Results.antt =====
-- What a call comes to: a value, an error that `?` passes on, or a panic (an `unwrap` that fails).
use mathlib.Core.Path.{◌≡◌, refl}
use mathlib.Core.Option.{Option, none, some}

pub data Error : Type 0 where
  missing_header bad_header bad_body bad_sdp missing_tag : Error
  send_failed channel_closed channel_exists no_media bad_address receiver_taken : Error
  unexpected_response unexpected_status not_connected bad_port_range invalid_byte : Error
  parse_failed no_response codec_failed bad_packet : Error

pub data Outcome {ℓ} (A : Type ℓ) : Type ℓ where
  ok : A → Outcome A
  err : Error → Outcome A
  panic : Outcome A

infixl 5 ◌>>=◌ ◌>>◌
abbrev pub ◌>>=◌ {ℓ κ} : {A : Type ℓ} {B : Type κ} → Outcome A → (A → Outcome B) → Outcome B
ok a >>= f = f a
err e >>= f = err e
panic >>= f = panic

abbrev pub ◌>>◌ {κ} : {B : Type κ} → Outcome (Unit {0}) → Outcome B → Outcome B
m >> k = m >>= λ _. k

-- `ok_or`, and `unwrap` of an option.
abbrev pub ok_or {ℓ} : {A : Type ℓ} → Option A → Error → Outcome A
ok_or none e = err e
ok_or (some a) e = ok a

abbrev pub unwrap {ℓ} : {A : Type ℓ} → Option A → Outcome A
unwrap none = panic
unwrap (some a) = ok a

pub ok_some-injective {ℓ} : {A : Type ℓ} {a b : A} → ok (some a) ≡ ok (some b) → a ≡ b
ok_some-injective p = cc

pub ok-injective {ℓ} : {A : Type ℓ} {a b : A} → ok a ≡ ok b → a ≡ b
ok-injective p = cc

-- A chain that succeeds has succeeded at its first step.
pub begins_well :
    {X Y : Type 0} (later : X → Outcome Y) {y : Y} (first : Outcome X)
    → (first >>= later) ≡ ok y
    → (x : X) × (first ≡ ok x) × (later x ≡ ok y)
begins_well later panic e = cc
begins_well later (err fault) e = cc
begins_well later (ok x) e = (x, refl, e)
