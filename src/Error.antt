-- ===== src/Error.antt =====
-- src/error.rs: the crate's errors. The formatted messages are left out; the missing path and the
-- two hashes that callers report are kept. `panic` stands for a Rust panic, which unwinds past the
-- `Result` of the function that raised it.
use moonclip.Prelude.{◌≡◌, refl}
use Prim.Native.String.{String}

pub data MoonclipError : Type 0 where
  io serialization compression : MoonclipError
  not_found : String → MoonclipError
  integrity_error : String → String → MoonclipError
  delta storage config : MoonclipError

pub data Result {ℓ} (T : Type ℓ) : Type ℓ where
  panic : Result T
  ok : T → Result T
  err : MoonclipError → Result T

-- The `?` of the source; a panic goes through it.
infixl 5 ◌>>=◌
abbrev pub ◌>>=◌ {ℓ κ} : {T : Type ℓ} {U : Type κ} → Result T → (T → Result U) → Result U
panic >>= next = panic
err failure >>= next = err failure
ok value >>= next = next value

-- A successful sequence comes from successful parts.
pub >>=-eq-ok {ℓ κ} :
    {T : Type ℓ} {U : Type κ} (first : Result T) (next : T → Result U) {result : U}
    → (first >>= next) ≡ ok result
    → (value : T) × (first ≡ ok value) × (next value ≡ ok result)
>>=-eq-ok panic next h = cc
>>=-eq-ok (err failure) next h = cc
>>=-eq-ok (ok value) next h = (value, refl, h)
