-- ===== src/H3/Outcome.antt =====
-- `Result<_, WebTransportError>` of protocol/h3.rs, and the varints with the errors that h3.rs gives
-- them.
use pywebtransport.Base.{ℕ, some}
use pywebtransport.Common.{Bytes, ErrorCode, text}
use pywebtransport.Common.Constants.{err_lib_internal_error}
use pywebtransport.Common.Errors.{WebTransportError}
use pywebtransport.Utils.Varint.{Result, ok, err, read_varint, write_varint}

pub data Outcome {ℓ} (A : Type ℓ) : Type ℓ where
  done : A → Outcome A
  failed : WebTransportError → Outcome A

-- The operator `?`.
infixl 5 ◌>>=◌
abbrev pub ◌>>=◌ {ℓ κ} : {A : Type ℓ} {B : Type κ} → Outcome A → (A → Outcome B) → Outcome B
done a >>= f = f a
failed e >>= f = failed e

abbrev pub encoded : Result Bytes → Outcome Bytes
encoded (ok bytes) = done bytes
encoded (err code) =
    failed (WebTransportError.protocol (some err_lib_internal_error) (text "varint encode failed"))

abbrev pub put_varint : ℕ → Outcome Bytes
put_varint value = encoded (write_varint value)

abbrev pub decoded : ErrorCode → Result (ℕ × Bytes) → Outcome (ℕ × Bytes)
decoded error_code (ok read) = done read
decoded error_code (err code) =
    failed (WebTransportError.protocol (some error_code) (text "varint decode invalid"))

-- A varint that must be there.
abbrev pub get_varint : ErrorCode → Bytes → Outcome (ℕ × Bytes)
get_varint error_code buffer = decoded error_code (read_varint buffer)
