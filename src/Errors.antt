-- ===== src/Errors.antt =====
-- asiolib/http-errors.hpp, and the error codes of Boost that the handlers compare with. The value
-- of a code is the bit pattern of an `int`; only whether it is zero, and equality, matter.
use boost_asio_samples.Base.{
  ℕ, Bool, true, false, ◌&&◌, not, ◌≡◌, refl, ap, ◌∙◌, Bytes, codes, ◌==◌, if◌then◌else◌, arith,
}

-- A category is compared by its address; `http_errors` is the one that the library adds.
pub data Category : Type 0 where
  system misc http_errors : Category

abbrev pub category_eq : Category → Category → Bool
category_eq system system = true
category_eq misc misc = true
category_eq http_errors http_errors = true
category_eq _ _ = false

pub record ErrorCode : Type 0 where
  pub value : ℕ
  pub category : Category

-- `boost::system::error_code()`
abbrev pub success : ErrorCode
success = record { value = 0; category = system }

-- `ec.value() != 0`
abbrev pub failed : ErrorCode → Bool
failed ec = not (ec.value == 0)

abbrev pub error_code_eq : ErrorCode → ErrorCode → Bool
error_code_eq a b = a.value == b.value && category_eq a.category b.category

category_eq_refl : (c : Category) → category_eq c c ≡ true
category_eq_refl system = refl
category_eq_refl misc = refl
category_eq_refl http_errors = refl

pub error_code_eq_refl : (e : ErrorCode) → error_code_eq e e ≡ true
error_code_eq_refl e = ground (arith, category_eq_refl e.category)

category_eq-path : (a b : Category) → category_eq a b ≡ true → a ≡ b
category_eq-path system system h = refl
category_eq-path misc misc h = refl
category_eq-path http_errors http_errors h = refl
category_eq-path _ _ h = ground arith

pub error_code_eq-path : (a b : ErrorCode) → error_code_eq a b ≡ true → a ≡ b
error_code_eq-path a b h =
    let value : a.value ≡ b.value = ground arith in
    let category : category_eq a.category b.category ≡ true = ground arith in
    ap (λ v. record { value = v; category = a.category }) value
    ∙ ap (λ c. record { value = b.value; category = c })
        (category_eq-path a.category b.category category)

-- `enum class http_error_codes: int`
pub data HttpErrorCodes : Type 0 where
  invalid_response : HttpErrorCodes

abbrev pub code_value : HttpErrorCodes → ℕ
code_value invalid_response = 1

abbrev pub make_error_code : HttpErrorCodes → ErrorCode
make_error_code error = record { value = code_value error; category = http_errors }

name : Bytes
name = codes "http_errors"

message : ℕ → Bytes
message error =
    if error == code_value invalid_response
    then codes "Server response cannot be parsed!"
    else codes "Unknown error!"

-- The codes of Boost.Asio: none of them is the code of success.
pub record AsioError : Type 0 where
  pub eof : ErrorCode
  pub not_found : ErrorCode
  pub operation_aborted : ErrorCode
  pub eof_failed : failed eof ≡ true
  pub not_found_failed : failed not_found ≡ true
  pub operation_aborted_failed : failed operation_aborted ≡ true

-- The values on Windows.
abbrev pub windows : AsioError
windows = record {
  eof = record { value = 2; category = misc };
  not_found = record { value = 3; category = misc };
  operation_aborted = record { value = 995; category = system };
  eof_failed = refl;
  not_found_failed = refl;
  operation_aborted_failed = refl;
}
