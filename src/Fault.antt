-- ===== src/Fault.antt =====
-- How a call of the program can end otherwise than by returning. Nothing in the program catches an
-- exception, so each of these ends the process (or, for `waiting`, leaves it at the keyboard).
use cli_pos.Base.{Option, none, some}

pub data Fault : Type 0 where
  -- std::stol, std::stoi, std::stod: no number stands at the start of the text
  invalid_argument : Fault
  -- the same functions: the number does not fit the type
  out_of_range : Fault
  -- std::optional::value on an empty optional
  bad_optional_access : Fault
  -- a libpqxx exception: a failed statement, a field that does not convert, a missing row
  pqxx_error : Fault
  -- undefined behaviour of C++: a vector read or erased past its end, an overflowing counter
  undefined : Fault
  -- getch has no key to return: the program waits for input
  waiting : Fault
  -- a bound on the rounds of a loop in this model is used up
  exhausted : Fault

-- What a call of a library that is a parameter of the model can raise.
pub data Exception : Type 0 where
  no_number : Exception
  too_large : Exception
  failed : Exception

pub data Answer {ℓ} (A : Type ℓ) : Type ℓ where
  answer : A → Answer A
  raise : Exception → Answer A

pub data Result {ℓ} (A : Type ℓ) : Type ℓ where
  ok : A → Result A
  err : Fault → Result A

-- `*p` on an optional that must hold a value.
abbrev pub or_fail {ℓ} : {A : Type ℓ} → Option A → Fault → Result A
or_fail none f = err f
or_fail (some a) f = ok a

abbrev pub to_fault : Exception → Fault
to_fault no_number = invalid_argument
to_fault too_large = out_of_range
to_fault failed = pqxx_error

abbrev pub checked {ℓ} : {A : Type ℓ} → Answer A → Result A
checked (answer a) = ok a
checked (raise e) = err (to_fault e)
