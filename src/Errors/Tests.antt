-- ===== src/Errors/Tests.antt =====
-- Concrete exceptions and their translations.
use krossdb.Common.{ℕ, none, true, [], ◌∷◌, ◌≡◌, raise}
use krossdb.Errors.{RawException, driver, is_subclass, krossdb_error, deadlock_detected_error}
use krossdb.Errors.Hierarchy.{krossdb_error-root}
use krossdb.Errors.Mapper.{Registry, translate_exceptions, generic_mapper}
use krossdb.Errors.Mapper.Laws.{translate_exceptions_total, IsTranslated}

-- A builtin `TimeoutError`.
abbrev slow : RawException
slow = record {
  type_name = "TimeoutError";
  text = "";
  instance_of = λ c. true;
  code = none;
  status_code = none;
  orig = none;
}

abbrev mappers : Registry
mappers = ("generic", generic_mapper) ∷ []

krossdb_error-root_example : is_subclass deadlock_detected_error krossdb_error ≡ true
krossdb_error-root_example = (krossdb_error-root deadlock_detected_error 3).0

translate_exceptions_total_example :
    IsTranslated
      (translate_exceptions {S = ℕ} {A = ℕ} mappers [] (λ s. (raise (driver slow), s)) 0).0
translate_exceptions_total_example =
    (translate_exceptions_total {S = ℕ} {A = ℕ} mappers [] (λ s. (raise (driver slow), s)) 0).1
