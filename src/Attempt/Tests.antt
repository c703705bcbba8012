-- ===== src/Attempt/Tests.antt =====
-- Programs that raise errors within one another's attempts, and a message.
use libcdsa.Base.{ℕ, ◌≡◌, refl, Option, none, some, List, [], ◌∷◌}
use libcdsa.Core.{Error, null_pointer}
use libcdsa.Attempt.{
  Program, done, raises, attempts, exited, run, initial, format_error, set_error, isolate_error,
  capture_error,
}
use libcdsa.Attempt.Isolation.{uncaught, EndsAs, run_isolates}
use libcdsa.Attempt.Message.{Formatted, format_error-Formatted}

-- A constructor that hands on the error of another, as `deque_from` does.
abbrev hands_on : Option Error → Program
hands_on none = done
hands_on (some e) = raises e done

abbrev nested : Program
nested = attempts (raises null_pointer done) hands_on

run_isolates_example : EndsAs (uncaught nested) (run nested initial)
run_isolates_example = run_isolates nested none

nested_exits : run nested initial ≡ exited null_pointer
unfolding run set_error isolate_error capture_error
nested_exits = refl

abbrev name : List ℕ
name = 69 ∷ 82 ∷ 82 ∷ []

format_error-Formatted_example :
    Formatted name (98 ∷ 58 ∷ 99 ∷ []) (102 ∷ []) (format_error name (98 ∷ 58 ∷ 99 ∷ []) (102 ∷ []))
format_error-Formatted_example = format_error-Formatted name (98 ∷ 58 ∷ 99 ∷ []) (102 ∷ []) refl
