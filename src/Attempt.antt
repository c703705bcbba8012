-- ===== src/Attempt.antt =====
-- src/core/errors.c: the error context of a thread, and programs that raise errors and isolate them
-- with `attempt` of src/core/errors.h. Strings are lists of character codes without the final 0, and
-- the formatting of a message by `vsnprintf` is done before: `text` is the formatted text.
pub mod Isolation
pub mod Message
mod Tests
use libcdsa.Base.{
  ℕ, zero, suc, ◌+◌, ◌-◌, Bool, true, false, ◌&&◌, Option, none, some, List, [], ◌∷◌, ◌++◌, ltb,
  ◌==◌, if◌then◌else◌, take, length,
}
use libcdsa.Core.{Error}

abbrev pub max_message_length : ℕ
max_message_length = 256

-- `error` is `none` for NO_ERROR. The message buffer is modelled apart, below.
pub record ErrorContext : Type 0 where
  pub error : Option Error
  pub scope : ℕ
  pub abort : Bool

-- `error_context` when a thread starts.
abbrev pub initial : ErrorContext
initial = record { error = none; scope = 0; abort = true }

unfoldable pub isolate_error : ErrorContext → ErrorContext
isolate_error context = record { error = none; scope = context.scope + 1; abort = false }

-- `none` where the assertion on the scope fails.
unfoldable pub capture_error : ErrorContext → Option (Option Error × ErrorContext)
capture_error context =
    if ltb 0 context.scope
    then some (context.error, record { error = none; scope = context.scope - 1; abort = true })
    else none

-- How `set_error` ends: the process goes on, or exits after printing the message.
pub data Raised : Type 0 where
  goes_on : ErrorContext → Raised
  exits : Raised

unfoldable pub set_error : Error → ErrorContext → Raised
set_error error context =
    if context.abort && context.scope == 0
    then exits
    else goes_on (record context { error = some error })

-- What a function of the library or a client does with errors: it ends; it raises an error and goes
-- on; or it evaluates a call under `attempt` and goes on from the error captured.
pub data Program : Type 0 where
  done : Program
  raises : Error → Program → Program
  attempts : Program → (Option Error → Program) → Program

pub data Ending : Type 0 where
  finished : ErrorContext → Ending
  exited : Error → Ending
  assertion_failed : Ending

-- The rest of a program after a call.
abbrev pub and_then : Ending → (ErrorContext → Ending) → Ending
and_then (finished context) rest = rest context
and_then (exited e) rest = exited e
and_then assertion_failed rest = assertion_failed

abbrev pub after_raise : Error → Raised → (ErrorContext → Ending) → Ending
after_raise e (goes_on context) rest = rest context
after_raise e exits rest = exited e

abbrev pub after_capture :
    Option (Option Error × ErrorContext) → (Option Error → ErrorContext → Ending) → Ending
after_capture none rest = assertion_failed
after_capture (some (e, context)) rest = rest e context

-- `attempt(expression)` is `(isolate_error(), (expression), capture_error())`.
unfoldable pub run : Program → ErrorContext → Ending
run done context = finished context
run (raises e p) context = after_raise e (set_error e context) (λ after. run p after)
run (attempts body rest) context =
    and_then (run body (isolate_error context))
      (λ inner. after_capture (capture_error inner) (λ e outer. run (rest e) outer))

-- The characters ':' and ' '.
abbrev pub colon : ℕ
colon = 58

abbrev pub space : ℕ
space = 32

-- "\n\tat %s()\n"
abbrev pub location_text : List ℕ → List ℕ
location_text function = 10 ∷ 9 ∷ 97 ∷ 116 ∷ 32 ∷ function ++ 40 ∷ 41 ∷ 10 ∷ []

-- The two strings that `set_error` leaves in the buffer: the message, and behind its final 0 the
-- location, which `snprintf` cuts off at the end of the buffer. `none` where an assertion on the
-- length fails.
unfoldable pub format_error : List ℕ → List ℕ → List ℕ → Option (List ℕ × List ℕ)
format_error name text function =
    let message = name ++ colon ∷ space ∷ text in
    let location = location_text function in
    let location_offset = length message + 1 in
    if ltb (length name + 2) max_message_length
      && ltb (length message) max_message_length
      && ltb (length message + length location) max_message_length
    then some (message, take (max_message_length - location_offset - 1) location)
    else none

-- A string from its second character on.
abbrev pub after_space : List ℕ → List ℕ
after_space [] = []
after_space (c ∷ cs) = cs

-- The loop of `error_description`, which returns `error_context.message + i + 2` at a colon: `at` is
-- what the loop has still to read, and `message` what it returns where it finds none.
unfoldable pub description_loop : List ℕ → List ℕ → List ℕ
description_loop message [] = message
description_loop message (c ∷ cs) =
    let rest = description_loop message cs in if c == colon then after_space cs else rest

unfoldable pub error_description : List ℕ → List ℕ
unfolding description_loop
error_description message = description_loop message message
