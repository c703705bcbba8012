-- ===== src/Attempt/Isolation.antt =====
-- `attempt` against a semantics of programs without a context.
use libcdsa.Base.{
  ℕ, ◌+◌, ◌<◌, ◌≡◌, refl, ap, arith, Bool, true, false, Option, none, some, ◌&&◌, ◌==◌, lt→ltb,
}
use libcdsa.Core.{Error}
use libcdsa.Attempt.{
  ErrorContext, isolate_error, capture_error, goes_on, set_error, Program, done, raises, attempts,
  Ending, finished, exited, run,
}

-- The error on record after a program that runs under an `attempt`, from the one before: the last
-- one raised since the last inner `attempt` ended.
pub recorded : Program → Option Error → Option Error
recorded done e = e
recorded (raises x p) e = recorded p (some x)
recorded (attempts body rest) e = recorded (rest (recorded body none)) none

-- The first error that a program raises outside every `attempt`.
pub uncaught : Program → Option Error
uncaught done = none
uncaught (raises x p) = some x
uncaught (attempts body rest) = uncaught (rest (recorded body none))

-- Under an `attempt` no program exits or fails an assertion, and it leaves the scope as it was.
abbrev pub Contained : Program → ErrorContext → Ending → Type 0
Contained p context ending =
    (flag : Bool) × (ending
      ≡ finished (record { error = recorded p context.error; scope = context.scope; abort = flag }))

set_error_scoped :
    (e : Error) (context : ErrorContext)
    → 0 < context.scope
    → set_error e context ≡ goes_on (record context { error = some e })
unfolding set_error
set_error_scoped e context h =
    let scoped : (context.abort && context.scope == 0) ≡ false = ground arith in rw scoped

capture_error_scoped :
    (e : Option Error) (n : ℕ) (flag : Bool)
    → capture_error (record { error = e; scope = n + 1; abort = flag })
      ≡ some (e, record { error = none; scope = n; abort = true })
unfolding capture_error
capture_error_scoped e n flag =
    rw (lt→ltb 0 (n + 1) (omega arith))
      (ap (λ m. some (e, record { error = none; scope = m; abort = true })) (omega arith))

run-Contained :
    (p : Program) (context : ErrorContext) → 0 < context.scope → Contained p context (run p context)
unfolding run recorded isolate_error
run-Contained done context h = (context.abort, refl)
run-Contained (raises e p) context h =
    rw (set_error_scoped e context h) (run-Contained p (record context { error = some e }) h)
run-Contained (attempts body rest) context h =
    let (flag, inner) = run-Contained body (isolate_error context) (omega arith) in
    rw (inner, capture_error_scoped (recorded body none) context.scope flag)
      (run-Contained (rest (recorded body none))
        (record { error = none; scope = context.scope; abort = true }) h)

-- How a program ends that starts outside every `attempt`.
abbrev pub EndsAs : Option Error → Ending → Type 0
EndsAs (some e) ending = ending ≡ exited e
EndsAs none ending =
    (e : Option Error) × (ending ≡ finished (record { error = e; scope = 0; abort = true }))

-- A program that raises errors and evaluates calls under attempt, nested in any way, ends the
-- process exactly where it raises an error outside every attempt, with the first such error; else
-- it finishes outside every attempt again; what each attempt gives the program is the last error
-- that its expression raised since its last inner attempt, or none, and no assertion on the scope
-- fails.
pub run_isolates :
    (p : Program) (e : Option Error)
    → EndsAs (uncaught p) (run p (record { error = e; scope = 0; abort = true }))
unfolding run uncaught recorded isolate_error set_error
run_isolates done e = (e, refl)
run_isolates (raises x p) e = refl
run_isolates (attempts body rest) e =
    let (flag, inner) =
      run-Contained body (record { error = none; scope = 1; abort = false }) (omega arith) in
    rw (inner, capture_error_scoped (recorded body none) 0 flag)
      (run_isolates (rest (recorded body none)) none)
