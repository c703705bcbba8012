-- ===== src/Base/Ring.antt =====
-- Indices that go round once: the remainder of a number below twice the modulus, and the
-- distinctness of fewer than `c` successive indices.
use Prim.Native.Nat.{ℕ, zero, suc, ◌+◌, ◌-◌, ◌%◌, ◌<◌}
use mathlib.Core.Path.{◌≡◌, ap, ◌∙◌}
use native.Mathlib.Nat.{mod-eq_of_lt, mod-eq-sub-mod, add-mod_right}
use native.Mathlib.Decide.{dec_lt}
use native.Mathlib.Omega.{arith}
use libcdsa.Base.Booleans.{ltb, ◌==◌, if◌then◌else◌}

abbrev pub wrap : ℕ → ℕ → ℕ
wrap c a = if ltb a c then a else a - c

pub mod-eq-wrap : (c a : ℕ) → a < c + c → a % c ≡ wrap c a
mod-eq-wrap c a h = elim (dec_lt a c) [
  | yes p ↦ mod-eq_of_lt p ∙ ground arith
  | no p ↦
      mod-eq-sub-mod {n = a} {m = c} (omega arith)
      ∙ mod-eq_of_lt {n = a - c} {m = c} (omega arith)
      ∙ ground arith
]

-- One step back round the ring.
abbrev pub back : ℕ → ℕ → ℕ
back c i = if i == 0 then c - 1 else i - 1

pub mod-back : (c i n : ℕ) → 0 < c → (back c i + (n + 1)) % c ≡ (i + n) % c
mod-back c zero n h =
    ap (λ j. j % c) (omega arith) ∙ add-mod_right n c ∙ ap (λ j. j % c) (omega arith)
mod-back c (suc i) n h = ap (λ j. j % c) (ground arith)
