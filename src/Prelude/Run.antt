-- ===== src/Prelude/Run.antt =====
-- Stateful code that can fail: the state is kept on failure, as the C code leaves it.
use Prim.Native.Nat.{ℕ}

-- `ok` is the return code 0 with what goes out through pointers; `err n` is the return code -n.
-- `out_of_fuel` marks a loop that has used up the rounds that the model gives it.
pub data Result (A : Type 0) : Type 0 where
  ok : A → Result A
  err : ℕ → Result A
  out_of_fuel : Result A

abbrev pub Run : Type 0 → Type 0 → Type 0
Run S A = S → Result A × S

abbrev pub pure : {S A : Type 0} → A → Run S A
pure a s = (ok a, s)

abbrev pub fail : {S A : Type 0} → ℕ → Run S A
fail n s = (err n, s)

-- What follows a call, given its outcome.
abbrev pub and_then : {S A B : Type 0} → Result A × S → (A → Run S B) → Result B × S
and_then (ok a, s) k = k a s
and_then (err n, s) k = (err n, s)
and_then (out_of_fuel, s) k = (out_of_fuel, s)

infixl 5 ◌>>=◌ ◌>>◌
abbrev pub ◌>>=◌ : {S A B : Type 0} → Run S A → (A → Run S B) → Run S B
◌>>=◌ m k s = and_then (m s) k

abbrev pub ◌>>◌ : {S A B : Type 0} → Run S A → Run S B → Run S B
◌>>◌ m k s = and_then (m s) (λ _. k)

-- A call whose return code is ignored.
abbrev pub ignored : {S A : Type 0} → Result A × S → Result (Unit {0}) × S
ignored (ok a, s) = (ok tt, s)
ignored (err n, s) = (ok tt, s)
ignored (out_of_fuel, s) = (out_of_fuel, s)

abbrev pub ignore : {S A : Type 0} → Run S A → Run S (Unit {0})
ignore m s = ignored (m s)
