-- ===== src/Repl/Digits.antt =====
-- What `repl_putu32` prints.
use barelog.Prelude.{
  ℕ, zero, suc, ◌+◌, ◌-◌, ◌*◌, ◌/◌, ◌%◌, ◌^◌, ◌<◌, ◌≡◌, refl, ap, ◌∙◌, Bool-cases, inl, inr, false,
  ◌&&◌, Option, none, some, List, [], ◌∷◌, arith, u8, leb, ◌==◌, ==_iff, if◌then◌else◌,
}
use barelog.Repl.{collect_digits, repl_putu32}

-- Reading decimal digits behind those that make up `n`; `none` at any other character.
pub decimal : ℕ → List ℕ → Option ℕ
decimal n [] = some n
decimal n (c ∷ cs) = if leb b'0' c && leb c b'9' then decimal (n * 10 + (c - b'0')) cs else none

abbrev ten_to : ℕ → ℕ
ten_to zero = 1
ten_to (suc k) = 10 * ten_to k

decimal-digit :
    (v : ℕ) (acc : List ℕ) → decimal (v / 10) (u8 (u8 (v % 10) + b'0') ∷ acc) ≡ decimal v acc
unfolding decimal
decimal-digit v acc = ground arith

collect_digits_nonzero :
    (left v : ℕ) (acc : List ℕ)
    → (v == 0) ≡ false
    → collect_digits (suc left) v acc ≡ collect_digits left (v / 10) (u8 (u8 (v % 10) + b'0') ∷ acc)
unfolding collect_digits
collect_digits_nonzero left v acc h = rw h

collect_digits-decimal :
    (left v : ℕ) (acc : List ℕ)
    → v < ten_to left
    → (ds : List ℕ) × (collect_digits left v acc ≡ some ds) × (decimal 0 ds ≡ decimal v acc)
collect_digits-decimal zero v acc h = (
  acc,
  unfold collect_digits in ground arith,
  ap (λ n. decimal n acc) {x = 0} {y = v} (omega arith),
)
collect_digits-decimal (suc left) v acc h = elim (Bool-cases (v == 0)) [
  | inl e ↦ (
    acc,
    unfold collect_digits in rw e,
    ap (λ n. decimal n acc) {x = 0} {y = v} (omega (arith, (==_iff v 0).0 e)),
  )
  | inr e ↦
      let (ds, printed, value) =
        collect_digits-decimal left (v / 10) (u8 (u8 (v % 10) + b'0') ∷ acc) (omega arith) in
      (ds, collect_digits_nonzero left v acc e ∙ printed, value ∙ decimal-digit v acc)
]

-- For every 32-bit number `repl_putu32` stays within its ten-byte buffer, and what it prints reads
-- as that number in decimal.
pub repl_putu32-decimal :
    (v : ℕ) → v < 2 ^ 32 → (ds : List ℕ) × (repl_putu32 v ≡ some ds) × (decimal 0 ds ≡ some v)
repl_putu32-decimal v h = elim (Bool-cases (v == 0)) [
  | inl e ↦ (
    b'0' ∷ [],
    unfold repl_putu32 in rw e,
    unfold decimal in ap some {x = 0} {y = v} (omega (arith, (==_iff v 0).0 e)),
  )
  | inr e ↦
      let (ds, printed, value) = collect_digits-decimal 10 v [] (omega arith) in
      (ds, unfold repl_putu32 in rw e printed, value ∙ (unfold decimal in refl))
]
