-- ===== src/Logger/Escape.antt =====
-- `scan_escape`: when the escape sequence is detected, and across which calls.
use native.Mathlib.Decide.{ℕ_discrete, dec_lt}
use barelog.Prelude.{
  ℕ, zero, suc, ◌+◌, ◌≤◌, ◌<◌, ◌≡◌, ◌≢◌, ◌⊎◌, inl, inr, refl, ap, ◌∙◌, true, false, List, [], ◌∷◌,
  ◌++◌, arith, replicate, u8, if◌then◌else◌, Bool-cases,
}
use barelog.Config.{Config}
use barelog.Logger.{scan_escape}

module _ (cfg : Config) (seen x : ℕ) (xs : List ℕ) where
  scan_hit :
      x ≡ cfg.esc_char
      → cfg.esc_count ≤ u8 (seen + 1)
      → scan_escape cfg seen (x ∷ xs) ≡ (true, u8 (seen + 1))
  unfolding scan_escape
  scan_hit e h = ground arith

  scan_escape-same :
      x ≡ cfg.esc_char
      → u8 (seen + 1) < cfg.esc_count
      → scan_escape cfg seen (x ∷ xs) ≡ scan_escape cfg (u8 (seen + 1)) xs
  unfolding scan_escape
  scan_escape-same e h = ground arith

  scan_other : x ≢ cfg.esc_char → scan_escape cfg seen (x ∷ xs) ≡ scan_escape cfg 0 xs
  unfolding scan_escape
  scan_other e = ground arith

-- Scanning two buffers one after the other, with the count carried over, is scanning their
-- concatenation: an escape sequence that straddles the ring's wrap is seen.
pub scan_escape-append :
    (cfg : Config) (seen : ℕ) (xs ys : List ℕ)
    → scan_escape cfg seen (xs ++ ys) ≡ (
        let (hit, seen') = scan_escape cfg seen xs in
        if hit then (true, seen') else scan_escape cfg seen' ys)
scan_escape-append cfg seen [] ys = unfold scan_escape in refl
scan_escape-append cfg seen (x ∷ xs) ys = elim (ℕ_discrete x cfg.esc_char) [
  | yes e ↦ elim (dec_lt (u8 (seen + 1)) cfg.esc_count) [
    | yes h ↦
        rw (scan_escape-same cfg seen x xs e h, scan_escape-same cfg seen x (xs ++ ys) e h)
          (scan_escape-append cfg (u8 (seen + 1)) xs ys)
    | no h ↦
        rw (scan_hit cfg seen x xs e (omega arith), scan_hit cfg seen x (xs ++ ys) e (omega arith))
  ]
  | no e ↦
      rw (scan_other cfg seen x xs e, scan_other cfg seen x (xs ++ ys) e)
        (scan_escape-append cfg 0 xs ys)
]

-- A run of `k` escape characters somewhere in the buffer that completes the sequence: a whole one,
-- or one at the very start that continues the `seen` of earlier calls.
pub record Completes (cfg : Config) (seen : ℕ) (buf : List ℕ) : Type 0 where
  pub before : List ℕ
  pub run : ℕ
  pub behind : List ℕ
  pub splits : buf ≡ before ++ (replicate run cfg.esc_char ++ behind)
  pub completes : (run ≡ cfg.esc_count) ⊎ ((before ≡ []) × (run + seen ≡ cfg.esc_count))

Completes-other :
    (cfg : Config) (seen x : ℕ) (xs : List ℕ) → Completes cfg 0 xs → Completes cfg seen (x ∷ xs)
Completes-other cfg seen x xs c = record {
  before = x ∷ c.before;
  run = c.run;
  behind = c.behind;
  splits = ap (λ t. x ∷ t) c.splits;
  completes = inl (omega (arith, c.completes));
}

Completes-first :
    (cfg : Config) (seen x : ℕ) (xs : List ℕ)
    → x ≡ cfg.esc_char
    → seen + 1 ≡ cfg.esc_count
    → Completes cfg seen (x ∷ xs)
Completes-first cfg seen x xs e n = record {
  before = [];
  run = 1;
  behind = xs;
  splits = rw e;
  completes = inr (refl, omega arith);
}

Completes-next :
    (cfg : Config) (seen x : ℕ) (xs : List ℕ)
    → x ≡ cfg.esc_char
    → Completes cfg (seen + 1) xs
    → Completes cfg seen (x ∷ xs)
Completes-next cfg seen x xs e c = elim c.completes [
  | inl whole ↦ record {
    before = x ∷ c.before;
    run = c.run;
    behind = c.behind;
    splits = ap (λ t. x ∷ t) c.splits;
    completes = inl whole;
  }
  | inr (none, n) ↦ record {
    before = [];
    run = suc c.run;
    behind = c.behind;
    splits =
        ap (λ t. x ∷ t) (c.splits ∙ ap (λ t. t ++ (replicate c.run cfg.esc_char ++ c.behind)) none)
        ∙ ap (λ t. t ∷ (replicate c.run cfg.esc_char ++ c.behind)) e;
    completes = inr (refl, omega arith);
  }
]

-- If `scan_escape` returns 1, the buffer does complete the escape sequence.
pub scan_escape_sound :
    (cfg : Config) (seen : ℕ) (buf : List ℕ)
    → cfg.esc_count < 256
    → seen < cfg.esc_count
    → (scan_escape cfg seen buf).0 ≡ true
    → Completes cfg seen buf
scan_escape_sound cfg seen [] small lt h = absurd (unfold scan_escape in cc)
scan_escape_sound cfg seen (x ∷ xs) small lt h = elim (ℕ_discrete x cfg.esc_char) [
  | yes e ↦ elim (dec_lt (u8 (seen + 1)) cfg.esc_count) [
    | yes l ↦
        let same : u8 (seen + 1) ≡ seen + 1 = omega arith in
        let rest : (scan_escape cfg (seen + 1) xs).0 ≡ true =
          rw (← same, ← scan_escape-same cfg seen x xs e l) h in
        Completes-next cfg seen x xs e
          (scan_escape_sound cfg (seen + 1) xs small (omega arith) rest)
    | no l ↦ Completes-first cfg seen x xs e (omega arith)
  ]
  | no e ↦
      Completes-other cfg seen x xs
        (scan_escape_sound cfg 0 xs small (omega arith) (rw (← scan_other cfg seen x xs e) h))
]

-- A run of escape characters that takes the count up to the limit is a hit.
scan_run :
    (cfg : Config) (k seen : ℕ) (behind : List ℕ)
    → cfg.esc_count < 256
    → seen < cfg.esc_count
    → cfg.esc_count ≤ k + seen
    → (scan_escape cfg seen (replicate k cfg.esc_char ++ behind)).0 ≡ true
scan_run cfg zero seen behind small lt h = absurd (omega arith)
scan_run cfg (suc k) seen behind small lt h = elim (dec_lt (seen + 1) cfg.esc_count) [
  | yes l ↦
      let same : u8 (seen + 1) ≡ seen + 1 = omega arith in
      rw
        (
          scan_escape-same cfg seen cfg.esc_char (replicate k cfg.esc_char ++ behind) refl
              (omega arith),
          same,
        )
        (scan_run cfg k (seen + 1) behind small l (omega arith))
  | no l ↦
      rw (scan_hit cfg seen cfg.esc_char (replicate k cfg.esc_char ++ behind) refl (omega arith))
]

-- Without a hit the count stays below the limit.
seen-lt :
    (cfg : Config) (seen : ℕ) (xs : List ℕ)
    → seen < cfg.esc_count
    → (scan_escape cfg seen xs).0 ≡ false
    → (scan_escape cfg seen xs).1 < cfg.esc_count
seen-lt cfg seen [] lt h = unfold scan_escape in lt
seen-lt cfg seen (x ∷ xs) lt h = elim (ℕ_discrete x cfg.esc_char) [
  | yes e ↦ elim (dec_lt (u8 (seen + 1)) cfg.esc_count) [
    | yes l ↦
        let same = scan_escape-same cfg seen x xs e l in
        rw same (seen-lt cfg (u8 (seen + 1)) xs l (rw (← same) h))
    | no l ↦ absurd (cc (scan_hit cfg seen x xs e (omega arith)))
  ]
  | no e ↦
      let other = scan_other cfg seen x xs e in
      rw other (seen-lt cfg 0 xs (omega arith) (rw (← other) h))
]

-- A buffer that completes the escape sequence is detected.
pub scan_escape_complete :
    (cfg : Config) (seen : ℕ) (buf : List ℕ)
    → cfg.esc_count < 256
    → seen < cfg.esc_count
    → Completes cfg seen buf
    → (scan_escape cfg seen buf).0 ≡ true
scan_escape_complete cfg seen buf small lt c = elim c.completes [
  | inl whole ↦
      rw (c.splits, scan_escape-append)
        (elim (Bool-cases (scan_escape cfg seen c.before).0) [
          | inl h ↦ rw h
          | inr h ↦
              rw h
                (scan_run cfg c.run _ c.behind small (seen-lt cfg seen c.before lt h) (omega arith))
        ])
  | inr (none, n) ↦ rw (c.splits, none) (scan_run cfg c.run seen c.behind small lt (omega arith))
]
