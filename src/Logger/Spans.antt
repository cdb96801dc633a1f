-- ===== src/Logger/Spans.antt =====
-- The two spans of `log_process` and `log_flush` against the bytes that the ring holds.
use native.Mathlib.Decide.{dec_le}
use barelog.Prelude.{
  ℕ, zero, suc, ◌+◌, ◌-◌, ◌≤◌, ◌<◌, ◌≡◌, refl, sym, ap, ap₂, ◌∙◌, List, [], ◌∷◌, ◌++◌, arith,
  length, get_or, take, drop, le→leb, lt→leb, append-nil, none, some,
}
use barelog.Uart.{Uart, ring_wrap, available}
use barelog.Uart.Contents.{IsValid, window, contents}
use barelog.Fat.Log.Append.{span_bytes, opt_bytes, opt_len}
use barelog.Logger.{spans}

drop_at : (t : ℕ) (buf : List ℕ) → t < length buf → drop t buf ≡ get_or buf t 0 ∷ drop (t + 1) buf
drop_at zero [] h = absurd (omega arith)
drop_at zero (x ∷ buf) h = refl
drop_at (suc t) [] h = absurd (omega arith)
drop_at (suc t) (x ∷ buf) h =
    drop_at t buf (omega arith)
    ∙ ap (λ k. get_or buf t 0 ∷ drop k (x ∷ buf)) {x = suc (t + 1)} {y = suc t + 1} (omega arith)

-- A window that ends inside the array is a slice of it.
pub window_straight :
    (buf : List ℕ) (t n : ℕ)
    → length buf ≡ 1024
    → t + n ≤ 1024
    → window buf t n ≡ take n (drop t buf)
window_straight buf t zero size h = refl
window_straight buf t (suc zero) size h = rw (drop_at t buf (omega arith))
window_straight buf t (suc (suc n)) size h =
    let e : ring_wrap (t + 1) ≡ t + 1 = omega arith in
    rw (drop_at t buf (omega arith)) (
      ap (λ k. get_or buf t 0 ∷ window buf k (suc n)) e
      ∙ ap (λ l. get_or buf t 0 ∷ l) (window_straight buf (t + 1) (suc n) size (omega arith)))

pub window-append :
    (buf : List ℕ) (t m n : ℕ)
    → t < 1024
    → window buf t (m + n) ≡ window buf t m ++ window buf (ring_wrap (t + m)) n
window-append buf t zero n h =
    ap₂ (window buf) {x = t} {y = ring_wrap (t + 0)} (omega arith) (omega arith)
window-append buf t (suc m) n h =
    let e : suc m + n ≡ suc (m + n) = omega arith in
    let at : ring_wrap (ring_wrap (t + 1) + m) ≡ ring_wrap (t + suc m) = omega arith in
    ap (window buf t) e
    ∙ ap (λ l. get_or buf t 0 ∷ l) (window-append buf (ring_wrap (t + 1)) m n (omega arith))
    ∙ ap (λ k. get_or buf t 0 ∷ (window buf (ring_wrap (t + 1)) m ++ window buf k n)) at

pub take-window : (buf : List ℕ) (t m n : ℕ) → m ≤ n → take m (window buf t n) ≡ window buf t m
take-window buf t zero n h = refl
take-window buf t (suc m) zero h = absurd (omega arith)
take-window buf t (suc m) (suc n) h =
    ap (λ l. get_or buf t 0 ∷ l) (take-window buf (ring_wrap (t + 1)) m n (omega arith))

window_wrapping :
    (buf : List ℕ) (t n : ℕ)
    → length buf ≡ 1024
    → t < 1024
    → n ≤ 1024
    → 1024 - t ≤ n
    → window buf t n ≡ take (1024 - t) (drop t buf) ++ take (n - (1024 - t)) buf
window_wrapping buf t n size ht hn h =
    let a : ℕ = 1024 - t in
    let split : n ≡ a + (n - a) = omega arith in
    let at : ring_wrap (t + a) ≡ 0 = omega arith in
    ap (window buf t) split
    ∙ window-append buf t a (n - a) ht
    ∙ ap₂ ◌++◌ (window_straight buf t a size (omega arith))
        (ap (λ k. window buf k (n - a)) at ∙ window_straight buf 0 (n - a) size (omega arith))

pub spans_one : (t n : ℕ) → n ≤ 1024 - t → spans t n ≡ (record { at = t; len = n }, none)
unfolding spans
spans_one t n h = rw (le→leb n (1024 - t) h)

pub spans_two :
    (t n : ℕ)
    → 1024 - t < n
    → spans t n
      ≡ (record { at = t; len = 1024 - t }, some (record { at = 0; len = n - (1024 - t) }))
unfolding spans
spans_two t n h = rw (lt→leb n (1024 - t) h)

-- The spans that `log_process` and `log_flush` compute for `n` available bytes are the oldest `n`
-- bytes of the ring, in order; they lie inside the array and their lengths add up to `n`.
pub spans-contents :
    {u : Uart} (n : ℕ)
    → IsValid u
    → n ≤ available u
    → let (a, b) = spans u.ring_tail n in
      (span_bytes u.ring a ++ opt_bytes u.ring b ≡ take n (contents u))
      × (a.len + opt_len b ≡ n)
      × (a.at + a.len ≤ 1024)
spans-contents {u} n v h =
    let t : ℕ = u.ring_tail in
    let oldest = take-window u.ring t n (available u) h in
    elim (dec_le n (1024 - t)) [
      | yes le ↦ rw (spans_one t n le) (
        append-nil (take n (drop t u.ring))
            ∙ sym (window_straight u.ring t n v.size (omega arith))
            ∙ sym oldest,
        omega arith,
        omega arith,
      )
      | no gt ↦ rw (spans_two t n (omega arith)) (
        sym (window_wrapping u.ring t n v.size v.tail_in (omega arith) (omega arith)) ∙ sym oldest,
        omega arith,
        omega arith,
      )
    ]
