-- ===== src/Uart/Contents.antt =====
-- The bytes that the ring holds, oldest first, and what each operation of uart.h and uart.c does
-- to them.
use native.Mathlib.Decide.{dec_lt}
use barelog.Prelude.{
  ℕ, zero, suc, ◌+◌, ◌-◌, ◌≤◌, ◌<◌, ◌≡◌, refl, sym, ap, ap₂, ◌∙◌, List, [], ◌∷◌, ◌++◌, arith,
  length, get_or, set, drop, length-set, get_or-set_self, get_or-set_ne, ltb, if◌then◌else◌, lt→ltb,
  le→ltb, ne→==, ==_iff, u16,
}
use barelog.Uart.{Uart, ring_wrap, available, uart_read, uart_consume, rx_isr}

-- The ring array has its length, and both indices lie inside it.
pub record IsValid (u : Uart) : Type 0 where
  pub size : length u.ring ≡ 1024
  pub head_in : u.ring_head < 1024
  pub tail_in : u.ring_tail < 1024

-- The `n` bytes from index `t` on, going round at the end of the array.
abbrev pub window : List ℕ → ℕ → ℕ → List ℕ
window buf t zero = []
window buf t (suc n) = get_or buf t 0 ∷ window buf (ring_wrap (t + 1)) n

abbrev pub contents : Uart → List ℕ
contents u = window u.ring u.ring_tail (available u)

pub length-window : (buf : List ℕ) (t n : ℕ) → length (window buf t n) ≡ n
length-window buf t zero = refl
length-window buf t (suc n) = ap suc (length-window buf (ring_wrap (t + 1)) n)

pub available-lt : (u : Uart) → available u < 1024
available-lt u = omega arith

pub length-contents : (u : Uart) → length (contents u) ≡ available u
length-contents u = length-window u.ring u.ring_tail (available u)

-- Skipping `k` bytes of a window moves its start.
pub drop-window :
    (buf : List ℕ) (k t n : ℕ)
    → t < 1024
    → k ≤ n
    → drop k (window buf t n) ≡ window buf (ring_wrap (t + k)) (n - k)
drop-window buf zero t n ht h = ap₂ (window buf) (omega arith) (omega arith)
drop-window buf (suc k) t zero ht h = absurd (omega arith)
drop-window buf (suc k) t (suc n) ht h =
    drop-window buf k (ring_wrap (t + 1)) n (omega arith) (omega arith)
    ∙ ap₂ (window buf) (omega arith) (omega arith)

-- Writing just past a window extends it by that byte.
window-set :
    (buf : List ℕ) (x n h i : ℕ)
    → length buf ≡ 1024
    → h < 1024
    → n < 1024
    → i ≡ ring_wrap (h + n)
    → window (set buf i x) h (suc n) ≡ window buf h n ++ (x ∷ [])
window-set buf x zero h i hs hh hn e =
    let e' : i ≡ h = omega arith in
    rw e' (ap (λ k. k ∷ []) (get_or-set_self buf h x 0 (omega arith)))
window-set buf x (suc n) h i hs hh hn e =
    ap₂ ◌∷◌ (get_or-set_ne buf i h x 0 (omega arith))
      (window-set buf x n (ring_wrap (h + 1)) i hs (omega arith) (omega arith) (omega arith))

-- The interrupt keeps the invariant.
pub rx_isr-IsValid : {u : Uart} (byte : ℕ) → IsValid u → IsValid (rx_isr byte u)
unfolding rx_isr
rx_isr-IsValid {u} byte v = ground (arith, length-set u.ring u.ring_head byte)

pub uart_consume-IsValid : {u : Uart} (n : ℕ) → IsValid u → IsValid (uart_consume n u)
unfolding uart_consume
uart_consume-IsValid n v = ground arith

pub uart_read-IsValid : {u : Uart} → IsValid u → IsValid (uart_read u).1
unfolding uart_read
uart_read-IsValid v = ground arith

pub available-rx_isr :
    {u : Uart} (byte : ℕ)
    → IsValid u
    → available (rx_isr byte u) ≡ (if ltb (available u) 1023 then suc (available u) else 1023)
unfolding rx_isr
available-rx_isr byte v = ground arith

-- The fields that the contents are read from, after the interrupt has found room.
rx_isr_room :
    {u : Uart} (byte : ℕ)
    → IsValid u
    → available u < 1023
    → contents (rx_isr byte u)
      ≡ window (set u.ring u.ring_head byte) u.ring_tail (suc (available u))
unfolding rx_isr
rx_isr_room {u} byte v h =
    rw (ne→== (ring_wrap (u16 (u.ring_head + 1))) u.ring_tail (omega arith))
      (ap (window (set u.ring u.ring_head byte) u.ring_tail) {y = suc (available u)} (omega arith))

rx_isr_full :
    {u : Uart} (byte : ℕ) → IsValid u → 1023 ≤ available u → contents (rx_isr byte u) ≡ contents u
unfolding rx_isr
rx_isr_full {u} byte v h =
    rw ((==_iff (ring_wrap (u16 (u.ring_head + 1))) u.ring_tail).1 (omega arith))

window_pos :
    (buf : List ℕ) (t n : ℕ)
    → 0 < n
    → window buf t n ≡ get_or buf t 0 ∷ window buf (ring_wrap (t + 1)) (n - 1)
window_pos buf t zero h = absurd (omega arith)
window_pos buf t (suc n) h =
    let e : n ≡ suc n - 1 = omega arith in
    ap (λ k. get_or buf t 0 ∷ window buf (ring_wrap (t + 1)) k) e

-- The interrupt appends the byte, or drops it when the ring holds 1023 bytes already.
pub rx_isr-contents :
    {u : Uart} (byte : ℕ)
    → IsValid u
    → contents (rx_isr byte u)
      ≡ (if ltb (length (contents u)) 1023 then contents u ++ (byte ∷ []) else contents u)
rx_isr-contents {u} byte v = elim (dec_lt (available u) 1023) [
  | yes p ↦
      rw (length-contents u, lt→ltb (available u) 1023 p)
        (rx_isr_room byte v p
          ∙ window-set u.ring byte (available u) u.ring_tail u.ring_head v.size v.tail_in
              (omega arith) (omega arith))
  | no p ↦
      rw (length-contents u, le→ltb (available u) 1023 (omega arith))
        (rx_isr_full byte v (omega arith))
]

-- Consuming `n` of the available bytes removes the oldest `n`.
pub uart_consume-contents :
    {u : Uart} (n : ℕ)
    → IsValid u
    → n ≤ available u
    → contents (uart_consume n u) ≡ drop n (contents u)
unfolding uart_consume
uart_consume-contents {u} n v h =
    ap₂ (window u.ring) (omega arith) (omega arith)
    ∙ sym (drop-window u.ring n u.ring_tail (available u) v.tail_in h)

-- Reading a byte gives the oldest one and leaves the others.
pub uart_read-contents :
    {u : Uart}
    → IsValid u
    → 0 < available u
    → contents u ≡ (uart_read u).0 ∷ contents (uart_read u).1
unfolding uart_read
uart_read-contents {u} v h =
    window_pos u.ring u.ring_tail (available u) h
    ∙ ap (λ t. get_or u.ring u.ring_tail 0 ∷ t) (ap₂ (window u.ring) (omega arith) (omega arith))
