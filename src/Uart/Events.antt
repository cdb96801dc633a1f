-- ===== src/Uart/Events.antt =====
-- Interrupts and main-loop calls in any order: the ring against a bounded queue.
use barelog.Prelude.{
  ℕ, ◌≡◌, refl, List, [], ◌∷◌, ◌++◌, length, drop, ltb, leb, if◌then◌else◌, Bool-cases, inl, inr,
  leb→le,
}
use barelog.Uart.{Uart, available, rx_isr, uart_consume}
use barelog.Uart.Contents.{
  IsValid, contents, length-contents, rx_isr-IsValid, rx_isr-contents, uart_consume-IsValid,
  uart_consume-contents,
}

-- A byte arrives, or the main loop drops `n` bytes that it has counted.
pub data Event : Type 0 where
  rx consume : ℕ → Event

-- One event on the ring. The main loop consumes only what `uart_available` reported.
pub step : Event → Uart → Uart
step (rx byte) u = rx_isr byte u
step (consume n) u = if leb n (available u) then uart_consume n u else u

pub run : List Event → Uart → Uart
run [] u = u
run (e ∷ es) u = run es (step e u)

-- The same event on a queue of at most 1023 bytes, oldest first.
pub queue_step : Event → List ℕ → List ℕ
queue_step (rx byte) q = if ltb (length q) 1023 then q ++ (byte ∷ []) else q
queue_step (consume n) q = if leb n (length q) then drop n q else q

pub queue_run : List Event → List ℕ → List ℕ
queue_run [] q = q
queue_run (e ∷ es) q = queue_run es (queue_step e q)

step-IsValid : {u : Uart} (e : Event) → IsValid u → IsValid (step e u)
unfolding step
step-IsValid (rx byte) v = rx_isr-IsValid byte v
step-IsValid {u} (consume n) v = elim (Bool-cases (leb n (available u))) [
  | inl h ↦ rw h (uart_consume-IsValid n v)
  | inr h ↦ rw h v
]

step_refines : {u : Uart} (e : Event) → IsValid u → contents (step e u) ≡ queue_step e (contents u)
unfolding step queue_step
step_refines (rx byte) v = rx_isr-contents byte v
step_refines {u} (consume n) v = elim (Bool-cases (leb n (available u))) [
  | inl h ↦ rw (length-contents u, h) (uart_consume-contents n v (leb→le n (available u) h))
  | inr h ↦ rw (length-contents u, h)
]

-- For every interleaving of receive interrupts and consuming calls, the ring stays valid and
-- holds exactly the bytes of a first-in first-out queue of capacity 1023 that drops what arrives
-- when it is full.
pub run_refines :
    (es : List Event) {u : Uart}
    → IsValid u
    → IsValid (run es u) × (contents (run es u) ≡ queue_run es (contents u))
unfolding run queue_run
run_refines [] v = (v, refl)
run_refines (e ∷ es) v =
    let rest = run_refines es (step-IsValid e v) in (rest.0, rw (← step_refines e v) rest.1)
