-- ===== src/Repl.antt =====
-- repl.c: command mode. Input is the list of the bytes that the receiver will deliver.
pub mod Text
pub mod Digits
pub mod Commands
pub mod Editing
pub mod Handlers
pub mod Polled
use barelog.Prelude.{
  ℕ, zero, suc, ◌+◌, ◌-◌, ◌/◌, ◌%◌, Bool, true, false, ◌&&◌, ◌||◌, Option, none, some, List, [],
  ◌∷◌, ◌++◌, get_or, set, ltb, leb, u8, ◌==◌, if◌then◌else◌,
}
use barelog.Prelude.Run.{Result, ok, err, out_of_fuel, Run, pure, ◌>>=◌, ◌>>◌}
use barelog.Machine.{Hardware, Machine, set_ring}
use barelog.Repl.Text.{String, codes}

-- `LINE_BUF` is `ring + 512`, `LINE_BUF_MAX` is 511.
abbrev pub line_buf : ℕ
line_buf = 512

abbrev pub line_buf_max : ℕ
line_buf_max = 511

-- `repl_putu32`: the digits collected from the right, `left` cells of its buffer unused; `none`
-- if the buffer would overflow.
unfoldable pub collect_digits : ℕ → ℕ → List ℕ → Option (List ℕ)
collect_digits zero v acc = if v == 0 then some acc else none
collect_digits (suc left) v acc =
    let more = collect_digits left (v / 10) (u8 (u8 (v % 10) + b'0') ∷ acc) in
    if v == 0 then some acc else more

unfoldable pub repl_putu32 : ℕ → Option (List ℕ)
repl_putu32 v = if v == 0 then some (b'0' ∷ []) else collect_digits 10 v []

-- How `repl_read_line` stands when the input runs out (it spins) or a line is complete.
pub data Line : Type 0 where
  waiting : List ℕ → List ℕ → Line
  entered : List ℕ → List ℕ → List ℕ → Line

-- The loop of `repl_read_line`: the ring, the length, the echo so far. `entered` holds the ring,
-- the input behind the line, and the echo.
unfoldable pub read_line : List ℕ → ℕ → List ℕ → List ℕ → Line
read_line [] len ring echo = waiting ring echo
read_line (c ∷ input) len ring echo = elim (c == 0x0D || c == 0x0A) [
  | true ↦ entered (set ring (line_buf + len) 0) input (echo ++ (0x0D ∷ 0x0A ∷ []))
  | false ↦ elim (c == 0x7F || c == 0x08) [
    | true ↦ elim (ltb 0 len) [
      | true ↦ read_line input (len - 1) ring (echo ++ (0x08 ∷ 0x20 ∷ 0x08 ∷ []))
      | false ↦ read_line input len ring echo
    ]
    | false ↦ elim (ltb len line_buf_max) [
      | true ↦ read_line input (len + 1) (set ring (line_buf + len) c) (echo ++ (c ∷ []))
      | false ↦ read_line input len ring echo
    ]
  ]
]

-- `line_eq` from `at` on, against the bytes of a literal.
unfoldable pub eq_from : List ℕ → ℕ → List ℕ → Bool
eq_from ring at [] = get_or ring at 0 == 0
eq_from ring at (b ∷ lit) = get_or ring at 0 == b && eq_from ring (at + 1) lit

unfoldable pub line_eq : List ℕ → String → Bool
line_eq ring lit = eq_from ring line_buf (codes lit)

-- The handler that `repl_dispatch` calls.
pub data Command : Type 0 where
  help disk init sync reset trim_free trim_fuller trim_full unknown : Command

unfoldable pub parse_command : List ℕ → Command
parse_command ring =
    if line_eq ring "?"
    then help
    else if line_eq ring "disk"
    then disk
    else if line_eq ring "init"
    then init
    else if line_eq ring "sync"
    then sync
    else if line_eq ring "reset"
    then reset
    else if line_eq ring "trim free"
    then trim_free
    else if line_eq ring "trim fuller"
    then trim_fuller
    else if line_eq ring "trim full"
    then trim_full
    else unknown
