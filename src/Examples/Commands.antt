-- ===== src/Examples/Commands.antt =====
-- A line typed in command mode, at a concrete input.
use barelog.Prelude.{
  ℕ, ◌+◌, ◌≡◌, refl, arith, get_or, some, List, [], ◌∷◌, ◌++◌, length, replicate, length-replicate,
}
use barelog.Repl.{read_line, entered, parse_command}
use barelog.Repl.Editing.{Reads, Typing, read_line-typed, read_line_returns, typed}
use barelog.Repl.Commands.{NoNul, command_of, parse_command-read_line}

-- `i`, `j`, backspace, `nit`, CR, and a byte behind the line.
abbrev keys : List ℕ
keys = 0x69 ∷ 0x6A ∷ 0x7F ∷ 0x6E ∷ 0x69 ∷ 0x74 ∷ []

abbrev input : List ℕ
input = keys ++ (0x0D ∷ 0x21 ∷ [])

abbrev init_text : List ℕ
init_text = 0x69 ∷ 0x6E ∷ 0x69 ∷ 0x74 ∷ []

abbrev ring : List ℕ
ring = replicate 1024 0x41

ring_size : length ring ≡ 1024
ring_size = length-replicate {A = ℕ} 1024 0x41

init_text-NoNul : NoNul init_text
init_text-NoNul = (
  λ e. omega (arith, e),
  (λ e. omega (arith, e), (λ e. omega (arith, e), (λ e. omega (arith, e), tt))),
)

typed_input : typed input [] ≡ some (init_text, 0x21 ∷ [])
unfolding typed
typed_input = refl

read_line-typed_example : Reads (typed input []) ring (read_line input 0 ring [])
read_line-typed_example = read_line-typed input ring ring_size

read_line_returns_example :
    (ring' : List ℕ) × (rest' : List ℕ) × (echo : List ℕ) × (text : List ℕ) × (typed
        (keys ++ (0x0D ∷ 0x21 ∷ []))
        []
      ≡ some (text, rest'))
    × (read_line (keys ++ (0x0D ∷ 0x21 ∷ [])) 0 ring [] ≡ entered ring' rest' echo)
    × Typing ring ring' text
    × (get_or ring' (512 + length text) 0 ≡ 0)
read_line_returns_example = read_line_returns keys (0x21 ∷ []) ring 0x0D ring_size refl

parse_command-read_line_example :
    (ring' : List ℕ) × (echo : List ℕ) × (read_line input 0 ring []
      ≡ entered ring' (0x21 ∷ []) echo)
    × (parse_command ring' ≡ command_of init_text)
parse_command-read_line_example =
    parse_command-read_line input ring init_text (0x21 ∷ []) ring_size typed_input init_text-NoNul
