-- ===== src/Repl/Commands.antt =====
-- Which line runs which command.
use barelog.Prelude.{
  ℕ, suc, ◌+◌, ◌<◌, ◌≡◌, ◌≢◌, sym, ap, subst, ◌∙◌, Bool, true, false, ◌&&◌, some, List, [], ◌∷◌,
  arith, length, drop, get_or, ◌==◌, ==_iff, ne→==, if◌then◌else◌, get_or-take, get_or-drop,
}
use barelog.Repl.{
  Command, help, disk, init, sync, reset, trim_free, trim_fuller, trim_full, unknown, eq_from,
  line_eq, parse_command, read_line, entered,
}
use barelog.Repl.Text.{String, codes}
use barelog.Repl.Editing.{Typing, Reads, typed, read_line-typed}

-- Equality of texts.
pub same_text : List ℕ → List ℕ → Bool
same_text [] [] = true
same_text [] (y ∷ ys) = false
same_text (x ∷ xs) [] = false
same_text (x ∷ xs) (y ∷ ys) = x == y && same_text xs ys

-- The commands of the help text, and no other text is one.
pub command_of : List ℕ → Command
command_of text =
    if same_text text (codes "?")
    then help
    else if same_text text (codes "disk")
    then disk
    else if same_text text (codes "init")
    then init
    else if same_text text (codes "sync")
    then sync
    else if same_text text (codes "reset")
    then reset
    else if same_text text (codes "trim free")
    then trim_free
    else if same_text text (codes "trim fuller")
    then trim_fuller
    else if same_text text (codes "trim full")
    then trim_full
    else unknown

-- No byte of a text is NUL.
abbrev pub NoNul : List ℕ → Type 0
NoNul [] = Unit
NoNul (x ∷ xs) = (x ≢ 0) × NoNul xs

-- The ring holds the text and a NUL from `at` on.
abbrev Holds : List ℕ → ℕ → List ℕ → Type 0
Holds ring at [] = get_or ring at 0 ≡ 0
Holds ring at (x ∷ xs) = (get_or ring at 0 ≡ x) × Holds ring (at + 1) xs

eq_from-same_text :
    (ring : List ℕ) (at : ℕ) (text lit : List ℕ)
    → Holds ring at text
    → NoNul text
    → NoNul lit
    → eq_from ring at lit ≡ same_text text lit
unfolding eq_from same_text
eq_from-same_text ring at [] [] h n k = (==_iff _ 0).1 h
eq_from-same_text ring at [] (y ∷ lit) h n k = rw (h, ne→== 0 y (λ e. k.0 (sym e)))
eq_from-same_text ring at (x ∷ text) [] h n k = ne→== (get_or ring at 0) 0 (λ e. n.0 (sym h.0 ∙ e))
eq_from-same_text ring at (x ∷ text) (y ∷ lit) h n k =
    rw (h.0, eq_from-same_text ring (at + 1) text lit h.1 n.1 k.1)

text_held :
    (ring : List ℕ) (at : ℕ) (text : List ℕ)
    → ((i : ℕ) → i < length text → get_or ring (at + i) 0 ≡ get_or text i 0)
    → get_or ring (at + length text) 0 ≡ 0
    → Holds ring at text
text_held ring at [] h z = ap (λ k. get_or ring k 0) {x = at} {y = at + 0} (omega arith) ∙ z
text_held ring at (x ∷ text) h z = (
  ap (λ k. get_or ring k 0) {x = at} {y = at + 0} (omega arith) ∙ h 0 (omega arith),
  text_held ring (at + 1) text
      (λ i lt.
        ap (λ k. get_or ring k 0) {x = at + 1 + i} {y = at + suc i} (omega arith)
        ∙ h (suc i) (omega arith))
      (ap (λ k. get_or ring k 0) {x = at + 1 + length text} {y = at + length (x ∷ text)}
          (omega arith)
        ∙ z),
)

Holds-Typing :
    {ring0 ring text : List ℕ}
    → Typing ring0 ring text
    → get_or ring (512 + length text) 0 ≡ 0
    → Holds ring 512 text
Holds-Typing {ring0} {ring} {text} t z =
    text_held ring 512 text
      (λ i lt.
        sym (get_or-drop 512 ring i 0)
        ∙ sym (get_or-take (length text) (drop 512 ring) i 0 lt)
        ∙ ap (λ l. get_or l i 0) t.holds)
      z

line_eq-same_text :
    (ring text : List ℕ) (lit : String)
    → Holds ring 512 text
    → NoNul text
    → NoNul (codes lit)
    → line_eq ring lit ≡ same_text text (codes lit)
unfolding line_eq
line_eq-same_text ring text lit h n k = eq_from-same_text ring 512 text (codes lit) h n k

parse_command-command_of :
    (ring text : List ℕ) → Holds ring 512 text → NoNul text → parse_command ring ≡ command_of text
unfolding parse_command command_of
parse_command-command_of ring text h n =
    let same = λ (lit : String) (k : NoNul (codes lit)). line_eq-same_text ring text lit h n k in
    rw (
      same "?" (ground arith),
      same "disk" (ground arith),
      same "init" (ground arith),
      same "sync" (ground arith),
      same "reset" (ground arith),
      same "trim free" (ground arith),
      same "trim fuller" (ground arith),
      same "trim full" (ground arith),
    )

-- Where the input completes a line whose text has no NUL, into a ring of 1024 bytes, the reader
-- returns, leaves the input behind the line, and the dispatcher then picks the command whose name
-- is exactly that text, `unknown` if there is none.
pub parse_command-read_line :
    (input ring text rest : List ℕ)
    → length ring ≡ 1024
    → typed input [] ≡ some (text, rest)
    → NoNul text
    → (ring' : List ℕ) × (echo : List ℕ) × (read_line input 0 ring [] ≡ entered ring' rest echo)
      × (parse_command ring' ≡ command_of text)
parse_command-read_line input ring text rest size line n =
    let r : Reads (some (text, rest)) ring (read_line input 0 ring []) =
      subst (λ o. Reads o ring (read_line input 0 ring [])) line
        (read_line-typed input ring size) in
    (r.0, r.1, r.2, parse_command-command_of r.0 text (Holds-Typing r.3 r.4) n)
