-- ===== src/Repl/Editing.antt =====
-- The line reader against a line of text that is edited at its end.
use barelog.Prelude.{
  ℕ, zero, suc, ◌+◌, ◌-◌, ◌≤◌, ◌<◌, ◌≡◌, refl, sym, ap, ap₂, subst, ◌∙◌, Bool-cases, inl, inr, true,
  false, ◌||◌, Option, none, some, List, [], ◌∷◌, ◌++◌, arith, length, take, drop, set, get_or, ltb,
  ◌==◌, length-set, length-take, length-append, length-drop, get_or-set_self, tests, ltb→lt,
}
use barelog.Repl.{Line, waiting, entered, read_line}

-- The text that keys make of `text`, and the input behind the end of the line: CR or LF ends it,
-- DEL and BS remove the last byte, another byte is appended while there are fewer than 511.
unfoldable pub typed : List ℕ → List ℕ → Option (List ℕ × List ℕ)
typed [] text = none
typed (c ∷ input) text = elim (c == 0x0D || c == 0x0A) [
  | true ↦ some (text, input)
  | false ↦ elim (c == 0x7F || c == 0x08) [
    | true ↦ typed input (take (length text - 1) text)
    | false ↦ elim (ltb (length text) 511) [
      | true ↦ typed input (text ++ (c ∷ []))
      | false ↦ typed input text
    ]
  ]
]

-- The ring while `text` is being typed: the line buffer begins with the text, and the sector
-- scratch is the one of `ring0`.
pub record Typing (ring0 ring text : List ℕ) : Type 0 where
  pub size : length ring ≡ 1024
  pub fits : length text ≤ 511
  pub scratch : take 512 ring ≡ take 512 ring0
  pub holds : take (length text) (drop 512 ring) ≡ text

-- What `read_line` leaves: a line with its NUL, or nothing yet.
abbrev pub Reads : Option (List ℕ × List ℕ) → List ℕ → Line → Type 0
Reads none ring0 l = (ring : List ℕ) × (echo : List ℕ) × (l ≡ waiting ring echo)
Reads (some (text, rest)) ring0 l =
    (ring : List ℕ) × (echo : List ℕ) × (l ≡ entered ring rest echo)
    × Typing ring0 ring text
    × (get_or ring (512 + length text) 0 ≡ 0)

take-set_ge : (n i : ℕ) (xs : List ℕ) (v : ℕ) → n ≤ i → take n (set xs i v) ≡ take n xs
take-set_ge zero i xs v h = refl
take-set_ge (suc n) i [] v h = refl
take-set_ge (suc n) zero (x ∷ xs) v h = absurd (omega arith)
take-set_ge (suc n) (suc i) (x ∷ xs) v h = ap (λ t. x ∷ t) (take-set_ge n i xs v (omega arith))

drop-set : (k i n : ℕ) (xs : List ℕ) (v : ℕ) → i ≡ k + n → drop k (set xs i v) ≡ set (drop k xs) n v
drop-set zero i n xs v e = ap (λ j. set xs j v) {x = i} {y = n} (omega arith)
drop-set (suc k) i n [] v e = refl
drop-set (suc k) zero n (x ∷ xs) v e = absurd (omega arith)
drop-set (suc k) (suc i) n (x ∷ xs) v e = drop-set k i n xs v (omega arith)

take-set_end :
    (n : ℕ) (xs : List ℕ) (v : ℕ)
    → n < length xs
    → take (suc n) (set xs n v) ≡ take n xs ++ (v ∷ [])
take-set_end n [] v h = absurd (omega arith)
take-set_end zero (x ∷ xs) v h = refl
take-set_end (suc n) (x ∷ xs) v h = ap (λ t. x ∷ t) (take-set_end n xs v (omega arith))

take-take : (m n : ℕ) (xs : List ℕ) → m ≤ n → take m (take n xs) ≡ take m xs
take-take zero n xs h = refl
take-take (suc m) zero xs h = absurd (omega arith)
take-take (suc m) (suc n) [] h = refl
take-take (suc m) (suc n) (x ∷ xs) h = ap (λ t. x ∷ t) (take-take m n xs (omega arith))

Typing-append :
    {ring0 ring text : List ℕ} (c : ℕ)
    → Typing ring0 ring text
    → length text < 511
    → Typing ring0 (set ring (512 + length text) c) (text ++ (c ∷ []))
Typing-append {ring0} {ring} {text} c t h =
    let more : length (text ++ (c ∷ [])) ≡ suc (length text) =
      omega (arith, length-append text (c ∷ [])) in
    let room : length text < length (drop 512 ring) = omega (arith, length-drop 512 ring, t.size) in
    record {
      size = length-set ring (512 + length text) c ∙ t.size;
      fits = omega arith;
      scratch = take-set_ge 512 (512 + length text) ring c (omega arith) ∙ t.scratch;
      holds =
          ap₂ (take {A = ℕ}) more (drop-set 512 (512 + length text) (length text) ring c refl)
          ∙ take-set_end (length text) (drop 512 ring) c room
          ∙ ap (λ l. l ++ (c ∷ [])) t.holds;
    }

Typing-erase :
    {ring0 ring text : List ℕ}
    → Typing ring0 ring text
    → Typing ring0 ring (take (length text - 1) text)
Typing-erase {ring0} {ring} {text} t =
    let less : length (take (length text - 1) text) ≡ length text - 1 =
      omega (arith, length-take (length text - 1) text) in
    record {
      size = t.size;
      fits = omega (arith, t.fits);
      scratch = t.scratch;
      holds =
          ap (λ n. take n (drop 512 ring)) less
          ∙ sym (take-take (length text - 1) (length text) (drop 512 ring) (omega arith))
          ∙ ap (take (length text - 1)) t.holds;
    }

Typing-end :
    {ring0 ring text : List ℕ}
    → Typing ring0 ring text
    → Typing ring0 (set ring (512 + length text) 0) text
Typing-end {ring0} {ring} {text} t = record {
  size = length-set ring (512 + length text) 0 ∙ t.size;
  fits = t.fits;
  scratch = take-set_ge 512 (512 + length text) ring 0 (omega arith) ∙ t.scratch;
  holds =
      ap (take (length text)) (drop-set 512 (512 + length text) (length text) ring 0 refl)
      ∙ take-set_ge (length text) (length text) (drop 512 ring) 0 (omega arith)
      ∙ t.holds;
}

-- The four kinds of key, in the reader and in the text.
module _ (c : ℕ) (input text ring echo : List ℕ) where
  key_end :
      (c == 0x0D || c == 0x0A) ≡ true
      → (typed (c ∷ input) text ≡ some (text, input))
        × (read_line (c ∷ input) (length text) ring echo
            ≡ entered (set ring (512 + length text) 0) input (echo ++ (0x0D ∷ 0x0A ∷ [])))
  unfolding typed read_line
  key_end h = (rw (typed, h), rw (read_line, h))

  key_erase :
      (c == 0x0D || c == 0x0A) ≡ false
      → (c == 0x7F || c == 0x08) ≡ true
      → (echo' : List ℕ) × (typed (c ∷ input) text ≡ typed input (take (length text - 1) text))
        × (read_line (c ∷ input) (length text) ring echo
            ≡ read_line input (length text - 1) ring echo')
  unfolding typed read_line
  key_erase h b = elim (Bool-cases (ltb 0 (length text))) [
    | inl l ↦ (echo ++ (0x08 ∷ 0x20 ∷ 0x08 ∷ []), rw (typed, h, b), rw (read_line, h, b, l))
    | inr l ↦ (
      echo,
      rw (typed, h, b),
      rw (read_line, h, b, l)
          (ap (λ n. read_line input n ring echo) {x = length text} {y = length text - 1}
            (grind tests)),
    )
  ]

  key_append :
      (c == 0x0D || c == 0x0A) ≡ false
      → (c == 0x7F || c == 0x08) ≡ false
      → ltb (length text) 511 ≡ true
      → (typed (c ∷ input) text ≡ typed input (text ++ (c ∷ [])))
        × (read_line (c ∷ input) (length text) ring echo
            ≡ read_line input (length text + 1) (set ring (512 + length text) c) (echo ++ (c ∷ [])))
  unfolding typed read_line
  key_append h b l = (rw (typed, h, b, l), rw (read_line, h, b, l))

  key_drop :
      (c == 0x0D || c == 0x0A) ≡ false
      → (c == 0x7F || c == 0x08) ≡ false
      → ltb (length text) 511 ≡ false
      → (typed (c ∷ input) text ≡ typed input text)
        × (read_line (c ∷ input) (length text) ring echo ≡ read_line input (length text) ring echo)
  unfolding typed read_line
  key_drop h b l = (rw (typed, h, b, l), rw (read_line, h, b, l))

-- What reading the rest of the input makes of a line of which `text` has been typed.
read_line-typed_from :
    (input text ring0 ring echo : List ℕ) (len : ℕ)
    → len ≡ length text
    → Typing ring0 ring text
    → Reads (typed input text) ring0 (read_line input len ring echo)
read_line-typed_from [] text ring0 ring echo len e t =
    unfold read_line in unfold typed in (ring, echo, refl)
read_line-typed_from (c ∷ input) text ring0 ring echo len e t =
    elim (Bool-cases (c == 0x0D || c == 0x0A)) [
      | inl h ↦
          let k = key_end c input text ring echo h in
          rw (e, k.0, k.1)
            (
              set ring (512 + length text) 0,
              echo ++ (0x0D ∷ 0x0A ∷ []),
              refl,
              Typing-end t,
              get_or-set_self ring (512 + length text) 0 0 (omega (arith, t.size, t.fits)),
            )
      | inr h ↦ elim (Bool-cases (c == 0x7F || c == 0x08)) [
        | inl b ↦
            let k = key_erase c input text ring echo h b in
            rw (e, k.1, k.2)
              (read_line-typed_from input (take (length text - 1) text) ring0 ring k.0
                (length text - 1) (omega (arith, length-take (length text - 1) text))
                (Typing-erase t))
        | inr b ↦ elim (Bool-cases (ltb (length text) 511)) [
          | inl l ↦
              let k = key_append c input text ring echo h b l in
              rw (e, k.0, k.1)
                (read_line-typed_from input (text ++ (c ∷ [])) ring0
                  (set ring (512 + length text) c) (echo ++ (c ∷ [])) (length text + 1)
                  (omega (arith, length-append text (c ∷ [])))
                  (Typing-append c t (ltb→lt (length text) 511 l)))
          | inr l ↦
              let k = key_drop c input text ring echo h b l in
              rw (e, k.0, k.1)
                (read_line-typed_from input text ring0 ring echo (length text) refl t)
        ]
      ]
    ]

-- Reading a line into a ring of 1024 bytes: if the input completes a line, the line buffer then
-- holds the text that the keys make, at most 511 bytes, with a NUL behind it, the sector scratch
-- before it is untouched, and the input behind the line is left; otherwise the reader spins.
pub read_line-typed :
    (input ring : List ℕ)
    → length ring ≡ 1024
    → Reads (typed input []) ring (read_line input 0 ring [])
read_line-typed input ring size =
    read_line-typed_from input [] ring ring [] 0 refl
      (record { size = size; fits = omega arith; scratch = refl; holds = refl })

typed_returns :
    (keys rest text : List ℕ) (e : ℕ)
    → (e == 0x0D || e == 0x0A) ≡ true
    → (text' : List ℕ) × (rest' : List ℕ) × (typed (keys ++ (e ∷ rest)) text ≡ some (text', rest'))
typed_returns [] rest text e h = (text, rest, (key_end e rest text [] [] h).0)
typed_returns (c ∷ keys) rest text e h =
    let input : List ℕ = keys ++ (e ∷ rest) in
    elim (Bool-cases (c == 0x0D || c == 0x0A)) [
      | inl a ↦ (text, input, (key_end c input text [] [] a).0)
      | inr a ↦ elim (Bool-cases (c == 0x7F || c == 0x08)) [
        | inl b ↦
            let r = typed_returns keys rest (take (length text - 1) text) e h in
            (r.0, r.1, (key_erase c input text [] [] a b).1 ∙ r.2)
        | inr b ↦ elim (Bool-cases (ltb (length text) 511)) [
          | inl l ↦
              let r = typed_returns keys rest (text ++ (c ∷ [])) e h in
              (r.0, r.1, (key_append c input text [] [] a b l).0 ∙ r.2)
          | inr l ↦
              let r = typed_returns keys rest text e h in
              (r.0, r.1, (key_drop c input text [] [] a b l).0 ∙ r.2)
        ]
      ]
    ]

-- Whatever is typed before it, a CR or LF makes the keys complete a text, and the reader, on a
-- ring of 1024 bytes, return with that text in the line buffer, at most 511 bytes with a NUL
-- behind it, the first half of the ring as before, and the input behind the line left.
pub read_line_returns :
    (keys rest ring : List ℕ) (e : ℕ)
    → length ring ≡ 1024
    → (e == 0x0D || e == 0x0A) ≡ true
    → (ring' : List ℕ) × (rest' : List ℕ) × (echo : List ℕ) × (text : List ℕ) × (typed
          (keys ++ (e ∷ rest))
          []
        ≡ some (text, rest'))
      × (read_line (keys ++ (e ∷ rest)) 0 ring [] ≡ entered ring' rest' echo)
      × Typing ring ring' text
      × (get_or ring' (512 + length text) 0 ≡ 0)
read_line_returns keys rest ring e size h =
    let input : List ℕ = keys ++ (e ∷ rest) in
    let t = typed_returns keys rest [] e h in
    let r : Reads (some (t.0, t.1)) ring (read_line input 0 ring []) =
      subst (λ o. Reads o ring (read_line input 0 ring [])) t.2 (read_line-typed input ring size) in
    (r.0, t.1, r.1, t.0, t.2, r.2, r.3, r.4)
