-- ===== src/Debug/Panic.antt =====
-- The texts that source/debug.cpp puts together: OSPanic and __os_snprintf. Texts are lists of characters
-- without their final 0. What `vsnprintf` makes of a format is an argument; the directives of OSPanic's own
-- format, `%s` and `%lu`, are written out.
use native.Mathlib.Nat.{pow-suc}
use coreinit_nx.Base.{
  ℕ, zero, suc, ◌+◌, ◌-◌, ◌*◌, ◌/◌, ◌%◌, ◌^◌, ◌≤◌, ◌<◌, ◌≡◌, refl, ap, ◌∙◌, Bool, not, ◌||◌, List,
  [], ◌∷◌, ◌++◌, Option, none, some, ltb, ◌==◌, if◌then◌else◌, Bool-cases, inl, inr, take, length,
  length-append, arith,
}
use coreinit_nx.Base.Int.{ℤ, pos}
use coreinit_nx.Base.Text.{codes}
use coreinit_nx.Debug.{Debug, Output, to_fatal, os_fatal}

-- `%lu`, for a number of at most as many digits.
pub decimal : ℕ → ℕ → List ℕ
decimal zero n = []
decimal (suc digits) n =
    let rest = decimal digits (n / 10) in (if ltb n 10 then [] else rest) ++ (48 + n % 10) ∷ []

-- `buf` and `full`, and the file name of a null pointer.
abbrev pub panic_buffer : ℕ
panic_buffer = 512

abbrev pub full_buffer : ℕ
full_buffer = 640

abbrev pub file_or : Option (List ℕ) → List ℕ
file_or none = codes "?"
file_or (some file) = file

-- The text before it is cut to the buffer.
pub full_text : Option (List ℕ) → ℕ → List ℕ → List ℕ
full_text file line text =
    file_or file ++ (codes ":" ++ (decimal 10 line ++ (codes ": " ++ take (panic_buffer - 1) text)))

-- `OSPanic`, with the text of its format, which is empty for a null pointer.
pub os_panic : Debug → Option (List ℕ) → ℕ → List ℕ → Output
os_panic d file line text = os_fatal d (take (full_buffer - 1) (full_text file line text))

-- `__os_snprintf`, with whether the buffer and the format are there, the answer of `vsnprintf` and the text
-- it makes of the format: what it returns and what it leaves in the buffer.
pub os_snprintf : Bool → ℕ → Bool → ℤ → List ℕ → ℤ × Option (List ℕ)
os_snprintf buffer n format written text =
    if not buffer || n == 0 || not format
    then (pos 0, none)
    else (written, some (take (n - 1) text))

-- The number that digits read as, behind others.
abbrev pub value_from : ℕ → List ℕ → ℕ
value_from acc [] = acc
value_from acc (c ∷ s) = value_from (acc * 10 + (c - 48)) s

value-append :
    (acc : ℕ) (xs ys : List ℕ) → value_from acc (xs ++ ys) ≡ value_from (value_from acc xs) ys
value-append acc [] ys = refl
value-append acc (x ∷ xs) ys = value-append (acc * 10 + (x - 48)) xs ys

-- `%lu` writes a number that the digits suffice for so that it reads back as the number.
value-decimal : (digits n : ℕ) → n < 10 ^ digits → value_from 0 (decimal digits n) ≡ n
unfolding decimal
value-decimal zero n h = omega arith
value-decimal (suc digits) n h = elim (Bool-cases (ltb n 10)) [
  | inl e ↦ rw e (ground (arith, e))
  | inr e ↦
      let rest = value-decimal digits (n / 10) (omega (arith, pow-suc 10 digits)) in
      let last : List ℕ = (48 + n % 10) ∷ [] in
      rw e (
        value-append 0 (decimal digits (n / 10)) last
        ∙ ap (λ v. value_from v last) rest
        ∙ omega arith)
]

length-decimal : (digits n : ℕ) → length (decimal digits n) ≤ digits
unfolding decimal
length-decimal zero n = omega arith
length-decimal (suc digits) n = elim (Bool-cases (ltb n 10)) [
  | inl e ↦ rw e (omega arith)
  | inr e ↦ rw e (
      omega (
        arith,
        length-append (decimal digits (n / 10)) ((48 + n % 10) ∷ []),
        length-decimal digits (n / 10),
      ))
]

take_all : (n : ℕ) (xs : List ℕ) → length xs ≤ n → take n xs ≡ xs
take_all zero [] h = refl
take_all zero (x ∷ xs) h = absurd (omega arith)
take_all (suc n) [] h = refl
take_all (suc n) (x ∷ xs) h = ap (λ r. x ∷ r) (take_all n xs (omega arith))

length-take : (n : ℕ) (xs : List ℕ) → length (take n xs) ≤ n
length-take zero xs = omega arith
length-take (suc n) [] = omega arith
length-take (suc n) (x ∷ xs) = omega (arith, length-take n xs)

-- For a file name of at most 115 characters, `OSPanic` hands the handler in place the file name, the line
-- in digits that read back as the line and the first 511 characters of its text, with nothing lost between
-- them.
pub os_panic_lem :
    (d : Debug) (file : Option (List ℕ)) (line : ℕ) (text : List ℕ)
    → line < 2 ^ 32
    → length (file_or file) ≤ 115
    → (digits : List ℕ) × (os_panic d file line text
        ≡ to_fatal d.fatal (file_or file ++ (58 ∷ (digits ++ (58 ∷ 32 ∷ take 511 text)))))
      × (value_from 0 digits ≡ line)
unfolding os_panic os_fatal full_text
os_panic_lem d file line text h k = (
  decimal 10 line,
  ap (to_fatal d.fatal) (
      take_all 639 _ (
        omega (
          arith,
          length-append (file_or file) (58 ∷ (decimal 10 line ++ (58 ∷ 32 ∷ take 511 text))),
          length-append (decimal 10 line) (58 ∷ 32 ∷ take 511 text),
          length-decimal 10 line,
          length-take 511 text,
        ))),
  value-decimal 10 line (omega arith),
)
