-- ===== src/Machine/Mips/Mult/Rounds.antt =====
-- The loop of `Mult` adds up the product.
use cop5614nachos.Base.{
  ℕ, zero, suc, ◌+◌, ◌*◌, ◌/◌, ◌%◌, ◌^◌, ◌≤◌, ◌<◌, ◌≡◌, inl, inr, ◌∙◌, sym, ap, refl, ◌==◌, bit_and,
  arith, Bool-cases,
}
use native.Mathlib.Nat.{one-le-pow, pow-suc}
use cop5614nachos.Machine.Mips.Word.{word_size, shift_left, shift_right}
use cop5614nachos.Machine.Mips.Mult.{add_double, shifted_hi, mult_loop}
use cop5614nachos.Machine.Mips.Mult.Digits.{
  double, double-add_double, double-shifted, Holds, last_round, Holds-shifted, product-halved,
  mult_loop-zero, mult_loop-last, mult_loop-odd, mult_loop-even,
}

le-scaled : (x p : ℕ) → 0 < p → x ≤ x * p
le-scaled x zero h = absurd (omega arith)
le-scaled x (suc p) h = omega arith

scaled : (x p : ℕ) → x * (p * 2) ≡ x * 2 * p
scaled x p = omega arith

-- The digits that are left fit, and so does the shifted `b`.
Holds-digit : (n a c : ℕ) → Holds (suc n) a c → a % 2 ≡ c % 2
Holds-digit n a c (inl e) = rw e refl
Holds-digit n a c (inr e) = omega (arith, pow-suc 2 n)

shift_right-lt : (a : ℕ) → a < word_size → shift_right a 1 < word_size
shift_right-lt a lt = ground arith

Holds-last : (n a c : ℕ) → Holds (suc n) a c → c < 2 ^ suc n → n < 32 → a / 2 ≡ 0 → c / 2 ≡ 0
Holds-last n a c (inl e) fits lt done = rw (sym e) done
Holds-last n a c (inr e) fits lt done = elim (last_round n lt) [
  | inl at ↦ let e' = rw at at e in omega arith
  | inr small ↦ absurd (omega arith)
]

-- The rounds that are left add the rest of the product, and no sum or shift wraps around.
abbrev pub Multiplies : ℕ → Type 0
Multiplies rounds =
    (a c b_hi b_lo : ℕ) (sum : ℕ × ℕ)
    → rounds ≤ 32
    → a < word_size
    → c < 2 ^ rounds
    → Holds rounds a c
    → b_lo < word_size
    → sum.1 < word_size
    → (b_hi * word_size + b_lo) * 2 ^ rounds < 2 ^ 64
    → double sum + c * (b_hi * word_size + b_lo) < 2 ^ 64
    → double (mult_loop rounds a b_hi b_lo sum) ≡ double sum + c * (b_hi * word_size + b_lo)

room : (rounds b : ℕ) → b * 2 ^ suc rounds < 2 ^ 64 → (b * 2 * 2 ^ rounds < 2 ^ 64) × (b < 2 ^ 63)
room rounds b fits =
    let next : b * 2 * 2 ^ rounds < 2 ^ 64 =
      omega (arith, rw (pow-suc 2 rounds, scaled b (2 ^ rounds)) at fits) in
    (next, omega (arith, le-scaled (b * 2) (2 ^ rounds) (one-le-pow rounds 2 (omega arith))))

mult_loop-next :
    (rounds : ℕ)
    → Multiplies rounds
    → (a c b_hi b_lo : ℕ) (sum sum1 : ℕ × ℕ)
    → let b = b_hi * word_size + b_lo in
      rounds < 32
      → a < word_size
      → c < 2 ^ suc rounds
      → Holds (suc rounds) a c
      → b_lo < word_size
      → sum1.1 < word_size
      → b * 2 ^ suc rounds < 2 ^ 64
      → double sum + c * b < 2 ^ 64
      → double sum1 ≡ double sum + c % 2 * b
      → double (mult_loop rounds (shift_right a 1) (shifted_hi b_hi b_lo) (shift_left b_lo 1) sum1)
        ≡ double sum + c * b
mult_loop-next rounds ih a c b_hi b_lo sum sum1 h lt fits holds low lo_low bound total e =
    let b = b_hi * word_size + b_lo in
    let (next, small) = room rounds b bound in
    let twice = double-shifted b_hi b_lo small low in
    let half = product-halved c b in
    ih (shift_right a 1) (c / 2) (shifted_hi b_hi b_lo) (shift_left b_lo 1) sum1 (omega arith)
      (shift_right-lt a lt) (omega (arith, pow-suc 2 rounds))
      (Holds-shifted rounds a c h lt fits holds) (omega arith) lo_low (rw twice next)
      (rw twice (omega arith))
    ∙ rw twice (omega arith)

pub mult_loop-product : (rounds : ℕ) → Multiplies rounds
mult_loop-product zero a c b_hi b_lo sum h lt fits holds low lo_low bound total =
    let none_left : c ≡ 0 = omega arith in
    ap double (mult_loop-zero a b_hi b_lo sum) ∙ rw none_left (omega arith)
mult_loop-product (suc rounds) a c b_hi b_lo sum h lt fits holds low lo_low bound total =
    let b = b_hi * word_size + b_lo in
    let digit = Holds-digit rounds a c holds in
    let half = product-halved c b in
    let next = λ (sum1 : ℕ × ℕ) (l : sum1.1 < word_size) (e : double sum1 ≡ double sum + c % 2 * b).
      mult_loop-next rounds (mult_loop-product rounds) a c b_hi b_lo sum sum1 (omega arith) lt fits
        holds low l bound total e in
    elim (Bool-cases (a % 2 == 0)) [
      | inl even ↦
          let same : c % 2 ≡ 0 = ground arith in
          ap double (mult_loop-even rounds a b_hi b_lo sum (ground arith))
          ∙ next sum lo_low (rw same (omega arith))
      | inr odd ↦
          let same : c % 2 ≡ 1 = ground arith in
          let one : c % 2 * b ≡ b = rw same (omega arith) in
          let added = double-add_double b_hi b_lo sum.0 sum.1 low lo_low (omega arith) in
          elim (Bool-cases (a / 2 * 2 == 0)) [
            | inl done ↦
                let last = Holds-last rounds a c holds fits (omega arith) (ground arith) in
                let nothing : c / 2 * (b * 2) ≡ 0 = rw last (omega arith) in
                ap double (mult_loop-last rounds a b_hi b_lo sum (ground arith) (ground arith) lt)
                ∙ added
                ∙ omega arith
            | inr more ↦
                ap double (mult_loop-odd rounds a b_hi b_lo sum (ground arith) more lt)
                ∙ next (add_double b_hi b_lo sum.0 sum.1) (omega arith)
                    (rw same (omega (arith, added)))
          ]
    ]

pub mult_loop-word :
    (rounds a b_hi b_lo : ℕ) (sum : ℕ × ℕ)
    → sum.1 < word_size
    → (mult_loop rounds a b_hi b_lo sum).1 < word_size
unfolding mult_loop
mult_loop-word zero a b_hi b_lo sum lt = lt
mult_loop-word (suc rounds) a b_hi b_lo sum lt =
    let ih = λ (s : ℕ × ℕ) (l : s.1 < word_size).
      mult_loop-word rounds (shift_right a 1) (shifted_hi b_hi b_lo) (shift_left b_lo 1) s l in
    elim (Bool-cases (bit_and a 1 == 0)) [
      | inl even ↦ rw even (ih sum lt)
      | inr odd ↦ elim (Bool-cases (bit_and a 0xffff_fffe == 0)) [
        | inl done ↦ rw (odd, done) (omega arith)
        | inr more ↦ rw (odd, more) (ih (add_double b_hi b_lo sum.0 sum.1) (omega arith))
      ]
    ]
