-- ===== src/Ledger/Decimal/RoundTrip.antt =====
-- The text of an amount is read back.
use mathlib.Core.Path.{subst}
use mu_5x_fibonacci_trading.Base.{
  ℕ, zero, suc, ◌+◌, ◌-◌, ◌*◌, ◌/◌, ◌%◌, ◌^◌, ◌≤◌, ◌<◌, String, ◌≡◌, refl, ap, ◌∙◌, true, false,
  Option, some, inl, inr, List, [], ◌∷◌, ltb, ◌==◌, codes, length, arith, All, Bool-cases,
}
use mu_5x_fibonacci_trading.Ledger.Decimal.{
  one, read_digits, split_point, decimal, digit_char, text_onto, digits_onto, fraction_digits,
  number_text, fraction_text, read_integer, read_fraction,
}
use Prim.Native.Char.{code}
use native.Mathlib.Nat.{pow-succ', mod-lt, div-add-mod, div-lt_iff_lt-mul, suc-sub-suc, sub-zero}

abbrev IsDigit : ℕ → Type 0
IsDigit d = d < 10

code-digit_char : (d : ℕ) → d < 10 → code (digit_char d) ≡ d + 48
code-digit_char zero h = refl
code-digit_char (suc zero) h = refl
code-digit_char (suc (suc zero)) h = refl
code-digit_char (suc (suc (suc zero))) h = refl
code-digit_char (suc (suc (suc (suc zero)))) h = refl
code-digit_char (suc (suc (suc (suc (suc zero))))) h = refl
code-digit_char (suc (suc (suc (suc (suc (suc zero)))))) h = refl
code-digit_char (suc (suc (suc (suc (suc (suc (suc zero))))))) h = refl
code-digit_char (suc (suc (suc (suc (suc (suc (suc (suc zero)))))))) h = refl
code-digit_char (suc (suc (suc (suc (suc (suc (suc (suc (suc zero))))))))) h = refl
code-digit_char (suc (suc (suc (suc (suc (suc (suc (suc (suc (suc n)))))))))) h =
    absurd (omega arith)

-- The number that digits spell behind `n`.
abbrev value : ℕ → List ℕ → ℕ
value n [] = n
value n (d ∷ ds) = value (n * 10 + d) ds

module _ (wide : ℕ → Option ℕ) where
  read_digits-text_onto :
      (n : ℕ) (ds : List ℕ)
      → All IsDigit ds
      → read_digits wide n (codes (text_onto ds "")) ≡ some (value n ds)
  unfolding read_digits
  read_digits-text_onto n [] h = refl
  read_digits-text_onto n (d ∷ ds) h =
      ground (arith, code-digit_char d h.0, read_digits-text_onto (n * 10 + d) ds h.1)

length-text_onto : (ds : List ℕ) → length (codes (text_onto ds "")) ≡ length ds
length-text_onto [] = refl
length-text_onto (d ∷ ds) = ap suc (length-text_onto ds)

pow10_pos : (k : ℕ) → 0 < 10 ^ k
pow10_pos zero = omega arith
pow10_pos (suc k) = omega (arith, pow-succ' 10 k, pow10_pos k)

below_pow :
    (k n : ℕ)
    → n < 10 ^ suc k
    → (n / 10 ^ k < 10) × (n % 10 ^ k < 10 ^ k) × (10 ^ k * (n / 10 ^ k) + n % 10 ^ k ≡ n)
below_pow k n h = (
  (div-lt_iff_lt-mul (pow10_pos k)).1 (omega (arith, pow-succ' 10 k)),
  mod-lt n (pow10_pos k),
  div-add-mod n (10 ^ k),
)

fraction_digits-IsDigit : (k n : ℕ) → n < 10 ^ k → All IsDigit (fraction_digits k n)
unfolding fraction_digits
fraction_digits-IsDigit zero n h = tt
fraction_digits-IsDigit (suc k) n h =
    let (small, rest, same) = below_pow k n h in
    elim (Bool-cases (n == 0)) [
      | inl done ↦ rw (done, fraction_digits, All) tt
      | inr more ↦
          rw (more, fraction_digits, All) (small, fraction_digits-IsDigit k (n % 10 ^ k) rest)
    ]

length-fraction_digits : (k n : ℕ) → length (fraction_digits k n) ≤ k
unfolding fraction_digits
length-fraction_digits zero n = omega arith
length-fraction_digits (suc k) n = elim (Bool-cases (n == 0)) [
  | inl done ↦ rw (done, fraction_digits) (omega arith)
  | inr more ↦ rw (more, fraction_digits) (omega (arith, length-fraction_digits k (n % 10 ^ k)))
]

zero_test : (n : ℕ) → (n == 0) ≡ true → n ≡ 0
zero_test n h = ground arith

shift :
    (m k n : ℕ)
    → 10 ^ k * (n / 10 ^ k) + n % 10 ^ k ≡ n
    → (m * 10 + n / 10 ^ k) * 10 ^ k + n % 10 ^ k ≡ m * 10 ^ suc k + n
shift m k n h = rw (pow-succ' 10 k) (grind arith)

value-fraction_digits :
    (k n m : ℕ)
    → n < 10 ^ k
    → value m (fraction_digits k n) * 10 ^ (k - length (fraction_digits k n)) ≡ m * 10 ^ k + n
unfolding fraction_digits
value-fraction_digits zero n m h = omega arith
value-fraction_digits (suc k) n m h =
    let (small, rest, same) = below_pow k n h in
    elim (Bool-cases (n == 0)) [
      | inl done ↦
          rw (done, fraction_digits)
            (ap (λ e. m * 10 ^ e) (sub-zero (suc k)) ∙ omega (arith, zero_test n done))
      | inr more ↦
          rw (more, fraction_digits, suc-sub-suc k (length (fraction_digits k (n % 10 ^ k))))
            (value-fraction_digits k (n % 10 ^ k) (m * 10 + n / 10 ^ k) rest ∙ shift m k n same)
    ]

-- `digits_onto`
value-digits_onto :
    (fuel n : ℕ) (ds : List ℕ) → n ≤ fuel → value 0 (digits_onto fuel n ds) ≡ value n ds
unfolding digits_onto
value-digits_onto zero n ds h = let e : 0 * 10 + n ≡ n = omega arith in ap (λ k. value k ds) e
value-digits_onto (suc fuel) n ds h = elim (Bool-cases (ltb n 10)) [
  | inl small ↦
      let e : 0 * 10 + n ≡ n = omega arith in rw (small, digits_onto) (ap (λ k. value k ds) e)
  | inr large ↦
      let e : n / 10 * 10 + n % 10 ≡ n = omega arith in
      rw (large, digits_onto)
        (value-digits_onto fuel (n / 10) ((n % 10) ∷ ds) (ground arith) ∙ ap (λ k. value k ds) e)
]

digits_onto-IsDigit :
    (fuel n : ℕ) (ds : List ℕ) → n ≤ fuel → All IsDigit ds → All IsDigit (digits_onto fuel n ds)
unfolding digits_onto
digits_onto-IsDigit zero n ds h hs = (omega arith, hs)
digits_onto-IsDigit (suc fuel) n ds h hs = elim (Bool-cases (ltb n 10)) [
  | inl small ↦ rw (small, digits_onto, All) (ground arith, hs)
  | inr large ↦
      rw (large, digits_onto, All)
        (digits_onto-IsDigit fuel (n / 10) ((n % 10) ∷ ds) (ground arith) (omega arith, hs))
]

-- At most `k + 1` digits and no leading zero.
abbrev IsLeading : ℕ → List ℕ → Type 0
IsLeading k [] = ⊥
IsLeading k (d ∷ ds) = (0 < d) × (length ds ≤ k)

digits_onto-IsLeading :
    (fuel k l n : ℕ) (ds : List ℕ)
    → n ≤ fuel
    → 0 < n
    → n < 10 ^ suc k
    → length ds ≤ l
    → IsLeading (k + l) (digits_onto fuel n ds)
unfolding digits_onto
digits_onto-IsLeading zero k l n ds h p b e = absurd (omega arith)
digits_onto-IsLeading (suc fuel) zero l n ds h p b e =
    let small : ltb n 10 ≡ true = ground arith in
    rw (small, digits_onto, IsLeading) (p, omega arith)
digits_onto-IsLeading (suc fuel) (suc k) l n ds h p b e = elim (Bool-cases (ltb n 10)) [
  | inl small ↦ rw (small, digits_onto, IsLeading) (p, omega arith)
  | inr large ↦
      let m : k + suc l ≡ suc k + l = omega arith in
      rw (large, digits_onto, IsLeading)
        (subst (λ i. IsLeading i (digits_onto fuel (n / 10) ((n % 10) ∷ ds))) m
          (digits_onto-IsLeading fuel k (suc l) (n / 10) ((n % 10) ∷ ds) (ground arith)
            (ground arith) (omega (arith, pow-succ' 10 (suc k))) (omega arith)))
]

module _ (wide : ℕ → Option ℕ) where
  read_integer-leading :
      (ds : List ℕ)
      → All IsDigit ds
      → IsLeading 17 ds
      → read_integer wide (codes (text_onto ds "")) ≡ some (value 0 ds)
  unfolding read_digits
  read_integer-leading [] h l = absurd l
  read_integer-leading (d ∷ ds) h l =
      ground
        (arith, code-digit_char d h.0, length-text_onto ds, read_digits-text_onto wide d ds h.1)

  split_point-text_onto :
      (ds : List ℕ) (s : String)
      → All IsDigit ds
      → (split_point wide (codes s)).0 ≡ []
      → split_point wide (codes (text_onto ds s))
        ≡ (codes (text_onto ds ""), (split_point wide (codes s)).1)
  split_point-text_onto [] s h e = ground arith
  split_point-text_onto (d ∷ ds) s h e =
      ground (arith, code-digit_char d h.0, split_point-text_onto ds s h.1 e)

  read_integer-digits :
      (q : ℕ) → q < 10 ^ 18 → read_integer wide (codes (text_onto (digits_onto q q []) "")) ≡ some q
  unfolding read_digits digits_onto
  read_integer-digits zero b = refl
  read_integer-digits (suc q) b =
      read_integer-leading (digits_onto (suc q) (suc q) [])
        (digits_onto-IsDigit (suc q) (suc q) [] (omega arith) tt)
        (digits_onto-IsLeading (suc q) 17 0 (suc q) [] (omega arith) (omega arith) b (omega arith))
      ∙ ap some (value-digits_onto (suc q) (suc q) [] (omega arith))

  fraction_digits-nonempty : (k n : ℕ) → 0 < n → 1 ≤ length (fraction_digits (suc k) n)
  unfolding fraction_digits
  fraction_digits-nonempty k n p =
      let more : (n == 0) ≡ false = ground arith in rw (more, fraction_digits) (omega arith)

  read_fraction-digits :
      (r : ℕ)
      → 0 < r
      → r < one
      → read_fraction wide (some (codes (text_onto (fraction_digits 12 r) ""))) ≡ some r
  read_fraction-digits r p b =
      let ds = fraction_digits 12 r in
      rw (length-text_onto ds, read_digits-text_onto wide 0 ds (fraction_digits-IsDigit 12 r b))
        (ground (
          arith,
          fraction_digits-nonempty 11 r p,
          length-fraction_digits 12 r,
          value-fraction_digits 12 r 0 b,
        ))

  -- The two texts that may follow the integer digits.
  fraction_text-read :
      (r : ℕ)
      → r < one
      → ((split_point wide (codes (fraction_text r))).0 ≡ [])
        × (read_fraction wide (split_point wide (codes (fraction_text r))).1 ≡ some r)
  fraction_text-read zero b = (refl, refl)
  fraction_text-read (suc r) b =
      let some_left : (suc r == 0) ≡ false = ground arith in
      rw some_left (refl, read_fraction-digits (suc r) (omega arith) b)

  -- An amount in the range of `_decimal` is read back from the text that `_number` gives it.
  pub decimal-number_text :
      (n : ℕ) → 0 < n → n < 10 ^ 18 * one → decimal wide (number_text n) ≡ some n
  unfolding decimal number_text
  decimal-number_text n p b =
      let q = n / one in
      let (empty, read) = fraction_text-read (n % one) (omega arith) in
      let split =
        split_point-text_onto (digits_onto q q []) (fraction_text (n % one))
          (digits_onto-IsDigit q q [] (omega arith) tt) empty in
      let back : n / one * one + n % one ≡ n = omega arith in
      rw (split, read_integer-digits q (omega arith), read, back) (ground arith)
