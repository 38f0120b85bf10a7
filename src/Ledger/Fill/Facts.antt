-- ===== src/Ledger/Fill/Facts.antt =====
-- What a form gives is read back from its record: amounts, notes and stages.
use Prim.Native.Char.{code}
use mu_5x_fibonacci_trading.Base.{
  ℕ, ◌≤◌, String, ◌≡◌, refl, Bool, true, false, Option, none, some, inl, inr, leb, codes,
  count_codes, is_space, arith, Bool-cases, is_some, str_eq,
}
use mu_5x_fibonacci_trading.Execution.Intent.Codec.{bound}
use mu_5x_fibonacci_trading.Ledger.Externals.{Externals, DigitsBelowTen}
use mu_5x_fibonacci_trading.Ledger.Decimal.{decimal, number_text, stage}
use mu_5x_fibonacci_trading.Ledger.Decimal.RoundTrip.{decimal-number_text}
use mu_5x_fibonacci_trading.Ledger.Decimal.Range.{decimal_bounds, stage_bounds}
use mu_5x_fibonacci_trading.Ledger.Fill.{
  strip_left, strip_right, cons_unless_blank, note_of, amount, optional_amount, stop_readable,
  stage_in_range,
}

count-strip_left : (s : String) → count_codes (codes (strip_left s)) ≤ count_codes (codes s)
unfolding strip_left
count-strip_left String.[] = omega arith
count-strip_left (String.◌∷◌ c s) = ground (arith, count-strip_left s)

count-cons_unless_blank :
    (blank : Bool) (rest whole : String)
    → count_codes (codes (cons_unless_blank blank rest whole)) ≤ count_codes (codes whole)
count-cons_unless_blank true String.[] whole = omega arith
count-cons_unless_blank true (String.◌∷◌ c s) whole = omega arith
count-cons_unless_blank false rest whole = omega arith

count-strip_right : (s : String) → count_codes (codes (strip_right s)) ≤ count_codes (codes s)
unfolding strip_right
count-strip_right String.[] = omega arith
count-strip_right (String.◌∷◌ c s) = omega (
  arith,
  count-cons_unless_blank (is_space (code c)) (strip_right s) (String.◌∷◌ c (strip_right s)),
  count-strip_right s,
)

-- A stripped note is a note.
pub note_of-note_of : (s : String) {n : String} → note_of s ≡ some n → is_some (note_of n) ≡ true
unfolding note_of
note_of-note_of s {n} h = elim (Bool-cases (leb (count_codes (codes s)) 2000)) [
  | inr long ↦ absurd (cc (rw long at h))
  | inl short ↦
      let e : strip_right (strip_left s) ≡ n = cc (rw short at h) in
      rw (← e) (ground (arith, count-strip_right (strip_left s), count-strip_left s))
]

module _ (x : Externals) (below_ten : DigitsBelowTen x) where
  amount_readable :
      (o : Option String) {t : String}
      → amount x o ≡ some t
      → is_some (decimal x.wide_digit t) ≡ true
  unfolding amount
  amount_readable none h = absurd (cc h)
  amount_readable (some s) {t} h =
      let (n, read, same) = bound (decimal x.wide_digit s) _ h in
      let (pos, low) = decimal_bounds x.wide_digit below_ten s n read in
      let e : number_text n ≡ t = cc same in
      rw (← e) (rw (decimal-number_text x.wide_digit n pos low))

  pub stop_readable-optional_amount :
      (s : String) {stop : Option String}
      → optional_amount x s ≡ some stop
      → stop_readable x stop ≡ true
  stop_readable-optional_amount s {stop} h = elim (Bool-cases (str_eq s "")) [
    | inl blank ↦ let e : none ≡ stop = cc (rw blank at h) in rw (← e) refl
    | inr given ↦
        let (t, made, same) = bound (amount x (some s)) (λ t. some (some t)) (rw given at h) in
        let e : some t ≡ stop = cc same in rw (← e) (amount_readable (some s) made)
  ]

  pub stage_in_range-stage :
      (s : String) {n : Option ℕ} → stage x.wide_digit s ≡ some n → stage_in_range n ≡ true
  stage_in_range-stage s {n = none} h = refl
  stage_in_range-stage s {n = some n} h = ground (arith, stage_bounds x.wide_digit below_ten s n h)
