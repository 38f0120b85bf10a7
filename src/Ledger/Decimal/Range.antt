-- ===== src/Ledger/Decimal/Range.antt =====
-- The range of what `_decimal` and `_stage` return, where every digit has a value below ten.
use native.Mathlib.Nat.{pow-succ', mul-le-mul, mul-le-mul_right, pow-le-pow_right, mul_assoc}
use mu_5x_fibonacci_trading.Base.{
  ℕ, zero, suc, ◌+◌, ◌-◌, ◌*◌, ◌^◌, ◌≤◌, ◌<◌, String, ◌≡◌, ap, ◌∙◌, ◌&&◌, Option, none, some, inl,
  inr, List, [], ◌∷◌, leb, codes, length, arith, Bool-cases, Option-cases,
}
use mu_5x_fibonacci_trading.Execution.Intent.Codec.{bound}
use mu_5x_fibonacci_trading.Ledger.Decimal.{
  one, digit, read_digits, split_point, decimal, read_integer, read_fraction, stage, read_stage,
}

pow-add : (k l : ℕ) → 10 ^ k * 10 ^ l ≡ 10 ^ (k + l)
pow-add zero l = let e : zero + l ≡ l = omega arith in rw e (omega arith)
pow-add (suc k) l =
    let e : suc k + l ≡ suc (k + l) = omega arith in
    rw e (
      omega (
        arith,
        pow-succ' 10 k,
        pow-succ' 10 (k + l),
        pow-add k l,
        mul_assoc 10 (10 ^ k) (10 ^ l),
        ap (λ n. n * 10 ^ l) (pow-succ' 10 k),
      ))

scaled_lt : (m k l r : ℕ) → k + l ≡ 12 → m < 10 ^ k → m * 10 ^ l ≡ r → r < one
scaled_lt m k l r twelve small e =
    let whole : 10 ^ k * 10 ^ l ≡ one = pow-add k l ∙ ap (λ n. 10 ^ n) twelve in
    omega (
      arith,
      mul-le-mul_right {m = m + 1} {n = 10 ^ k} (10 ^ l) (omega arith),
      pow-le-pow_right {n = 10} (omega arith) {i = 0} {j = l} (omega arith),
      whole,
    )

module _ (wide : ℕ → Option ℕ) (below_ten : (c d : ℕ) → wide c ≡ some d → d < 10) where
  digit_lt : (c d : ℕ) → digit wide c ≡ some d → d < 10
  digit_lt c d h = ground (arith, below_ten c d)

  read_digits_lt :
      (n : ℕ) (cs : List ℕ) (r : ℕ) → read_digits wide n cs ≡ some r → r < (n + 1) * 10 ^ length cs
  unfolding read_digits
  read_digits_lt n [] r h = let e : n ≡ r = cc h in omega arith
  read_digits_lt n (c ∷ cs) r h = elim (Option-cases (digit wide c)) [
    | inl wrong ↦ absurd (cc (rw (wrong, read_digits) at h))
    | inr (d, read) ↦
        let rest = read_digits_lt (n * 10 + d) cs r (rw (read, read_digits) at h) in
        step n d (10 ^ length cs) r (10 ^ suc (length cs)) (digit_lt c d read)
          (pow-succ' 10 (length cs)) rest
  ]
    where
      step : (n d p r q : ℕ) → d < 10 → q ≡ 10 * p → r < (n * 10 + d + 1) * p → r < (n + 1) * q
      step n d p r q lt e h = omega (
        arith,
        mul-le-mul_right {m = n * 10 + d + 1} {n = (n + 1) * 10} p (omega arith),
        mul_assoc (n + 1) 10 p,
        ap (λ k. (n + 1) * k) e,
      )

  le-read_digits : (n : ℕ) (cs : List ℕ) (r : ℕ) → read_digits wide n cs ≡ some r → n ≤ r
  unfolding read_digits
  le-read_digits n [] r h = let e : n ≡ r = cc h in omega arith
  le-read_digits n (c ∷ cs) r h = elim (Option-cases (digit wide c)) [
    | inl wrong ↦ absurd (cc (rw (wrong, read_digits) at h))
    | inr (d, read) ↦ omega (arith, le-read_digits (n * 10 + d) cs r (rw (read, read_digits) at h))
  ]

  -- A first digit and at most `k` more.
  leading_lt :
      (n : ℕ) (cs : List ℕ) (k r : ℕ)
      → n < 10
      → length cs ≤ k
      → read_digits wide n cs ≡ some r
      → r < 10 * 10 ^ k
  leading_lt n cs k r small short h = omega (
    arith,
    read_digits_lt n cs r h,
    mul-le-mul {n₁ = n + 1} {m₁ = 10 ^ length cs} {n₂ = 10} {m₂ = 10 ^ k} (omega arith)
        (pow-le-pow_right (omega arith) short),
  )

  read_integer_lt : (cs : List ℕ) (r : ℕ) → read_integer wide cs ≡ some r → r < 10 ^ 18
  read_integer_lt [] r h = absurd (cc h)
  read_integer_lt (c ∷ cs) r h = ground (arith, leading_lt (c - b'0') cs 17 r)

  read_fraction_lt : (o : Option (List ℕ)) (r : ℕ) → read_fraction wide o ≡ some r → r < one
  read_fraction_lt none r h = ground arith
  read_fraction_lt (some ds) r h = elim (Bool-cases (leb 1 (length ds) && leb (length ds) 12)) [
    | inr wrong ↦ absurd (cc (rw wrong at h))
    | inl fits ↦ elim (Option-cases (read_digits wide 0 ds)) [
      | inl unread ↦ absurd (cc (rw (fits, unread) at h))
      | inr (m, read) ↦
          let e : m * 10 ^ (12 - length ds) ≡ r = cc (rw (fits, read) at h) in
          scaled_lt m (length ds) (12 - length ds) r (ground arith)
            (omega (arith, read_digits_lt 0 ds m read)) e
    ]
  ]

  -- `_decimal` returns a positive amount below 10¹⁸.
  pub decimal_bounds :
      (s : String) (n : ℕ) → decimal wide s ≡ some n → (0 < n) × (n < 10 ^ 18 * one)
  unfolding decimal
  decimal_bounds s n h =
      let (whole, hw, h1) = bound (read_integer wide (split_point wide (codes s)).0) _ h in
      let (part, hp, h2) = bound (read_fraction wide (split_point wide (codes s)).1) _ h1 in
      ground (
        arith,
        read_integer_lt (split_point wide (codes s)).0 whole hw,
        read_fraction_lt (split_point wide (codes s)).1 part hp,
      )

  read_stage_bounds :
      (cs : List ℕ) (n : ℕ) → read_stage wide cs ≡ some (some n) → (1 ≤ n) × (n ≤ 99)
  read_stage_bounds [] n h = absurd (cc h)
  read_stage_bounds (c ∷ cs) n h =
      elim (Bool-cases (leb b'1' c && leb c b'9' && leb (length cs) 1)) [
        | inr wrong ↦ absurd (cc (rw wrong at h))
        | inl fits ↦ elim (Option-cases (read_digits wide (c - b'0') cs)) [
          | inl unread ↦ absurd (cc (rw (fits, unread) at h))
          | inr (m, read) ↦
              let e : m ≡ n = cc (rw (fits, read) at h) in
              ground (arith, leading_lt (c - b'0') cs 1 m, le-read_digits (c - b'0') cs m)
        ]
      ]

  -- `_stage` returns a stage between 1 and 99, or none.
  pub stage_bounds : (s : String) (n : ℕ) → stage wide s ≡ some (some n) → (1 ≤ n) × (n ≤ 99)
  unfolding stage
  stage_bounds s n h = read_stage_bounds (codes s) n h
