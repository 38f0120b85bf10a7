-- ===== src/Ledger/Balance.antt =====
-- The recorded quantity is what was bought less what was sold, and no more was ever sold than held.
use mu_5x_fibonacci_trading.Base.{
  ℕ, ◌+◌, ◌-◌, ◌≤◌, ◌≡◌, refl, sym, ap, ◌∙◌, false, Option, none, some, List, [], ◌∷◌, ◌++◌,
  if◌then◌else◌, arith, Bool-cases, inl, inr, map,
}
use mathlib.Core.Path.{subst}
use mu_5x_fibonacci_trading.Execution.Intent.Codec.{bound}
use mu_5x_fibonacci_trading.Ledger.Externals.{Externals}
use mu_5x_fibonacci_trading.Ledger.Decimal.{decimal, number_text}
use mu_5x_fibonacci_trading.Ledger.Fill.{Fill, Action, buy, sell}
use mu_5x_fibonacci_trading.Ledger.Replay.{
  FillRevision, Holding, no_holding, trade, replay_fill, replay, Projection, project,
  fill_of_revision, project_fills,
}
use mu_5x_fibonacci_trading.Ledger.Replay.Facts.{project-replay}

module _ (x : Externals) where
  abbrev units_or_zero : Option ℕ → ℕ
  units_or_zero none = 0
  units_or_zero (some n) = n

  -- The units of a fill, 0 if it is void.
  abbrev pub units_of : Fill → ℕ
  units_of f = if f.voided then 0 else units_or_zero (decimal x.wide_digit f.quantity)

  abbrev bought_by : Action → ℕ → ℕ
  bought_by buy n = n
  bought_by sell n = 0

  abbrev sold_by : Action → ℕ → ℕ
  sold_by buy n = 0
  sold_by sell n = n

  -- The units that were bought, and those that were sold.
  abbrev pub bought : List Fill → ℕ
  bought [] = 0
  bought (f ∷ fs) = bought_by f.action (units_of f) + bought fs

  abbrev pub sold : List Fill → ℕ
  sold [] = 0
  sold (f ∷ fs) = sold_by f.action (units_of f) + sold fs

  zero_bought : (a : Action) → bought_by a 0 ≡ 0
  zero_bought buy = refl
  zero_bought sell = refl

  zero_sold : (a : Action) → sold_by a 0 ≡ 0
  zero_sold buy = refl
  zero_sold sell = refl

  trade_balance :
      (a : Action) (f : Fill) (units price : ℕ) (h h' : Holding x)
      → trade x a f units price h ≡ some h'
      → h'.quantity + sold_by a units ≡ h.quantity + bought_by a units
  unfolding trade
  trade_balance buy f units price h h' e = ground arith
  trade_balance sell f units price h h' e = ground arith

  replay_fill_balance :
      (f : Fill) (h h' : Holding x)
      → replay_fill x f h ≡ some h'
      → h'.quantity + sold_by f.action (units_of f) ≡ h.quantity + bought_by f.action (units_of f)
  unfolding replay_fill
  replay_fill_balance f h h' e = elim (Bool-cases f.voided) [
    | inl void ↦
        let same : h ≡ h' = cc (rw (void) at e) in
        rw (void, zero_bought f.action, zero_sold f.action)
          (omega (arith, ap (λ (k : Holding x). k.quantity) same))
    | inr counted ↦
        let (units, read, rest) = bound (decimal x.wide_digit f.quantity) _ (rw counted at e) in
        let (price, priced, traded) = bound (decimal x.wide_digit f.price) _ rest in
        rw (counted, read)
          (trade_balance f.action (record f { voided = false }) units price h h' traded)
  ]

  replay_balance :
      (fs : List Fill) (h h' : Holding x)
      → replay x fs h ≡ some h'
      → h'.quantity + sold fs ≡ h.quantity + bought fs
  unfolding replay
  replay_balance [] h h' e =
      let same : h ≡ h' = cc e in omega (arith, ap (λ (k : Holding x). k.quantity) same)
  replay_balance (f ∷ fs) h h' e =
      let (k, one, rest) = bound (replay_fill x f h) _ e in
      omega (arith, replay_fill_balance f h k one, replay_balance fs k h' rest)

  -- A replay that went through went through every beginning of it.
  replay-append :
      (fs gs : List Fill) (h h' : Holding x)
      → replay x (fs ++ gs) h ≡ some h'
      → (k : Holding x) × (replay x fs h ≡ some k)
  unfolding replay
  replay-append [] gs h h' e = (h, refl)
  replay-append (f ∷ fs) gs h h' e =
      let (k, one, rest) = bound (replay_fill x f h) _ e in
      let (m, ran) = replay-append fs gs k h' rest in (m, rw (one, ran))

  -- Of the fills that a projection counts, in their order, no beginning sells more than it bought, and
  -- the recorded quantity is the text of what all bought less what all sold.
  pub project_balance :
      (history : List FillRevision) {p : Projection x} (fs gs : List Fill)
      → project x history ≡ some p
      → map fill_of_revision p.fills ≡ fs ++ gs
      → (sold fs ≤ bought fs)
        × (p.recorded_quantity
            ≡ number_text
                (bought (map fill_of_revision p.fills) - sold (map fill_of_revision p.fills)))
  project_balance history {p} fs gs e parts =
      let (h, ran, same) = project-replay x history e in
      let fills : map fill_of_revision (project_fills history) ≡ map fill_of_revision p.fills =
        ap (λ (q : Projection x). map fill_of_revision q.fills) same in
      let all_ran : replay x (map fill_of_revision p.fills) (no_holding x) ≡ some h =
        subst (λ l. replay x l (no_holding x) ≡ some h) fills ran in
      let (k, begun) =
        replay-append fs gs (no_holding x) h
          (subst (λ l. replay x l (no_holding x) ≡ some h) parts all_ran) in
      let whole : h.quantity
          ≡ bought (map fill_of_revision p.fills) - sold (map fill_of_revision p.fills) =
        omega (arith, replay_balance (map fill_of_revision p.fills) (no_holding x) h all_ran) in
      (
        omega (arith, replay_balance fs (no_holding x) k begun),
        ap (λ (q : Projection x). q.recorded_quantity) (sym same) ∙ ap number_text whole,
      )
