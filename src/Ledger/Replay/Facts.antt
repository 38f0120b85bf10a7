-- ===== src/Ledger/Replay/Facts.antt =====
-- A projection comes from a replay that went through.
use mu_5x_fibonacci_trading.Base.{◌≡◌, sym, ap, some, List, map}
use mu_5x_fibonacci_trading.Execution.Intent.Codec.{bound}
use mu_5x_fibonacci_trading.Ledger.Externals.{Externals}
use mu_5x_fibonacci_trading.Ledger.Replay.{
  FillRevision, fill_of_revision, project_fills, Holding, no_holding, replay, Projection,
  projection, project,
}

module _ (x : Externals) where
  pub project-replay :
      (history : List FillRevision) {p : Projection x}
      → project x history ≡ some p
      → (h : Holding x) × (replay x (map fill_of_revision (project_fills history)) (no_holding x)
          ≡ some h)
        × (projection x history h ≡ p)
  unfolding project
  project-replay history e =
      let (h, ran, same) =
        bound (replay x (map fill_of_revision (project_fills history)) (no_holding x)) _ e in
      (h, ran, cc same)

  pub history-project :
      (history : List FillRevision) {p : Projection x}
      → project x history ≡ some p
      → p.history ≡ history
  history-project history e =
      let (h, ran, same) = project-replay history e in
      ap (λ (q : Projection x). q.history) (sym same)
