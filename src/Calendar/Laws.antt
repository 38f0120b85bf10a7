-- ===== src/Calendar/Laws.antt =====
-- When the calendar allows a time: an independent description by the windows and the session.
use mathlib.Core.Path.{subst}
use mu_5x_fibonacci_trading.Base.{
  ℕ, ◌+◌, ◌*◌, ◌≡◌, refl, ap, sym, ◌∙◌, min, max, String, Bool, false, ◌&&◌, ◌||◌, Option, none,
  some, List, [], ◌∷◌, leb, ltb, any, arith, Bool-cases, inl, inr,
}
use mu_5x_fibonacci_trading.Runtime.{Runtime}
use mu_5x_fibonacci_trading.Calendar.{
  EasternTime, Session, insert_window, add_window, windows_of, within, session_of, CalendarConfig,
  TradingWindowDecision, decide_window, calendar_sha256, checked_digest, evaluate_trading_window,
}
use mu_5x_fibonacci_trading.Execution.Intent.Codec.{◌>>=◌, bound}
use mu_5x_fibonacci_trading.Calendar.Minutes.{minute_of}

-- The minute is in the window, both ends included, and in the session, its close excluded.
abbrev pub allows_minutes : ℕ → Session → Option ℕ → Option ℕ → Bool
allows_minutes m s (some first) (some last) =
    (leb first m && leb m last) && (leb s.opening m && ltb m s.closing)
allows_minutes m s _ _ = false

abbrev pub allows : ℕ → Session → String × String → Bool
allows m s (start, finish) = allows_minutes m s (minute_of start) (minute_of finish)

any-insert_window :
    (m : ℕ) (w : ℕ × ℕ) (vs : List (ℕ × ℕ))
    → any (within m) (insert_window w vs) ≡ (within m w || any (within m) vs)
any-insert_window m w [] = refl
any-insert_window m w (v ∷ vs) = ground (arith, any-insert_window m w vs)

meet :
    (m f l o c : ℕ)
    → (leb (max f o) m && ltb m (min (l + 1) c)) ≡ ((leb f m && leb m l) && (leb o m && ltb m c))
meet m f l o c = ground arith

disjoint :
    (m f l o c : ℕ)
    → ltb (max f o) (min (l + 1) c) ≡ false
    → ((leb f m && leb m l) && (leb o m && ltb m c)) ≡ false
disjoint m f l o c h = ground arith

added :
    (m : ℕ) (s : Session) (first last : ℕ) (rest : List (ℕ × ℕ)) {out : List (ℕ × ℕ)}
    → add_window s first last rest ≡ some out
    → any (within m) out ≡ (allows_minutes m s (some first) (some last) || any (within m) rest)
added m s first last rest {out} h = elim (Bool-cases (ltb last first)) [
  | inl crossed ↦ absurd (cc (rw crossed at h))
  | inr ordered ↦ elim (Bool-cases (ltb (max first s.opening) (min (last + 1) s.closing))) [
    | inl some_time ↦
        let same : insert_window (max first s.opening, min (last + 1) s.closing) rest ≡ out =
          cc (rw (ordered, some_time) at h) in
        ap (any (within m)) (sym same)
        ∙ any-insert_window m (max first s.opening, min (last + 1) s.closing) rest
        ∙ ap (λ b. b || any (within m) rest) (meet m first last s.opening s.closing)
    | inr no_time ↦
        let same : rest ≡ out = cc (rw (ordered, no_time) at h) in
        ap (any (within m)) (sym same)
        ∙ ap (λ b. b || any (within m) rest)
            (sym (disjoint m first last s.opening s.closing no_time))
  ]
]

windows_step :
    (m : ℕ) (s : Session) (f l : Option ℕ) (r : Option (List (ℕ × ℕ))) (b : Bool)
    {out : List (ℕ × ℕ)}
    → ((rest : List (ℕ × ℕ)) → r ≡ some rest → any (within m) rest ≡ b)
    → (f >>= λ first. l >>= λ last. r >>= add_window s first last) ≡ some out
    → any (within m) out ≡ (allows_minutes m s f l || b)
windows_step m s (some f) (some l) (some rest) b k h =
    added m s f l rest h ∙ ap (λ x. allows_minutes m s (some f) (some l) || x) (k rest refl)
windows_step m s none l r b k h = absurd (cc h)
windows_step m s (some f) none r b k h = absurd (cc h)
windows_step m s (some f) (some l) none b k h = absurd (cc h)

windows_lem :
    (m : ℕ) (s : Session) (ws : List (String × String)) {out : List (ℕ × ℕ)}
    → windows_of s ws ≡ some out
    → any (within m) out ≡ any (allows m s) ws
unfolding windows_of
windows_lem m s [] {out} h = let same : [] ≡ out = cc h in ap (any (within m)) (sym same)
windows_lem m s ((start, finish) ∷ ws) h =
    windows_step m s (minute_of start) (minute_of finish) (windows_of s ws) (any (allows m s) ws)
      (λ rest p. windows_lem m s ws p) h

abbrev pub minute_at : EasternTime → ℕ
minute_at t = t.hour * 60 + t.minute

decided :
    (id digest : String) (at_ms : ℕ) (t : EasternTime) (s : Session)
    (windows : Option (List (ℕ × ℕ))) (b : Bool) {d : TradingWindowDecision}
    → ((out : List (ℕ × ℕ)) → windows ≡ some out → any (within (minute_at t)) out ≡ b)
    → (windows >>= λ out. some (decide_window id digest at_ms t s out)) ≡ some d
    → (d.allowed ≡ b) × (d.session ≡ s.state)
decided id digest at_ms t s none b {d} k h = absurd (cc h)
decided id digest at_ms t s (some out) b {d} k h =
    let same : decide_window id digest at_ms t s out ≡ d = cc h in
    (
      ap (λ (e : TradingWindowDecision). e.allowed) (sym same) ∙ k out refl,
      ap (λ (e : TradingWindowDecision). e.session) (sym same),
    )

module _ (rt : Runtime) (eastern : ℕ → EasternTime) where
  -- Where the session of the day is known and the evaluation returns, a time is allowed just where
  -- its minute lies in some strategy window, ends included, and in the session, its close excluded.
  pub evaluate_allowed :
      (at_ms : ℕ) (config : CalendarConfig) (s : Session) (d : TradingWindowDecision)
      → session_of (eastern at_ms).day config.trading_calendar_id ≡ some s
      → evaluate_trading_window rt eastern at_ms config ≡ some d
      → (d.allowed ≡ any (allows (minute_at (eastern at_ms)) s) config.trading_windows_et)
        × (d.session ≡ s.state)
  unfolding evaluate_trading_window
  evaluate_allowed at_ms config s d p h =
      let (digest, _, h1) = bound (calendar_sha256 rt eastern config.trading_calendar_id) _ h in
      let (checked, _, h2) = bound (checked_digest rt eastern config digest) _ h1 in
      let (s', p', h3) = bound (session_of (eastern at_ms).day config.trading_calendar_id) _ h2 in
      let same : s' ≡ s = cc (p, p') in
      subst
        (λ x.
          (d.allowed ≡ any (allows (minute_at (eastern at_ms)) x) config.trading_windows_et)
          × (d.session ≡ x.state))
        same
        (decided config.trading_calendar_id checked at_ms (eastern at_ms) s'
          (windows_of s' config.trading_windows_et)
          (any (allows (minute_at (eastern at_ms)) s') config.trading_windows_et)
          (λ out q. windows_lem (minute_at (eastern at_ms)) s' config.trading_windows_et q) h3)
