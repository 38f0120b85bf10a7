-- ===== src/Execution/Store/Journal/Numbers.antt =====
-- The audit trail of the execution store: the events of each action are numbered 1, 2, 3, ….
use mu_5x_fibonacci_trading.Base.{
  ℕ, zero, suc, ◌+◌, max, ◌≡◌, refl, ap, ◌∙◌, String, true, Bool-cases, inl, inr, List, [], ◌∷◌,
  ◌++◌, length, length-append, arith, if◌then◌else◌, eq_iff,
}
use mathlib.Core.List.{append-nil}
use mathlib.Core.Path.{ap₂}
use mu_5x_fibonacci_trading.Execution.Store.{EventRow, event_of_action, max_sequence}
use mu_5x_fibonacci_trading.Execution.Store.Journal.Rules.{Appends}

abbrev pub sequences_of : String → List EventRow → List ℕ
sequences_of c [] = []
sequences_of c (e ∷ es) =
    let rest = sequences_of c es in if event_of_action c e then e.sequence ∷ rest else rest

-- 1, 2, …, n.
abbrev pub one_to : ℕ → List ℕ
one_to zero = []
one_to (suc n) = one_to n ++ suc n ∷ []

pub record IsNumbered (es : List EventRow) : Type 0 where
  pub at : (c : String) → sequences_of c es ≡ one_to (length (sequences_of c es))

abbrev maximum : List ℕ → ℕ
maximum [] = 0
maximum (n ∷ ns) = max n (maximum ns)

maximum-append : (xs ys : List ℕ) → maximum (xs ++ ys) ≡ max (maximum xs) (maximum ys)
maximum-append [] ys = omega arith
maximum-append (x ∷ xs) ys = omega (arith, maximum-append xs ys)

maximum-one_to : (n : ℕ) → maximum (one_to n) ≡ n
maximum-one_to zero = refl
maximum-one_to (suc n) = omega (arith, maximum-append (one_to n) (suc n ∷ []), maximum-one_to n)

max_sequence-eq-maximum :
    (c : String) (es : List EventRow) → max_sequence c es ≡ maximum (sequences_of c es)
max_sequence-eq-maximum c [] = refl
max_sequence-eq-maximum c (e ∷ es) = elim (Bool-cases (event_of_action c e)) [
  | inl own ↦ rw own (ap (max e.sequence) (max_sequence-eq-maximum c es))
  | inr other ↦ rw other (max_sequence-eq-maximum c es)
]

sequences_of-append :
    (c : String) (es : List EventRow) (e : EventRow)
    → sequences_of c (es ++ e ∷ [])
      ≡ sequences_of c es ++ (if event_of_action c e then e.sequence ∷ [] else [])
sequences_of-append c [] e = refl
sequences_of-append c (d ∷ es) e = elim (Bool-cases (event_of_action c d)) [
  | inl own ↦ rw own (ap (λ l. d.sequence ∷ l) (sequences_of-append c es e))
  | inr other ↦ rw other (sequences_of-append c es e)
]

-- The next number of an action is one more than the number of its events.
next_number :
    (es : List EventRow)
    → IsNumbered es
    → (c : String) → max_sequence c es ≡ length (sequences_of c es)
next_number es h c =
    max_sequence-eq-maximum c es ∙ ap maximum (h.at c) ∙ maximum-one_to (length (sequences_of c es))

numbered_one_more :
    (c : String) (es : List EventRow) (e : EventRow)
    → IsNumbered es
    → e.sequence ≡ max_sequence e.audit_correlation_id es + 1
    → event_of_action c e ≡ true
    → sequences_of c es ++ e.sequence ∷ [] ≡ one_to (length (sequences_of c es ++ e.sequence ∷ []))
numbered_one_more c es e h next own =
    let same : e.audit_correlation_id ≡ c = (eq_iff e.audit_correlation_id c).0 own in
    let number : e.sequence ≡ suc (length (sequences_of c es)) =
      next ∙ ap (λ d. max_sequence d es + 1) same ∙ omega (arith, next_number es h c) in
    let long : length (sequences_of c es ++ e.sequence ∷ []) ≡ suc (length (sequences_of c es)) =
      omega (arith, length-append (sequences_of c es) (e.sequence ∷ [])) in
    rw long (ap₂ (λ l n. l ++ n ∷ []) (h.at c) number)

-- One more event with the next number keeps the trail numbered.
pub Appends-IsNumbered : (es es' : List EventRow) → Appends es es' → IsNumbered es → IsNumbered es'
Appends-IsNumbered es es' (inl same) h = rw same h
Appends-IsNumbered es es' (inr (e, more, next)) h = record {
  at = λ c.
      rw (more, sequences_of-append c es e)
        (elim (Bool-cases (event_of_action c e)) [
          | inl own ↦ rw own (numbered_one_more c es e h next own)
          | inr other ↦ rw (other, append-nil) (h.at c)
        ]);
}

pub IsNumbered-nil : IsNumbered []
IsNumbered-nil = record { at = λ c. refl }
