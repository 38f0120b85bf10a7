-- ===== src/Execution/Store/Stable/Lifecycle.antt =====
-- The life of a reservation in the execution store.
use mathlib.Core.Path.{subst}
use mu_5x_fibonacci_trading.Base.{
  ◌≡◌, refl, ap, sym, ◌∙◌, String, true, some, List, [], ◌∷◌, find, find-append_some,
  find-update_where, map_option, updated, Bool-cases, inl, inr, arith,
}
use mu_5x_fibonacci_trading.Runtime.{Runtime}
use mu_5x_fibonacci_trading.Execution.Reservation.{
  ReservationState, allowed_transitions, is_reservation_transition_allowed, same_state,
  same_state→eq, contains_state,
}
use mu_5x_fibonacci_trading.Execution.Intent.{ExecutionEnvironment}
use mu_5x_fibonacci_trading.Execution.Audit.{MutationOperation}
use mu_5x_fibonacci_trading.Execution.Store.{Db, MutationReservation, reservation_has_key}
use mu_5x_fibonacci_trading.Execution.Store.Mutations.{in_state, set_state}
use mu_5x_fibonacci_trading.Execution.Store.Requests.{Request, run}
use mu_5x_fibonacci_trading.Execution.Store.Stable.{IsStable, run-Keeps}

-- The states that allowed transitions lead to.
pub data Reaches (s : ReservationState) : ReservationState → Type 0 where
  here : Reaches s s
  onward :
      {t u : ReservationState}
      → Reaches s t
      → is_reservation_transition_allowed t u ≡ true
      → Reaches s u

module _ (rt : Runtime) where
  -- The reservation is there, unchanged but for its state, and that one is reached.
  abbrev pub HasFollowed :
      ExecutionEnvironment → MutationOperation → String → MutationReservation → Db → Type 0
  HasFollowed env op id r db =
      (t : ReservationState) × (find (reservation_has_key env op id) db.reservations
        ≡ some (set_state rt t r))
      × Reaches r.state t

  follow_update :
      (env' : ExecutionEnvironment) (op' : MutationOperation) (id' : String)
      (expected new : ReservationState) (r : MutationReservation) (t : ReservationState)
      → is_reservation_transition_allowed expected new ≡ true
      → Reaches r.state t
      → (u : ReservationState) × (updated
            (in_state rt env' op' id' expected)
            (set_state rt new)
            (set_state rt t r)
          ≡ set_state rt u r)
        × Reaches r.state u
  follow_update env' op' id' expected new r t allowed path =
      elim (Bool-cases (in_state rt env' op' id' expected (set_state rt t r))) [
        | inl hit ↦
            let same : same_state t expected ≡ true = ground arith in
            (
              new,
              rw (updated, hit),
              onward path (
                  subst (λ x. is_reservation_transition_allowed x new ≡ true)
                    (sym (same_state→eq t expected same)) allowed),
            )
        | inr miss ↦ (t, rw (updated, miss), path)
      ]

  HasFollowed-IsStable :
      (env : ExecutionEnvironment) (op : MutationOperation) (id : String) (r : MutationReservation)
      → IsStable rt (HasFollowed env op id r)
  HasFollowed-IsStable env op id r = record {
    intent = λ _ db h. h;
    selection = λ _ db h. h;
    reservation = λ new db (t, h, path).
        (t, find-append_some (reservation_has_key env op id) db.reservations new h, path);
    event = λ _ db h. h;
    superseded = λ _ _ _ db h. h;
    reserved = λ _ _ db h. h;
    transitioned = λ env' op' id' expected new allowed db (t, h, path).
        let (u, same, path') = follow_update env' op' id' expected new r t allowed path in
        (
          u,
          find-update_where (reservation_has_key env op id) (in_state rt env' op' id' expected)
                (set_state rt new) db.reservations (λ x. refl)
              ∙ ap (map_option (updated (in_state rt env' op' id' expected) (set_state rt new))) h
              ∙ ap some same,
          path',
        );
  }

-- After any calls a reservation is still found under its key with the same idempotency key, client
-- order id, intent and lineage, in a state that allowed transitions lead to from its earlier state.
pub reservation_follows :
    (rt : Runtime) (rs : List Request) (db : Db) (env : ExecutionEnvironment)
    (op : MutationOperation) (id : String) (r : MutationReservation)
    → find (reservation_has_key env op id) db.reservations ≡ some r
    → HasFollowed rt env op id r (run rt rs db)
reservation_follows rt rs db env op id r h =
    run-Keeps rt (HasFollowed rt env op id r) (HasFollowed-IsStable rt env op id r) rs db
      (r.state, h, here)

no_move :
    (u : ReservationState) (l : List ReservationState) → l ≡ [] → contains_state u l ≡ true → ⊥
no_move u [] h k = cc k
no_move u (x ∷ l) h k = cc h

stays : {s t : ReservationState} → Reaches s t → allowed_transitions s ≡ [] → t ≡ s
unfolding is_reservation_transition_allowed
stays here final = refl
stays {s} (onward {t} {u} path allowed) final =
    absurd (
      no_move u (allowed_transitions t) (ap allowed_transitions (stays path final) ∙ final) allowed)

-- A reservation in a state without allowed transitions (ACKNOWLEDGED, REJECTED, UNKNOWN,
-- INVALIDATED) is not changed by any calls.
pub final_reservation :
    (rt : Runtime) (rs : List Request) (db : Db) (env : ExecutionEnvironment)
    (op : MutationOperation) (id : String) (r : MutationReservation)
    → allowed_transitions r.state ≡ []
    → find (reservation_has_key env op id) db.reservations ≡ some r
    → find (reservation_has_key env op id) (run rt rs db).reservations ≡ some r
final_reservation rt rs db env op id r final h =
    let (t, found, path) = reservation_follows rt rs db env op id r h in
    found ∙ ap (λ x. some (set_state rt x r)) (stays path final)
