-- ===== src/Ledger/Moves/Saving.antt =====
-- `save` is a move of the ledger, and what it has returned for is found in the table.
use mathlib.Core.Path.{subst}
use mu_5x_fibonacci_trading.Base.{
  ℕ, ◌+◌, ◌≡◌, refl, sym, ap, ◌∙◌, String, Bool, true, false, not, ◌&&◌, Option, none, some, List,
  [], ◌∷◌, ◌++◌, str_eq, eq_iff, any, find, find-append_none, ok, err, pure, ◌>>◌, transaction,
  settle, same_option, if◌then◌else◌, Bool-cases, inl, inr,
}
use mu_5x_fibonacci_trading.Runtime.{Runtime}
use mu_5x_fibonacci_trading.Notification.Observation.{Observations}
use mu_5x_fibonacci_trading.Notification.Outbox.{Outbox}
use mu_5x_fibonacci_trading.Execution.Intent.Codec.{bound}
use mu_5x_fibonacci_trading.Ledger.Each.{Each, Each-bind, Each-some}
use mu_5x_fibonacci_trading.Ledger.Externals.{Externals, Payload}
use mu_5x_fibonacci_trading.Ledger.Fill.{Fill, get, request_identity, fill_of}
use mu_5x_fibonacci_trading.Ledger.Replay.{FillRevision, project, max_sequence}
use mu_5x_fibonacci_trading.Ledger.Replay.Facts.{history-project}
use mu_5x_fibonacci_trading.Ledger.Store.{
  value_error, Position, Ledger, known_position, history_of, has_request, fill_request,
  PositionView, view_has_id,
}
use mu_5x_fibonacci_trading.Ledger.Form.{
  SignalFields, Command, create, append, revise, parse_command, is_create, is_revise,
  fresh_position, target_fill, new_position,
}
use mu_5x_fibonacci_trading.Ledger.Save.{
  clashes, next_sequence, revision_row, write_fill, insert_fill, save_into, save_new, save_locked,
  save_checked, identified, save,
}
use mu_5x_fibonacci_trading.Ledger.Rules.{
  Outcome, guarded, chosen, AreViews, reading, find-view, any-view, unless_requested,
}
use mu_5x_fibonacci_trading.Ledger.Moves.{IsNewFill, Move, stay, opened, created, added, with_fill}

-- The request stands in the table, with the digest and the position of its form.
abbrev pub IsRecorded : String × String × String → Ledger → Type 0
IsRecorded (request_id, position_id, digest) l =
    (r : FillRevision) × (find (has_request request_id) l.fills ≡ some r)
    × (r.request_hash ≡ digest)
    × (r.position_id ≡ position_id)
    × (l.present ≡ true)

module _ (x : Externals) where
  -- Of the body of the transaction: where it returns, it has made a move and the request is recorded.
  abbrev pub Landed : Ledger → String × String → Outcome String → Type 0
  Landed l ids (err e, l') = Unit
  Landed l (request_id, digest) (ok id, l') = Move x l l' × IsRecorded (request_id, id, digest) l'

  -- Of a whole call: where it raises, it has changed nothing.
  abbrev pub Ended : Ledger → String × String → Outcome String → Type 0
  Ended l ids (err e, l') = l' ≡ l
  Ended l (request_id, digest) (ok id, l') = Move x l l' × IsRecorded (request_id, id, digest) l'

  transaction-Ended :
      (l : Ledger) (ids : String × String) (out : Outcome String)
      → Landed l ids out
      → Ended l ids (settle l out)
  transaction-Ended l ids (err e, l') h = refl
  transaction-Ended l (r, d) (ok id, l') h = h

  pub Ended-Move :
      (l : Ledger) (ids : String × String) (out : Outcome String) → Ended l ids out → Move x l out.1
  Ended-Move l ids (err e, l') h = subst (Move x l) (sym h) stay
  Ended-Move l (r, d) (ok id, l') h = h.0

  insert_fill-Landed :
      (l : Ledger) (ps : List Position) (ids : String × String × String) (r : FillRevision)
      → find (has_request ids.0) l.fills ≡ none
      → r.request_id ≡ ids.0
      → r.request_hash ≡ ids.2
      → (any (clashes r) l.fills ≡ false → Move x l (with_fill r ps l))
      → Landed l
          (ids.0, ids.2)
          ((insert_fill r >> pure r.position_id) (record l { present = true; positions = ps }))
  insert_fill-Landed l ps ids r new request hash move =
      elim (Bool-cases (any (clashes r) l.fills)) [
        | inl taken ↦ rw taken tt
        | inr fresh ↦
            let found : find (has_request ids.0) (l.fills ++ r ∷ []) ≡ some r =
              find-append_none (has_request ids.0) l.fills r new
              ∙ rw ((eq_iff r.request_id ids.0).1 request) in
            rw fresh (move fresh, (r, found, hash, refl, refl))
      ]

-- The row that an earlier request has left.
fill_request-some :
    (o : Option FillRevision) {d id : String}
    → fill_request o ≡ some (d, id)
    → (r : FillRevision) × (o ≡ some r) × (r.request_hash ≡ d) × (r.position_id ≡ id)
fill_request-some none h = absurd (cc h)
fill_request-some (some r) h = (r, refl, cc h, cc h)

fill_request-none : (o : Option FillRevision) → fill_request o ≡ none → o ≡ none
fill_request-none none h = refl
fill_request-none (some r) h = absurd (cc h)

present_row :
    (b : Bool) (o : Option FillRevision) {r : FillRevision}
    → (if b then o else none) ≡ some r
    → (b ≡ true) × (o ≡ some r)
present_row true o h = (refl, h)
present_row false o h = absurd (cc h)

module _ (rt : Runtime) (obs : Observations) (fields : SignalFields obs) (x : Externals) where
  write_fill-Landed :
      (l : Ledger) (ps : List Position) (ids : String × String × String) (now : ℕ) (fill : Fill)
      (revised : String × ℕ) (history : List FillRevision)
      → find (has_request ids.0) l.fills ≡ none
      → ((r : FillRevision)
          → r.position_id ≡ ids.1
          → IsNewFill x l history r
          → Move x l (with_fill r ps l))
      → Landed x l
          (ids.0, ids.2)
          (write_fill rt obs fields x ids now fill revised history
            (record l { present = true; positions = ps }))
  write_fill-Landed l ps ids now fill revised history new move =
      let s = record l { present = true; positions = ps } in
      let r = revision_row rt obs fields x ids now fill revised (next_sequence l) in
      let trial = revision_row rt obs fields x ids now fill revised (max_sequence history + 1) in
      chosen (Landed x l (ids.0, ids.2)) s (λ e. tt) (project x (history ++ trial ∷ [])) value_error
        _
        λ seen projected.
          insert_fill-Landed x l ps ids r new refl refl
            λ fresh. move r refl (record { number = refl; fresh = fresh; trial = rw projected })

  save_into-Landed :
      (l : Ledger) (command : Command) (fresh : Option Position) (p : Payload)
      (ids : String × String × String) (now : ℕ) (fill : Fill) (views : List (PositionView x))
      → AreViews x (record l { present = true }) l.positions views
      → find (has_request ids.0) l.fills ≡ none
      → ((q : Position) → fresh ≡ some q → q.position_id ≡ ids.1)
      → Landed x l
          (ids.0, ids.2)
          (save_into rt obs fields x command fresh p ids now fill views
            (record l { present = true }))
  save_into-Landed l command (some q) p ids now fill views are new own =
      let s = record l { present = true } in
      guarded (Landed x l (ids.0, ids.2)) s (λ e. tt) (any (view_has_id x ids.1) views) value_error
        _
        λ free.
          write_fill-Landed l (q ∷ l.positions) ids now fill (ids.0, 1) [] new
            λ r at n.
              let id : q.position_id ≡ ids.1 = own q refl in
              created q r
                (subst (λ i. known_position x l.positions i ≡ false) (sym id)
                  (sym (any-view x s ids.1 l.positions views are) ∙ free))
                (at ∙ sym id) n
  save_into-Landed l command none p ids now fill views are new own =
      let s = record l { present = true } in
      let Q = Landed x l (ids.0, ids.2) in
      chosen Q s (λ e. tt) (find (view_has_id x ids.1) views) value_error _
        λ view found.
          guarded Q s (λ e. tt) (not (same_option (get "unit" p) (some view.position.unit)))
            value_error _
            λ unit.
              chosen Q s (λ e. tt) (target_fill x command p ids.0 view) value_error _
                λ revised target.
                  let (known, at, projected, current) =
                    find-view x s ids.1 l.positions views are found in
                  write_fill-Landed l l.positions ids now fill revised view.projection.history new
                    λ r own n.
                      added r (subst (λ i. known_position x l.positions i ≡ true) (sym own) known) (
                        subst (λ h. IsNewFill x l h r)
                          (history-project x (history_of x ids.1 l) projected
                            ∙ ap (λ i. history_of x i l) (sym own))
                          n)

  save_locked-Landed :
      (l : Ledger) (command : Command) (fresh : Option Position) (p : Payload)
      (ids : String × String × String) (now : ℕ) (fill : Fill)
      → ((q : Position) → fresh ≡ some q → q.position_id ≡ ids.1)
      → Landed x l (ids.0, ids.2) (save_locked rt obs fields x command fresh p ids now fill l)
  save_locked-Landed l command fresh p ids now fill own =
      let s = record l { present = true } in
      let Q = Landed x l (ids.0, ids.2) in
      let row = find (has_request ids.0) l.fills in
      unless_requested Q s (fill_request row) ids.2
        (save_new rt obs fields x command fresh p ids now fill) (λ e. tt)
        (λ id again. (opened, earlier id again))
        (λ new.
          reading x Q s (save_into rt obs fields x command fresh p ids now fill) (λ e. tt)
            (λ views are.
              save_into-Landed l command fresh p ids now fill views are (fill_request-none row new)
                own))
    where
      earlier :
          (id : String)
          → fill_request (find (has_request ids.0) l.fills) ≡ some (ids.2, id)
          → IsRecorded (ids.0, id, ids.2) (record l { present = true })
      earlier id again =
          let (r, found, hash, at) = fill_request-some (find (has_request ids.0) l.fills) again in
          (r, found, hash, at, refl)

  new_position-Each :
      (p : Payload) (outbox : Outbox) (id : String) (now : ℕ) (fill : Fill)
      → Each
          (λ (q : Position). q.position_id ≡ id)
          (new_position rt obs fields x p outbox id now fill)
  unfolding new_position
  new_position-Each p outbox id now fill = search (Each-bind, Each-some) depth 20

  fresh_position-own :
      (command : Command) (p : Payload) (outbox : Outbox) (id : String) (now : ℕ) (fill : Fill)
      {fresh : Option Position}
      → fresh_position rt obs fields x command p outbox id now fill ≡ some fresh
      → (q : Position) → fresh ≡ some q
      → q.position_id ≡ id
  fresh_position-own create p outbox id now fill h q e =
      let (made, is_made, same) = bound (new_position rt obs fields x p outbox id now fill) _ h in
      (new_position-Each p outbox id now fill).at q (is_made ∙ cc (same, e))
  fresh_position-own append p outbox id now fill h q e = absurd (cc (h, e))
  fresh_position-own revise p outbox id now fill h q e = absurd (cc (h, e))

  save_checked-Ended :
      (l : Ledger) (outbox : Outbox) (p : Payload) (now : ℕ) (ids : String × String × String)
      → Ended x l (ids.0, ids.2) (save_checked rt obs fields x outbox p now ids l)
  unfolding transaction
  save_checked-Ended l outbox p now ids =
      let Q = Ended x l (ids.0, ids.2) in
      chosen Q l (λ e. refl) (parse_command (get "command" p)) value_error _
        λ command hc.
          chosen Q l (λ e. refl) (fill_of x p now) value_error _
            λ fill hf.
              guarded Q l (λ e. refl) (not (same_option (get "confirmed" p) (some "yes")))
                value_error _
                λ h1.
                  guarded Q l (λ e. refl) (not (is_revise command) && fill.voided) value_error _
                    λ h2.
                      guarded Q l (λ e. refl) (is_revise command && str_eq fill.note "") value_error
                        _
                        λ h3.
                          guarded Q l (λ e. refl) (not (is_create command) && not l.present)
                            value_error _
                            λ h4.
                              chosen Q l (λ e. refl)
                                (fresh_position rt obs fields x command p outbox ids.1 now fill)
                                value_error _
                                λ fresh hp.
                                  transaction-Ended x l (ids.0, ids.2) _
                                    (save_locked-Landed l command fresh p ids now fill
                                      (fresh_position-own command p outbox ids.1 now fill hp))

  identified-Ended :
      (l : Ledger) (outbox : Outbox) (p : Payload) (now : ℕ) (ids : String × String × String)
      → Ended x l (ids.0, ids.2) (identified rt obs fields x outbox p now ids l)
  identified-Ended l outbox p now ids =
      unless_requested (Ended x l (ids.0, ids.2)) l
        (fill_request (if l.present then find (has_request ids.0) l.fills else none)) ids.2
        (save_checked rt obs fields x outbox p now ids) (λ e. refl)
        (λ id again. (stay, earlier id again)) (λ new. save_checked-Ended l outbox p now ids)
    where
      earlier :
          (id : String)
          → fill_request (if l.present then find (has_request ids.0) l.fills else none)
            ≡ some (ids.2, id)
          → IsRecorded (ids.0, id, ids.2) l
      earlier id again =
          let (r, row, hash, at) = fill_request-some _ again in
          let (present, found) = present_row l.present (find (has_request ids.0) l.fills) row in
          (r, found, hash, at, present)

  -- `save` for a form with the identity `ids`.
  pub save-Ended :
      (l : Ledger) (outbox : Outbox) (p : Payload) (now : ℕ) (ids : String × String × String)
      → request_identity x p ≡ some ids
      → Ended x l (ids.0, ids.2) (save rt obs fields x outbox p now l)
  unfolding save
  save-Ended l outbox p now ids known =
      chosen (Ended x l (ids.0, ids.2)) l (λ e. refl) (request_identity x p) value_error
        (identified rt obs fields x outbox p now)
        λ i h.
          let same : i ≡ ids = cc (h, known) in
          subst (λ j. Ended x l (j.0, j.2) (identified rt obs fields x outbox p now i l)) same
            (identified-Ended l outbox p now i)

  -- A form without an identity changes nothing.
  pub save-Move :
      (l : Ledger) (outbox : Outbox) (p : Payload) (now : ℕ)
      → Move x l (save rt obs fields x outbox p now l).1
  unfolding save
  save-Move l outbox p now =
      chosen (λ out. Move x l out.1) l (λ e. stay) (request_identity x p) value_error
        (identified rt obs fields x outbox p now)
        λ i h.
          Ended-Move x l (i.0, i.2) (identified rt obs fields x outbox p now i l)
            (identified-Ended l outbox p now i)
