-- ===== src/Coordinator/Tracking.antt =====
-- `validateEVMTransition`: its callback runs at most once, and what it does to the state it changes.
use rpc_proxy.Prelude.{
  ℕ, zero, suc, ◌≡◌, ◌⊎◌, inl, inr, refl, Bool, true, false, not, ◌&&◌, ◌||◌, [], ◌∷◌, ◌==◌,
  equal_fold, Result, ok, is_ok, Result-cases, arith,
}
use rpc_proxy.Head.{Head}
use rpc_proxy.Chain.Defs.{BlockRequest}
use rpc_proxy.Chain.Reader.{BlockReader}
use rpc_proxy.Coordinator.Monad.{Env, try_read, read_block, CoordinatorError}
use rpc_proxy.Coordinator.Transition.{
  one_above, Ancestors, met, collected, walk_request, report_divergence, report_if, check_parent,
  descend, collect, find_common, compare_chains, check_candidate, validate_fork,
  validate_evm_transition,
}

module _ {S : Type 0} (reader : BlockReader) (depth : ℕ)
    (on_divergence : S → Result CoordinatorError (Unit {0}) × S) where
  -- A read changes the tick only.
  abbrev Untouched : Env S → Env S → Type 0
  Untouched e e' = (e'.reported ≡ e.reported) × (e'.outer ≡ e.outer)

  abbrev after_read : BlockRequest → Env S → Env S
  after_read request e = record e { tick = (reader.read request e.tick).1 }

  module _ (current candidate : Head) where
    check_parent-Untouched :
        (e : Env S) → Untouched e (check_parent reader depth on_divergence current candidate e).1
    unfolding check_parent read_block
    check_parent-Untouched e = ground arith

    descend-Untouched :
        (left : ℕ) (cursor : Head) (e : Env S)
        → Untouched e (descend reader depth on_divergence current candidate left cursor e).1
    unfolding descend read_block
    descend-Untouched zero cursor e = ground arith
    descend-Untouched (suc left) cursor e =
        let request = walk_request candidate cursor in
        elim (Result-cases (reader.read request e.tick).0) [
          | inl (parent, reply) ↦
              let rest = descend-Untouched left parent (after_read request e) in ground arith
          | inr (x, refused) ↦ ground arith
        ]

    collect-Untouched :
        (left : ℕ) (cursor : Head) (ancestors : Ancestors) (e : Env S)
        → Untouched e
            (collect reader depth on_divergence current candidate left cursor ancestors e).1
    unfolding collect try_read
    collect-Untouched zero cursor ancestors e = ground arith
    collect-Untouched (suc left) cursor ancestors e =
        let request = walk_request current cursor in
        elim (Result-cases (reader.read request e.tick).0) [
          | inl (parent, reply) ↦
              let rest =
                collect-Untouched left parent ((parent.hash, parent.number) ∷ ancestors)
                  (after_read request e) in
              ground arith
          | inr (x, refused) ↦ ground arith
        ]

    find_common-Untouched :
        (ancestors : Ancestors) (left : ℕ) (cursor : Head) (e : Env S)
        → Untouched e
            (find_common reader depth on_divergence current candidate ancestors left cursor e).1
    unfolding find_common read_block
    find_common-Untouched ancestors zero cursor e = ground arith
    find_common-Untouched ancestors (suc left) cursor e =
        let request = walk_request candidate cursor in
        elim (Result-cases (reader.read request e.tick).0) [
          | inl (parent, reply) ↦
              let rest = find_common-Untouched ancestors left parent (after_read request e) in
              ground arith
          | inr (x, refused) ↦ ground arith
        ]

    -- The callback has not run, or it ran once, on the first state, and did not fail.
    abbrev pub Good : S → Env S → Type 0
    Good start e =
        ((e.reported ≡ false) × (e.outer ≡ start))
        ⊎ ((e.reported ≡ true)
            × (e.outer ≡ (on_divergence start).1)
            × ((on_divergence start).0 ≡ ok tt))

    -- The state is the first one, or what the callback makes of it.
    abbrev pub RanOnce : S → Env S → Type 0
    RanOnce start e = (e.outer ≡ start) ⊎ (e.outer ≡ (on_divergence start).1)

    abbrev pub Accounted : {A : Type 0} → S → Result CoordinatorError A × Env S → Type 0
    Accounted start r = RanOnce start r.1 × (is_ok r.0 ≡ true → Good start r.1)

    Untouched-Good : (start : S) (e e' : Env S) → Good start e → Untouched e e' → Good start e'
    Untouched-Good start e e' g u = ground arith

    Good-Accounted :
        {A : Type 0} (start : S) (r : Result CoordinatorError A × Env S)
        → Good start r.1
        → Accounted start r
    Good-Accounted start r g = (ground arith, λ _. g)

    report_divergence-Accounted :
        (start : S) (e : Env S)
        → Good start e
        → Accounted start (report_divergence reader depth on_divergence e)
    unfolding report_divergence
    report_divergence-Accounted start e (inl (fresh, same)) =
        rw (fresh, same) (inr refl, λ h. inr (refl, refl, ground arith))
    report_divergence-Accounted start e (inr (ran, same, fine)) =
        rw ran (inr same, λ h. inr (refl, same, fine))

    report_if-Accounted :
        (b : Bool) (start : S) (e : Env S)
        → Good start e
        → Accounted start (report_if reader depth on_divergence b e)
    unfolding report_if
    report_if-Accounted true start e g = report_divergence-Accounted start e g
    report_if-Accounted false start e g = Good-Accounted start (ok tt, e) g

    compare_chains-Accounted :
        (start : S) (cursor : Head) (e : Env S)
        → Good start e
        → Accounted start (compare_chains reader depth on_divergence current candidate cursor e)
    unfolding compare_chains
    compare_chains-Accounted start cursor e g =
        let level = cursor.number == current.number in
        let first = report_if reader depth on_divergence level e in
        let (ran, good) = report_if-Accounted level start e g in
        let walk =
          collect reader depth on_divergence current candidate depth current
            ((current.hash, current.number) ∷ []) first.1 in
        let u = collect-Untouched depth current ((current.hash, current.number) ∷ []) first.1 in
        elim (Result-cases first.0) [
          | inr (x, failed) ↦ ground arith
          | inl (_, done) ↦
              let g₁ = Untouched-Good start first.1 walk.1 (good (rw done)) u in
              let second = report_divergence reader depth on_divergence walk.1 in
              let (ran₂, good₂) = report_divergence-Accounted start walk.1 g₁ in
              elim (Result-cases walk.0) [
                | inr (x, failed) ↦ ground arith
                | inl (met, found) ↦ ground arith
                | inl (collected ancestors, found) ↦
                    let u₂ = find_common-Untouched ancestors depth cursor second.1 in
                    elim (Result-cases second.0) [
                      | inr (x, failed) ↦ ground arith
                      | inl (_, done₂) ↦ let g₂ = good₂ (rw done₂) in ground arith
                    ]
              ]
        ]

    check_candidate-Accounted :
        (start : S) (e : Env S)
        → Good start e
        → Accounted start (check_candidate reader depth on_divergence current candidate e)
    unfolding check_candidate
    check_candidate-Accounted start e g =
        let fork =
          (candidate.number == current.number || one_above candidate current)
          && not (equal_fold candidate.hash current.hash) in
        let first = report_if reader depth on_divergence fork e in
        let (ran, good) = report_if-Accounted fork start e g in
        elim (Result-cases first.0) [
          | inr (x, failed) ↦ ground arith
          | inl (_, done) ↦
              let g₁ = good (rw done) in let u = check_parent-Untouched first.1 in ground arith
        ]

    validate_fork-Accounted :
        (start : S) (e : Env S)
        → Good start e
        → Accounted start (validate_fork reader depth on_divergence current candidate e)
    unfolding validate_fork
    validate_fork-Accounted start e g =
        let first = check_candidate reader depth on_divergence current candidate e in
        let (ran, good) = check_candidate-Accounted start e g in
        let level = descend reader depth on_divergence current candidate depth candidate first.1 in
        let u = descend-Untouched depth candidate first.1 in
        elim (Result-cases first.0) [
          | inr (x, failed) ↦ ground arith
          | inl (_, done) ↦
              let g₁ = Untouched-Good start first.1 level.1 (good (rw done)) u in
              elim (Result-cases level.0) [
                | inr (x, failed) ↦ ground arith
                | inl (cursor, reached) ↦
                    let (ran₂, good₂) = compare_chains-Accounted start cursor level.1 g₁ in
                    ground arith
              ]
        ]

    -- A check that starts with nothing reported leaves the state as it was, or as one run of the
    -- callback makes it. If it answers, the callback has run exactly where the check has reported a
    -- divergence, and then it succeeded.
    pub validate_evm_transition-Accounted :
        (e : Env S)
        → e.reported ≡ false
        → Accounted e.outer (validate_evm_transition reader depth on_divergence current candidate e)
    unfolding validate_evm_transition
    validate_evm_transition-Accounted e fresh =
        let (ran, good) = validate_fork-Accounted e.outer e (inl (fresh, refl)) in ground arith

    -- A check that starts with nothing reported and answers has run the callback at most once, on the
    -- first state. It has run it exactly where it has reported a divergence, and then the callback
    -- succeeded and what it made of the state is the state after the check.
    pub validate_evm_transition_reports :
        (b : Bool) (e e' : Env S)
        → e.reported ≡ false
        → validate_evm_transition reader depth on_divergence current candidate e ≡ (ok b, e')
        → ((e'.reported ≡ false) × (e'.outer ≡ e.outer))
          ⊎ ((e'.reported ≡ true)
              × (e'.outer ≡ (on_divergence e.outer).1)
              × ((on_divergence e.outer).0 ≡ ok tt))
    validate_evm_transition_reports b e e' fresh run =
        let (ran, good) = validate_evm_transition-Accounted e fresh in (rw run at good) refl
