-- ===== src/Coordinator/Ancestry.antt =====
-- `validateEVMTransition`: what its answers prove about the two chains.
use rpc_proxy.Prelude.{
  ℕ, ◌+◌, ◌≡◌, ◌⊎◌, inl, inr, refl, ap, ◌∙◌, Bool, true, false, ◌&&◌, [], ◌∷◌, ◌==◌, Bool-cases,
  equal_fold, equal_fold_sym, equal_fold_refl, All, Result, ok, arith,
}
use rpc_proxy.Head.{Head}
use rpc_proxy.Chain.Reader.{BlockReader}
use rpc_proxy.Chain.Links.{Linked, here, up, Descends, Meets}
use rpc_proxy.Coordinator.Monad.{Env, CoordinatorError}
use rpc_proxy.Coordinator.Transition.{
  one_above, Ancestors, met, collected, report_divergence, report_if, descend, collect, find_common,
  compare_chains, check_candidate, validate_fork, validate_evm_transition,
}
use rpc_proxy.Coordinator.Walks.{Known, descend-Linked, collect-Explained, find_common-Meets}

above : (h g : Head) (b : Bool) → (one_above h g && b) ≡ true → h.number ≡ g.number + 1
above h g b e = ground arith

and_right : (a b : Bool) → (a && b) ≡ true → b ≡ true
and_right a b e = ground arith

module _ {ℓ} {S : Type ℓ} (reader : BlockReader) (depth : ℕ)
    (on_divergence : S → Result CoordinatorError (Unit {0}) × S) where
  module _ (current candidate : Head) where
    report_divergence-reported :
        (e : Env S) → (report_divergence reader depth on_divergence e).1.reported ≡ true
    unfolding report_divergence
    report_divergence-reported e = ground arith

    compare_chains-inv :
        (cursor : Head) (b : Bool) (e e' : Env S)
        → compare_chains reader depth on_divergence current candidate cursor e ≡ (ok b, e')
        → let e₁ = (report_if reader depth on_divergence (cursor.number == current.number) e).1 in
          let walk =
            collect reader depth on_divergence current candidate depth current
              ((current.hash, current.number) ∷ [])
              e₁ in
          ((walk.0 ≡ ok met) × (b ≡ false))
          ⊎ ((ancestors : Ancestors) × (walk.0 ≡ ok (collected ancestors))
              × (find_common reader depth on_divergence current candidate ancestors depth cursor
                    (report_divergence reader depth on_divergence walk.1).1
                  ≡ (ok b, e')))
    unfolding compare_chains
    compare_chains-inv cursor b e e' h = ground arith

    -- What an answer of the check means.
    abbrev pub Verdict : Bool → Env S → Type 0
    Verdict false e = Descends candidate current ⊎ Descends current candidate
    Verdict true e = Meets candidate current × (e.reported ≡ true)

    compare_chains-Verdict :
        (cursor : Head) (b : Bool) (e e' : Env S)
        → Linked candidate cursor
        → compare_chains reader depth on_divergence current candidate cursor e ≡ (ok b, e')
        → Verdict b e'
    compare_chains-Verdict cursor b e e' l h =
        let e₁ = (report_if reader depth on_divergence (cursor.number == current.number) e).1 in
        let start = (current.hash, current.number) ∷ [] in
        let walk = collect reader depth on_divergence current candidate depth current start e₁ in
        let known : All (Known reader depth on_divergence current candidate) start =
          ((current, here, refl, refl), tt) in
        elim (compare_chains-inv cursor b e e' h) [
          | inl (found, answer) ↦ rw answer (
              inr (
                collect-Explained reader depth on_divergence current candidate depth current start
                  met e₁ walk.1 here known (λ i. (found i, walk.1))))
          | inr (ancestors, found, rest) ↦
              let k =
                collect-Explained reader depth on_divergence current candidate depth current start
                  (collected ancestors) e₁ walk.1 here known (λ i. (found i, walk.1)) in
              let e₂ = (report_divergence reader depth on_divergence walk.1).1 in
              let (meets, answer, kept) =
                find_common-Meets reader depth on_divergence current candidate ancestors depth
                  cursor b e₂ e' k l rest in
              rw answer (meets, kept ∙ report_divergence-reported walk.1)
        ]

    validate_fork-inv :
        (b : Bool) (e e' : Env S)
        → validate_fork reader depth on_divergence current candidate e ≡ (ok b, e')
        → let e₁ = (check_candidate reader depth on_divergence current candidate e).1 in
          let level = descend reader depth on_divergence current candidate depth candidate e₁ in
          (c : Head) × (level.0 ≡ ok c)
          × ((((c.number == current.number && equal_fold c.hash current.hash) ≡ true) × (b ≡ false))
              ⊎ (compare_chains reader depth on_divergence current candidate c level.1
                  ≡ (ok b, e')))
    unfolding validate_fork
    validate_fork-inv b e e' h = ground arith

    validate_fork-Verdict :
        (b : Bool) (e e' : Env S)
        → validate_fork reader depth on_divergence current candidate e ≡ (ok b, e')
        → Verdict b e'
    validate_fork-Verdict b e e' h =
        let e₁ = (check_candidate reader depth on_divergence current candidate e).1 in
        let level = descend reader depth on_divergence current candidate depth candidate e₁ in
        let (c, reached, more) = validate_fork-inv b e e' h in
        let l =
          descend-Linked reader depth on_divergence current candidate depth candidate c e₁ level.1
            here (λ i. (reached i, level.1)) in
        elim more [
          | inl (same, answer) ↦ rw answer (inl (c, l, (ground arith, ground arith)))
          | inr rest ↦ compare_chains-Verdict c b level.1 e' l rest
        ]

    validate-inv :
        (b : Bool) (e e' : Env S)
        → validate_evm_transition reader depth on_divergence current candidate e ≡ (ok b, e')
        → ((candidate.number ≡ current.number + 1)
            × (equal_fold candidate.parent_hash current.hash ≡ true)
            × (b ≡ false))
          ⊎ ((current.number ≡ candidate.number + 1)
              × (equal_fold current.parent_hash candidate.hash ≡ true)
              × (b ≡ false))
          ⊎ (validate_fork reader depth on_divergence current candidate e ≡ (ok b, e'))
    unfolding validate_evm_transition
    validate-inv b e e' h =
        elim (Bool-cases
          (one_above candidate current && equal_fold candidate.parent_hash current.hash)) [
            | inl child ↦
                let done : ◌≡◌ {A = Result CoordinatorError Bool} (ok false) (ok b) =
                  ap (λ r. r.0) (rw (child, validate_evm_transition) at h) in
                inl (above candidate current _ child, and_right _ _ child, ground arith)
            | inr apart ↦
                elim (Bool-cases
                  (one_above current candidate && equal_fold current.parent_hash candidate.hash)) [
                    | inl parent ↦
                        let done : ◌≡◌ {A = Result CoordinatorError Bool} (ok false) (ok b) =
                          ap (λ r. r.0) (rw (apart, parent, validate_evm_transition) at h) in
                        inr (
                          inl
                            (above current candidate _ parent, and_right _ _ parent, ground arith))
                    | inr far ↦ inr (inr (rw (apart, far, validate_evm_transition) at h))
                  ]
          ]

    pub validate_evm_transition_sound :
        (b : Bool) (e e' : Env S)
        → validate_evm_transition reader depth on_divergence current candidate e ≡ (ok b, e')
        → Verdict b e'
    validate_evm_transition_sound b e e' h = elim (validate-inv b e e' h) [
      | inl (above, linked, answer) ↦ rw answer (
          inl (
            current,
            up here (equal_fold_sym candidate.parent_hash current.hash linked) (omega arith),
            (equal_fold_refl current.hash, refl),
          ))
      | inr (inl (below, linked, answer)) ↦ rw answer (
          inr (
            candidate,
            up here (equal_fold_sym current.parent_hash candidate.hash linked) (omega arith),
            (equal_fold_refl candidate.hash, refl),
          ))
      | inr (inr fork) ↦ validate_fork-Verdict b e e' fork
    ]
