-- ===== src/Coordinator/Sessions.antt =====
-- `consider` of internal/coordinator/coordinator.go: the store and the accepted head's variable after
-- the transition check and each of the choices.
use rpc_proxy.Prelude.{
  ℕ, ◌≤◌, ◌<◌, ◌≡◌, ◌⊎◌, inl, inr, refl, Bool, true, false, some, Text, text_eq_refl, Result, ok,
  arith,
}
use rpc_proxy.Head.{Head, latest}
use rpc_proxy.Store.Defs.{begin_reorg}
use rpc_proxy.Chain.Defs.{World}
use rpc_proxy.Chain.Links.{Linked-le, Descends}
use rpc_proxy.Chain.Reader.{runtime_reader}
use rpc_proxy.Coordinator.Monad.{Env, CoordinatorError}
use rpc_proxy.Coordinator.Transition.{validate_evm_transition}
use rpc_proxy.Coordinator.Ancestry.{Verdict, validate_evm_transition_sound}
use rpc_proxy.Coordinator.Tracking.{validate_evm_transition-Accounted}
use rpc_proxy.Coordinator.Consider.{
  Session, Lease, begin_fence, ask_evidence, read_current, confirm_current, weigh_fork,
  resolve_transition,
}
use rpc_proxy.Coordinator.Headers.{fenced}

module _ (w : World) (chain : Text) (depth : ℕ) (lease : Lease) (candidate : Head) where
  -- The store's head is the accepted one or the fenced one, which is then the variable's value too.
  abbrev pub Kept : Head → Session → Type 0
  Kept old σ =
      (σ.store.heads candidate.chain latest ≡ some old)
      ⊎ (σ.store.heads candidate.chain latest ≡ some (fenced old))

  pub begin_fence-inv :
      (σ : Session) (old : Head)
      → σ.current ≡ old
      → σ.store.heads candidate.chain latest ≡ some old
      → let r = begin_fence w chain depth lease candidate σ in
        Kept old r.1
        × (r.0 ≡ ok tt
            → (old.reorg_pending ≡ true × (r.1.current ≡ old)) ⊎ (r.1.current ≡ fenced old))
  unfolding begin_fence begin_reorg
  begin_fence-inv σ old c h = ground (arith, text_eq_refl candidate.chain, text_eq_refl latest)

  abbrev pub run_check : Head → Env Session → Result CoordinatorError Bool × Env Session
  run_check old e =
      validate_evm_transition (runtime_reader w chain) depth
        (begin_fence w chain depth lease candidate) old candidate e

  -- The session after a transition check that answers.
  pub checked-session :
      (old : Head) (e e' : Env Session) (b : Bool)
      → e.reported ≡ false
      → e.outer.current ≡ old
      → e.outer.store.heads candidate.chain latest ≡ some old
      → run_check old e ≡ (ok b, e')
      → (e'.outer.current.number ≡ old.number)
        × ((e'.reported ≡ false) ⊎ (old.reorg_pending ≡ true) ⊎ (e'.outer.current ≡ fenced old))
  checked-session old e e' b fresh c h run =
      let callback = begin_fence w chain depth lease candidate in
      let (ran, good) =
        validate_evm_transition-Accounted (runtime_reader w chain) depth callback old candidate e
          fresh in
      let answered = (begin_fence-inv e.outer old c h).1 in
      elim ((rw run at good) refl) [
        | inl (quiet, same) ↦ (rw same (rw c refl), inl quiet)
        | inr (loud, same, fine) ↦ elim (answered fine) [
          | inl (pending, kept) ↦ (rw same (rw kept refl), inr (inl pending))
          | inr moved ↦ (rw same (rw moved refl), inr (inr (rw same moved)))
        ]
      ]

  pub checked-inv :
      (old : Head) (e e' : Env Session) (b : Bool)
      → e.reported ≡ false
      → e.outer.current ≡ old
      → e.outer.store.heads candidate.chain latest ≡ some old
      → run_check old e ≡ (ok b, e')
      → (e'.outer.current.number ≡ old.number)
        × (((b ≡ false) × (candidate.number ≤ old.number ⊎ Descends candidate old))
            ⊎ ((b ≡ true) × ((old.reorg_pending ≡ true) ⊎ (e'.outer.current ≡ fenced old))))
  checked-inv old e e' b fresh c h run =
      let callback = begin_fence w chain depth lease candidate in
      let reader = runtime_reader w chain in
      let (level, session) = checked-session old e e' b fresh c h run in
      (
        level,
        verdict b (validate_evm_transition_sound reader depth callback old candidate b e e' run)
            session,
      )
    where
      verdict :
          (b : Bool)
          → Verdict
              (runtime_reader w chain)
              depth
              (begin_fence w chain depth lease candidate)
              old
              candidate
              b
              e'
          → (e'.reported ≡ false) ⊎ (old.reorg_pending ≡ true) ⊎ (e'.outer.current ≡ fenced old)
          → ((b ≡ false) × (candidate.number ≤ old.number ⊎ Descends candidate old))
            ⊎ ((b ≡ true) × ((old.reorg_pending ≡ true) ⊎ (e'.outer.current ≡ fenced old)))
      verdict false (inl below) s = inl (refl, inr below)
      verdict false (inr (p, l, (same, height))) s = inl (refl, inl (omega (arith, Linked-le l)))
      verdict true (meets, loud) (inl quiet) = absurd (ground arith)
      verdict true (meets, loud) (inr s) = inr (refl, s)

  pub check-Kept :
      (old : Head) (e : Env Session)
      → e.reported ≡ false
      → e.outer.current ≡ old
      → e.outer.store.heads candidate.chain latest ≡ some old
      → Kept old (run_check old e).1.outer
  check-Kept old e fresh c h =
      let callback = begin_fence w chain depth lease candidate in
      elim (validate_evm_transition-Accounted (runtime_reader w chain) depth callback old candidate
        e fresh).0 [
          | inl same ↦ rw same (inl h)
          | inr moved ↦ rw moved ((begin_fence-inv e.outer old c h).0)
        ]

  pub confirm_current-inv :
      (old : Head) (e : Env Session)
      → let r = confirm_current w chain depth lease candidate old e in
        (r.1.outer ≡ e.outer) × ((hd : Head) → r.0 ≡ ok (some hd) → hd ≡ candidate)
  unfolding confirm_current ask_evidence
  confirm_current-inv old e = (ground arith, λ hd k. ground arith)

  pub weigh_fork-inv :
      (current : Head) (e : Env Session)
      → let r = weigh_fork w chain depth lease candidate current e in
        (r.1.outer ≡ e.outer)
        × ((hd : Head)
            → r.0 ≡ ok (some hd)
            → (hd ≡ candidate) ⊎ (hd ≡ record current { observed_at = lease.observe_time }))
  unfolding weigh_fork ask_evidence
  weigh_fork-inv current e = (ground arith, λ hd k. ground arith)

  pub resolve_transition-outer :
      (old : Head) (e : Env Session)
      → (resolve_transition w chain depth lease candidate old e).1.outer ≡ (run_check old e).1.outer
  unfolding resolve_transition read_current
  resolve_transition-outer old e =
      let check = run_check old e in
      let same = (weigh_fork-inv check.1.outer.current check.1).0 in ground arith

  pub resolve_transition-inv :
      (old hd : Head) (e : Env Session)
      → let check = run_check old e in
        (resolve_transition w chain depth lease candidate old e).0 ≡ ok (some hd)
        → ((check.0 ≡ ok true)
            × ((hd ≡ candidate)
                ⊎ (hd ≡ record (check.1.outer.current) { observed_at = lease.observe_time })))
          ⊎ ((b : Bool) × (check.0 ≡ ok b)
              × (hd ≡ candidate)
              × (check.1.outer.current.number < candidate.number))
  unfolding resolve_transition read_current
  resolve_transition-inv old hd e k =
      let check = run_check old e in
      let kept = (weigh_fork-inv check.1.outer.current check.1).1 hd in ground arith
