-- ===== src/Coordinator/Chosen.antt =====
-- `consider` of internal/coordinator/coordinator.go: what the choice of an EVM head has established
-- before it is published.
use rpc_proxy.Prelude.{
  ℕ, ◌<◌, ◌≡◌, ◌⊎◌, inl, inr, refl, ap, ◌∙◌, Bool, true, false, none, some, if◌then◌else◌,
  Bool-cases, Text, equal_fold, Result-cases, ok, arith,
}
use rpc_proxy.Head.{Head, latest}
use rpc_proxy.Chain.Defs.{World}
use rpc_proxy.Chain.Links.{Descends}
use rpc_proxy.Coordinator.Monad.{Env}
use rpc_proxy.Coordinator.Consider.{
  Session, Lease, confirm_current, resolve_transition, acknowledge, choose_evm,
}
use rpc_proxy.Coordinator.Headers.{Descends-same, fenced}
use rpc_proxy.Coordinator.Sessions.{
  Kept, run_check, check-Kept, checked-inv, confirm_current-inv, resolve_transition-outer,
  resolve_transition-inv,
}

module _ (w : World) (chain : Text) (depth : ℕ) (lease : Lease) (candidate : Head) where
  -- What the acknowledged choice has established, where the accepted epoch was not open.
  abbrev pub Chosen : Head → Session → Head → Type 0
  Chosen old σ hd =
      (hd.chain ≡ candidate.chain)
      × (hd.commitment ≡ latest)
      × (hd.reorg_epoch ≡ σ.current.reorg_epoch)
      × ((equal_fold hd.hash old.hash ≡ true) ⊎ Descends hd old ⊎ (σ.current ≡ fenced old))

  choose_evm-inv :
      (old hd : Head) (e : Env Session)
      → let choice =
          (if equal_fold candidate.hash old.hash
            then confirm_current w chain depth lease candidate old e
            else resolve_transition w chain depth lease candidate old e) in
        let r = choose_evm w chain depth lease candidate old e in
        (r.1.outer ≡ choice.1.outer)
        × (r.0 ≡ ok (some hd)
            → (h : Head) × (choice.0 ≡ ok (some h))
              × (hd ≡ record h {
                reorg_epoch = r.1.outer.current.reorg_epoch;
                reorg_pending = false;
              }))
  unfolding choose_evm acknowledge
  choose_evm-inv old hd e =
      let choice =
        (if equal_fold candidate.hash old.hash
          then confirm_current w chain depth lease candidate old e
          else resolve_transition w chain depth lease candidate old e) in
      (
        ground arith,
        λ k. elim (Result-cases choice.0) [
          | inl (some h, chosen) ↦ (h, chosen, ground arith)
          | inl (none, chosen) ↦ absurd (ground arith)
          | inr (x, chosen) ↦ absurd (ground arith)
        ],
      )

  pub choose_evm-Kept :
      (old : Head) (e : Env Session)
      → e.reported ≡ false
      → e.outer.current ≡ old
      → e.outer.store.heads candidate.chain latest ≡ some old
      → Kept w chain depth lease candidate old
          (choose_evm w chain depth lease candidate old e).1.outer
  choose_evm-Kept old e fresh c h =
      rw ((choose_evm-inv old old e).0) (elim (Bool-cases (equal_fold candidate.hash old.hash)) [
        | inl same ↦ rw (same, (confirm_current-inv w chain depth lease candidate old e).0) (inl h)
        | inr other ↦
            rw (other, resolve_transition-outer w chain depth lease candidate old e)
              (check-Kept w chain depth lease candidate old e fresh c h)
      ])

  -- A fork above an epoch that was not open has opened one.
  fork-moved :
      (old : Head) (e : Env Session)
      → old.reorg_pending ≡ false
      → e.reported ≡ false
      → e.outer.current ≡ old
      → e.outer.store.heads candidate.chain latest ≡ some old
      → (run_check w chain depth lease candidate old e).0 ≡ ok true
      → (run_check w chain depth lease candidate old e).1.outer.current ≡ fenced old
  fork-moved old e still fresh c h fork =
      let check = run_check w chain depth lease candidate old e in
      elim ((checked-inv w chain depth lease candidate old e check.1 true fresh c h
        (λ i. (fork i, check.1))).1) [
          | inl (no_fork, _) ↦ absurd (ground arith)
          | inr (_, inl pending) ↦ absurd (ground arith)
          | inr (_, inr moved) ↦ moved
        ]

  -- A candidate above the accepted head descends from it, or is on a fork.
  above-Descends :
      (old : Head) (e : Env Session) (b : Bool)
      → old.reorg_pending ≡ false
      → e.reported ≡ false
      → e.outer.current ≡ old
      → e.outer.store.heads candidate.chain latest ≡ some old
      → (run_check w chain depth lease candidate old e).0 ≡ ok b
      → (run_check w chain depth lease candidate old e).1.outer.current.number < candidate.number
      → Descends candidate old
        ⊎ ((run_check w chain depth lease candidate old e).1.outer.current ≡ fenced old)
  above-Descends old e b still fresh c h answer above =
      let check = run_check w chain depth lease candidate old e in
      let (level, verdict) =
        checked-inv w chain depth lease candidate old e check.1 b fresh c h
          (λ i. (answer i, check.1)) in
      elim verdict [
        | inl (_, inl below) ↦ absurd (omega arith)
        | inl (_, inr below) ↦ inl below
        | inr (_, inl pending) ↦ absurd (ground arith)
        | inr (_, inr moved) ↦ inr moved
      ]

  pub choose_evm-Chosen :
      (old hd : Head) (e : Env Session)
      → candidate.commitment ≡ latest
      → old.chain ≡ candidate.chain
      → old.commitment ≡ latest
      → old.reorg_pending ≡ false
      → e.reported ≡ false
      → e.outer.current ≡ old
      → e.outer.store.heads candidate.chain latest ≡ some old
      → let r = choose_evm w chain depth lease candidate old e in
        r.0 ≡ ok (some hd) → Chosen old r.1.outer hd
  choose_evm-Chosen old hd e k oc ok' still fresh c h run =
      let (outer, chosen) = choose_evm-inv old hd e in
      let (h₀, done, shape) = chosen run in
      let acknowledged : Head → Head = λ x. record x {
        reorg_epoch = (choose_evm w chain depth lease candidate old e).1.outer.current.reorg_epoch;
        reorg_pending = false;
      } in
      elim (Bool-cases (equal_fold candidate.hash old.hash)) [
        | inl same ↦
            let is : h₀ ≡ candidate =
              (confirm_current-inv w chain depth lease candidate old e).1 h₀ (rw same at done) in
            rw (shape, is) (refl, k, refl, inl same)
        | inr other ↦
            let session : (choose_evm w chain depth lease candidate old e).1.outer
                ≡ (run_check w chain depth lease candidate old e).1.outer =
              (rw other at outer) ∙ resolve_transition-outer w chain depth lease candidate old e in
            elim (resolve_transition-inv w chain depth lease candidate old h₀ e
              (rw other at done)) [
                | inl (fork, inl is) ↦
                    let moved = fork-moved old e still fresh c h fork in
                    rw (shape, is) (refl, k, refl, inr (inr (rw session moved)))
                | inl (fork, inr is) ↦
                    let moved = fork-moved old e still fresh c h fork in
                    rw (shape, is)
                      (
                        ap (λ x. x.chain) moved ∙ oc,
                        ap (λ x. x.commitment) moved ∙ ok',
                        refl,
                        inr (inr (rw session moved)),
                      )
                | inr (b, answer, is, above) ↦
                    elim (above-Descends old e b still fresh c h answer above) [
                      | inl below ↦
                          rw (shape, is)
                            (
                              refl,
                              k,
                              refl,
                              inr (
                                  inl (
                                    Descends-same candidate (acknowledged candidate) old
                                      (refl, refl, refl) below)),
                            )
                      | inr moved ↦ rw (shape, is) (refl, k, refl, inr (inr (rw session moved)))
                    ]
              ]
      ]
