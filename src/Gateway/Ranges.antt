-- ===== src/Gateway/Ranges.antt =====
-- `transformEVMLogs`: the ranges and the targets of prepared log reads.
use rpc_proxy.Prelude.{
  ℕ, ◌-◌, ◌≤◌, ◌≡◌, ◌⊎◌, inl, inr, refl, sym, ◌∙◌, ◌&&◌, Bool-cases, Option-cases, Result-cases,
  none, some, List, [], ◌∷◌, ltb, leb, Text, ◌==◌, ok, arith,
}
use rpc_proxy.Head.{Head, Snapshot, latest, get_head}
use rpc_proxy.Chain.Reader.{BlockReader}
use rpc_proxy.Chain.Blocks.{ChainConfig}
use rpc_proxy.Gateway.Requests.{
  Filter, Param, received, json_string, block_identifier, log_filter, Prepared, get_snapshot_head,
}
use rpc_proxy.Gateway.Dispatch.{
  get_evm_log_bound, bound_selector, prepare_log_hash, prepare_log_block, prepare_log_range,
  prepare_log_bounds, prepare_log_selectors, prepare_logs,
}
use rpc_proxy.Gateway.Pinned.{IsPinned, prepare_log_hash-IsPinned, prepare_log_block-IsPinned}

get_evm_log_bound-le :
    (selector : Text) (accepted : Head) (n : ℕ)
    → get_evm_log_bound selector accepted ≡ ok n
    → n ≤ accepted.number
unfolding get_evm_log_bound
get_evm_log_bound-le selector accepted n h = ground arith

module _ (reader : BlockReader) (config : ChainConfig) (snapshot : Snapshot) (now : ℕ) where
  -- A read of logs is of one pinned block, or of a range that ends at or below the accepted head.
  abbrev pub IsRange : Prepared → Type 0
  IsRange r =
      (accepted : Head) × (from : ℕ) × (to : ℕ) × (get_head snapshot latest ≡ some accepted)
      × (from ≤ to)
      × (to ≤ accepted.number)
      × ((filter : Filter) × (r
            ≡ prepare_log_range reader config snapshot now filter accepted from to))

  prepare_log_bounds-inv :
      (filter : Filter) (from_selector to_selector : Text) (accepted : Head) (tick : ℕ)
      (r : Prepared)
      → (prepare_log_bounds reader config snapshot now filter from_selector to_selector accepted
          tick).0
        ≡ ok r
      → ((prepare_log_block reader config snapshot now filter to_selector tick).0 ≡ ok r)
        ⊎ ((from : ℕ) × (to : ℕ) × (from ≤ to)
            × (to ≤ accepted.number)
            × (r ≡ prepare_log_range reader config snapshot now filter accepted from to))
  unfolding prepare_log_bounds
  prepare_log_bounds-inv filter from_selector to_selector accepted tick r h =
      elim (Result-cases (get_evm_log_bound from_selector accepted)) [
        | inr (x, failed) ↦ absurd (ground arith)
        | inl (from, first) ↦ elim (Result-cases (get_evm_log_bound to_selector accepted)) [
          | inr (x, failed) ↦ absurd (ground arith)
          | inl (to, last) ↦
              let below = get_evm_log_bound-le to_selector accepted to last in
              elim (Bool-cases (ltb to from)) [
                | inl crossed ↦ absurd (ground arith)
                | inr ordered ↦
                    elim (Bool-cases
                      (from == to && leb (accepted.number - from) config.reorg_depth)) [
                        | inl single ↦ inl (ground arith)
                        | inr range ↦ inr (from, to, ground arith, below, ground arith)
                      ]
              ]
        ]
      ]

  prepare_log_selectors-inv :
      (filter : Filter) (tick : ℕ) (r : Prepared)
      → (prepare_log_selectors reader config snapshot now filter tick).0 ≡ ok r
      → (from : Text) × (to : Text) × (accepted : Head) × (get_snapshot_head snapshot latest
          ≡ ok accepted)
        × ((prepare_log_bounds reader config snapshot now filter from to accepted tick).0 ≡ ok r)
  unfolding prepare_log_selectors
  prepare_log_selectors-inv filter tick r h =
      elim (Option-cases (bound_selector filter.from_block)) [
        | inl lost ↦ absurd (ground arith)
        | inr (from, first) ↦ elim (Option-cases (bound_selector filter.to_block)) [
          | inl lost ↦ absurd (ground arith)
          | inr (to, last) ↦ elim (Result-cases (get_snapshot_head snapshot latest)) [
            | inr (x, failed) ↦ absurd (ground arith)
            | inl (accepted, stored) ↦ (from, to, accepted, stored, ground arith)
          ]
        ]
      ]

  snapshot_head-inv :
      (accepted : Head)
      → get_snapshot_head snapshot latest ≡ ok accepted
      → get_head snapshot latest ≡ some accepted
  unfolding get_snapshot_head
  snapshot_head-inv accepted h = ground arith

  prepare_logs-inv :
      (ps : List Param) (tick : ℕ) (r : Prepared)
      → (prepare_logs reader config snapshot now ps tick).0 ≡ ok r
      → (p : Param) × (filter : Filter) × ((prepare_log_hash reader config snapshot now p filter
            ≡ ok r)
          ⊎ ((prepare_log_selectors reader config snapshot now filter tick).0 ≡ ok r))
  unfolding prepare_logs
  prepare_logs-inv [] tick r h = absurd (ground arith)
  prepare_logs-inv (received c ∷ []) tick r h = elim (Option-cases c.filter) [
    | inl lost ↦ absurd (ground arith)
    | inr (filter, found) ↦ (received c, filter, ground arith)
  ]
  prepare_logs-inv (json_string c ∷ []) tick r h = absurd (ground arith)
  prepare_logs-inv (block_identifier c ∷ []) tick r h = absurd (ground arith)
  prepare_logs-inv (log_filter c ∷ []) tick r h = absurd (ground arith)
  prepare_logs-inv (received c ∷ q ∷ ps) tick r h = absurd (ground arith)
  prepare_logs-inv (json_string c ∷ q ∷ ps) tick r h = absurd (ground arith)
  prepare_logs-inv (block_identifier c ∷ q ∷ ps) tick r h = absurd (ground arith)
  prepare_logs-inv (log_filter c ∷ q ∷ ps) tick r h = absurd (ground arith)

  prepare_log_hash-range :
      (p : Param) (filter : Filter) (r : Prepared)
      → prepare_log_hash reader config snapshot now p filter ≡ ok r
      → r.log_range ≡ none
  unfolding prepare_log_hash
  prepare_log_hash-range p filter r h = ground arith

  prepare_log_block-range :
      (filter : Filter) (selector : Text) (tick : ℕ) (r : Prepared)
      → (prepare_log_block reader config snapshot now filter selector tick).0 ≡ ok r
      → r.log_range ≡ none
  unfolding prepare_log_block
  prepare_log_block-range filter selector tick r h = ground arith

  pub range-IsPinned : (r : Prepared) → IsRange r → IsPinned reader config snapshot now r
  range-IsPinned r (accepted, from, to, stored, ordered, below, (filter, same)) =
      (accepted, rw same (unfold prepare_log_range in refl), inl stored)

  pub prepare_logs-cases :
      (ps : List Param) (tick : ℕ) (r : Prepared)
      → (prepare_logs reader config snapshot now ps tick).0 ≡ ok r
      → (IsPinned reader config snapshot now r × (r.log_range ≡ none)) ⊎ IsRange r
  prepare_logs-cases ps tick r h =
      let (p, filter, how) = prepare_logs-inv ps tick r h in
      elim how [
        | inl named ↦ inl (
          prepare_log_hash-IsPinned reader config snapshot now p filter r named,
          prepare_log_hash-range p filter r named,
        )
        | inr bounded ↦
            let (from, to, accepted, stored, rest) =
              prepare_log_selectors-inv filter tick r bounded in
            elim (prepare_log_bounds-inv filter from to accepted tick r rest) [
              | inl single ↦ inl (
                prepare_log_block-IsPinned reader config snapshot now filter to tick r single,
                prepare_log_block-range filter to tick r single,
              )
              | inr (a, b, ordered, below, same) ↦ inr (
                accepted,
                a,
                b,
                snapshot_head-inv accepted stored,
                ordered,
                below,
                (filter, same),
              )
            ]
      ]

  log_range-inv :
      (filter : Filter) (accepted : Head) (from to : ℕ) (r : Prepared)
      → r ≡ prepare_log_range reader config snapshot now filter accepted from to
      → (r.log_range ≡ some (from, to))
        × (r.target ≡ some accepted)
        × (r.verify_boundaries ≡ accepted ∷ [])
  unfolding prepare_log_range
  log_range-inv filter accepted from to r same = rw same (refl, refl, refl)

  -- A read of logs over a range is prepared only with bounds in order and at or below the snapshot's
  -- accepted head, which is its target and is verified again as a boundary.
  pub prepare_logs-range :
      (ps : List Param) (tick : ℕ) (r : Prepared) (from to : ℕ)
      → (prepare_logs reader config snapshot now ps tick).0 ≡ ok r
      → r.log_range ≡ some (from, to)
      → (accepted : Head) × (get_head snapshot latest ≡ some accepted)
        × (from ≤ to)
        × (to ≤ accepted.number)
        × (r.target ≡ some accepted)
        × (r.verify_boundaries ≡ accepted ∷ [])
  prepare_logs-range ps tick r from to h ranged = elim (prepare_logs-cases ps tick r h) [
    | inl (pinned, single) ↦ absurd (ground arith)
    | inr (accepted, a, b, stored, ordered, below, (filter, same)) ↦
        let (bounds, is, again) = log_range-inv filter accepted a b r same in
        let both : some (a, b) ≡ some (from, to) = sym bounds ∙ ranged in
        let first : a ≡ from = ground arith in
        let last : b ≡ to = ground arith in (accepted, stored, omega arith, omega arith, is, again)
  ]
