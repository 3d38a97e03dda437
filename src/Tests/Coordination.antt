-- ===== src/Tests/Coordination.antt =====
-- The coordinator's theorems at the fork of the fixtures.
use rpc_proxy.Prelude.{ℕ, ◌+◌, ◌≡◌, ◌⊎◌, refl, Bool, true, false, List, Result, ok, err}
use rpc_proxy.Head.{Head}
use rpc_proxy.Chain.Defs.{candidates}
use rpc_proxy.Chain.Reader.{BlockReader, runtime_reader}
use rpc_proxy.Coordinator.Monad.{Env, CoordinatorError}
use rpc_proxy.Coordinator.Transition.{validate_evm_transition}
use rpc_proxy.Coordinator.Tracking.{validate_evm_transition_reports}
use rpc_proxy.Coordinator.Evidence.{CanonicalEvidence, get_canonical_evidence}
use rpc_proxy.Coordinator.Consider.{Lease, consider}
use rpc_proxy.Tests.Fixtures.{chain, accepted, fork, world, token}

abbrev lease : Lease
lease = record { token = token; fence_time = 10; observe_time = 10; publish_time = 11 }

abbrev after_fork : Head
after_fork = record fork { reorg_epoch = 1; generation = 2; changed_at = 7 }

-- A callback that counts its runs.
abbrev count_run : ℕ → Result CoordinatorError (Unit {0}) × ℕ
count_run n = (ok tt, n + 1)

abbrev reader : BlockReader
reader = runtime_reader world chain

abbrev fresh : Env ℕ
fresh = record { tick = 0; reported = false; outer = 0 }

abbrev checked : Env ℕ
checked = record { tick = 4; reported = true; outer = 1 }

fork_checked : validate_evm_transition reader 4 count_run accepted fork fresh ≡ (ok true, checked)
unfolding rpc_proxy.Coordinator.Consider.highest rpc_proxy.Coordinator.Consider.first_or
    rpc_proxy.Coordinator.Consider.select_freshest rpc_proxy.Coordinator.Consider.start
    rpc_proxy.Coordinator.Consider.begin_fence rpc_proxy.Coordinator.Consider.ask_evidence
    rpc_proxy.Coordinator.Consider.read_current rpc_proxy.Coordinator.Consider.confirm_current
    rpc_proxy.Coordinator.Consider.weigh_fork rpc_proxy.Coordinator.Consider.resolve_transition
    rpc_proxy.Coordinator.Consider.acknowledge rpc_proxy.Coordinator.Consider.choose_evm
    rpc_proxy.Coordinator.Consider.check_initial rpc_proxy.Coordinator.Consider.choose_head
    rpc_proxy.Coordinator.Consider.publish_choice rpc_proxy.Coordinator.Consider.consider
    rpc_proxy.Coordinator.Transition.get_ancestor_number
    rpc_proxy.Coordinator.Transition.report_divergence rpc_proxy.Coordinator.Transition.report_if
    rpc_proxy.Coordinator.Transition.check_parent rpc_proxy.Coordinator.Transition.descend
    rpc_proxy.Coordinator.Transition.collect rpc_proxy.Coordinator.Transition.find_common
    rpc_proxy.Coordinator.Transition.compare_chains rpc_proxy.Coordinator.Transition.check_candidate
    rpc_proxy.Coordinator.Transition.validate_fork
    rpc_proxy.Coordinator.Transition.validate_evm_transition rpc_proxy.Coordinator.Evidence.weigh
    rpc_proxy.Coordinator.Evidence.observe rpc_proxy.Coordinator.Evidence.count
    rpc_proxy.Coordinator.Evidence.count_all rpc_proxy.Coordinator.Evidence.get_canonical_evidence
    rpc_proxy.Coordinator.Monad.try_read rpc_proxy.Coordinator.Monad.read_block
    rpc_proxy.Store.Defs.fence_token rpc_proxy.Store.Defs.acquire rpc_proxy.Store.Defs.renew
    rpc_proxy.Store.Defs.release rpc_proxy.Store.Defs.same_identity rpc_proxy.Store.Defs.event_id
    rpc_proxy.Store.Defs.install rpc_proxy.Store.Defs.refresh rpc_proxy.Store.Defs.publish
    rpc_proxy.Store.Defs.fence_head rpc_proxy.Store.Defs.begin_reorg rpc_proxy.Store.Defs.set_head
    rpc_proxy.Store.Defs.snapshot rpc_proxy.Store.Defs.stream_start
    rpc_proxy.Store.Defs.stream_cursor rpc_proxy.Store.Defs.find_cursor
    rpc_proxy.Store.Defs.events_after rpc_proxy.Store.Defs.read_events
    rpc_proxy.Chain.Defs.decode_string rpc_proxy.Chain.Defs.eligible rpc_proxy.Chain.Defs.candidates
    rpc_proxy.Chain.Defs.preferred_candidates rpc_proxy.Chain.Defs.parse_evm_head
    rpc_proxy.Chain.Defs.accept_reply rpc_proxy.Chain.Defs.try_upstreams
    rpc_proxy.Chain.Defs.evm_block_by_hash rpc_proxy.Head.identity rpc_proxy.Head.is_zero
    rpc_proxy.Quantity.has_prefix rpc_proxy.Quantity.byte_at rpc_proxy.Quantity.digit_value
    rpc_proxy.Quantity.parse_digits rpc_proxy.Quantity.parse_uint
    rpc_proxy.Quantity.parse_evm_quantity rpc_proxy.Quantity.digit rpc_proxy.Quantity.format_digits
    rpc_proxy.Quantity.format_evm_quantity rpc_proxy.Quantity.is_hex rpc_proxy.Quantity.is_evm_hash
    rpc_proxy.Prelude.text_eq rpc_proxy.Prelude.lower rpc_proxy.Prelude.equal_fold
    rpc_proxy.Prelude.decimal_digits rpc_proxy.Prelude.decimal rpc_proxy.Prelude.number_after
fork_checked = refl

validate_evm_transition_reports_example :
    ((checked.reported ≡ false) × (checked.outer ≡ 0))
    ⊎ ((checked.reported ≡ true) × (checked.outer ≡ 1) × ((count_run 0).0 ≡ ok tt))
validate_evm_transition_reports_example =
    validate_evm_transition_reports reader 4 count_run accepted fork true fresh checked refl
      fork_checked

abbrev agreed : CanonicalEvidence
agreed = record { observed = true; all_current = true }
