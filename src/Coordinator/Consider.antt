-- ===== src/Coordinator/Consider.antt =====
-- `selectFreshest` and `consider` of internal/coordinator/coordinator.go, over the in-memory store.
-- The store changes only by the coordinator's own calls while it considers one head.
use rpc_proxy.Prelude.{
  ℕ, ◌-◌, Bool, false, ◌&&◌, Option, none, some, List, [], ◌∷◌, ltb, leb, ◌==◌, if◌then◌else◌, Text,
  text_eq, equal_fold, Result, ok, err,
}
use rpc_proxy.Head.{Head, identity, is_zero, evm, solana, zero_head, get_head}
use rpc_proxy.Store.Defs.{MemoryStore, StoreError, leadership_lost, begin_reorg, publish, snapshot}
use rpc_proxy.Chain.Defs.{World}
use rpc_proxy.Chain.Reader.{runtime_reader}
use rpc_proxy.Coordinator.Monad.{
  Env, M, ◌>>=◌, ◌>>◌, pure, guard, read_block, CoordinatorError, initial_linkage, leader_lost,
  fence_changed,
}
use rpc_proxy.Coordinator.Transition.{validate_evm_transition}
use rpc_proxy.Coordinator.Evidence.{CanonicalEvidence, get_canonical_evidence}

-- The first loop of `selectFreshest`.
unfoldable pub highest : Head → List Head → Head
highest selected [] = selected
highest selected (c ∷ cs) =
    if ltb selected.number c.number then highest c cs else highest selected cs

-- The first candidate that passes a test, or `selected`.
unfoldable pub first_or : (Head → Bool) → Head → List Head → Head
first_or accepts selected [] = selected
first_or accepts selected (c ∷ cs) = if accepts c then c else first_or accepts selected cs

-- `selectFreshest`, whose candidates are not empty. Its two other loops prefer the accepted head.
unfoldable pub select_freshest : Head → Head → List Head → Head
unfolding highest first_or
select_freshest current c cs =
    let selected = highest c cs in
    let same = λ (h : Head). text_eq (identity h) (identity current) in
    let fallback =
      if ltb selected.number current.number then first_or same selected (c ∷ cs) else selected in
    if is_zero current
    then selected
    else first_or (λ h. same h && h.number == selected.number) fallback (c ∷ cs)

-- What `consider` changes: the store, and its variable `current`, which the callback assigns.
pub record Session : Type 0 where
  pub store : MemoryStore
  pub current : Head

abbrev pub store_failure : StoreError → CoordinatorError
store_failure leadership_lost = leader_lost
store_failure _ = fence_changed

-- The token, and the times of the two store calls and of a head kept by convergence.
pub record Lease : Type 0 where
  pub token : Text
  pub fence_time : ℕ
  pub observe_time : ℕ
  pub publish_time : ℕ

unfoldable pub start : MemoryStore → Option Head → ℕ → Env Session
start s none tick = record {
  tick = tick;
  reported = false;
  outer = record { store = s; current = zero_head };
}
start s (some h) tick = record {
  tick = tick;
  reported = false;
  outer = record { store = s; current = h };
}

module _ (w : World) (chain : Text) (depth : ℕ) (lease : Lease) (candidate : Head) where
  -- `onDivergence`.
  unfoldable pub begin_fence : Session → Result CoordinatorError (Unit {0}) × Session
  begin_fence σ =
      let fenced = begin_reorg σ.store candidate.chain lease.token lease.fence_time in
      if σ.current.reorg_pending then (ok tt, σ) else elim fenced.0 [
        | ok guarded ↦ (ok tt, record { store = fenced.1; current = guarded })
        | err e ↦ (err (store_failure e), record σ { store = fenced.1 })
      ]

  unfoldable pub ask_evidence : Head → M Session CanonicalEvidence
  ask_evidence current e =
      let answer = get_canonical_evidence w chain current e.tick in
      (answer.0, record e { tick = answer.1 })

  -- The accepted head's variable, as the callback left it.
  unfoldable pub read_current : M Session Head
  read_current e = (ok e.outer.current, e)

  -- A candidate with the accepted head's hash.
  unfoldable pub confirm_current : Head → M Session (Option Head)
  confirm_current current =
      let checked : M Session (Option Head) = (do
        evidence ← ask_evidence current
        pure (if evidence.all_current then some candidate else none)) in
      if current.reorg_pending then checked else pure (some candidate)

  -- A candidate on a fork that is not above the accepted head.
  unfoldable pub weigh_fork : Head → M Session (Option Head)
  weigh_fork current = do
    evidence ← ask_evidence current
    pure (
        if evidence.observed
        then if evidence.all_current
          then some (record current { observed_at = lease.observe_time })
          else none
        else some candidate)

  -- A candidate of another hash: the head to publish, if any.
  unfoldable pub resolve_transition : Head → M Session (Option Head)
  resolve_transition accepted = do
    reorg ← validate_evm_transition (runtime_reader w chain) depth begin_fence accepted candidate
    current ← read_current
    (if leb candidate.number current.number
        then if reorg then weigh_fork current else pure none
        else pure (some candidate))

  -- The barrier is acknowledged after the choice.
  unfoldable pub acknowledge : Option Head → M Session (Option Head)
  acknowledge choice e = (
    ok (elim choice [
      | none ↦ none
      | some h ↦
          some (record h { reorg_epoch = e.outer.current.reorg_epoch; reorg_pending = false })
    ]),
    e,
  )

  unfoldable pub choose_evm : Head → M Session (Option Head)
  choose_evm accepted = do
    choice ←
        if equal_fold candidate.hash accepted.hash
        then confirm_current accepted
        else resolve_transition accepted
    acknowledge choice

  -- The parent of a chain's first head.
  unfoldable pub check_initial : M Session (Unit {0})
  check_initial = do
    parent ← read_block (runtime_reader w chain) (record {
      hash = candidate.parent_hash;
      commitment = candidate.commitment;
      preferred = candidate.origin;
    })
    guard (ltb parent.number candidate.number && candidate.number - parent.number == 1)
        initial_linkage

  -- The head to publish, if any.
  unfoldable pub choose_head : Option Head → M Session (Option Head)
  choose_head none = do
    if text_eq candidate.family evm && ltb 0 candidate.number then check_initial else pure tt
    pure (some candidate)
  choose_head (some accepted) =
      if text_eq candidate.family solana && ltb candidate.number accepted.number
      then pure none
      else if text_eq candidate.family evm
      then choose_evm accepted
      else pure (some candidate)

  unfoldable pub publish_choice : Option Head → M Session (Unit {0})
  publish_choice none e = (ok tt, e)
  publish_choice (some h) e =
      let published = publish e.outer.store lease.token h lease.publish_time in
      (
        elim published.0 [ ok _ ↦ ok tt | err x ↦ err (store_failure x) ],
        record e { outer = record (e.outer) { store = published.1 } },
      )

  -- `consider`.
  unfoldable pub consider : MemoryStore → ℕ → Result CoordinatorError (Unit {0}) × Env Session
  consider s tick =
      let accepted = get_head (snapshot s candidate.chain) candidate.commitment in
      let run : M Session (Unit {0}) = (do choice ← choose_head accepted; publish_choice choice) in
      run (start s accepted tick)
