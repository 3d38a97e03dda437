-- ===== src/Coordinator/Transition.antt =====
-- `validateEVMTransition` of internal/coordinator/coordinator.go: whether a candidate head extends
-- the accepted head, is an ancestor of it, or forks from it at a common ancestor within the
-- configured depth. The loops count the rounds that are left, `depth` at first.
use rpc_proxy.Prelude.{
  ℕ, zero, suc, ◌+◌, ◌-◌, Bool, true, false, not, ◌&&◌, ◌||◌, Option, none, some, List, [], ◌∷◌,
  ltb, ◌==◌, if◌then◌else◌, Text, equal_fold, is_empty, u64, Result, ok,
}
use rpc_proxy.Head.{Head}
use rpc_proxy.Chain.Defs.{BlockRequest}
use rpc_proxy.Chain.Reader.{BlockReader}
use rpc_proxy.Coordinator.Monad.{
  M, ◌>>=◌, ◌>>◌, pure, fail, guard, try_read, read_block, CoordinatorError, depth_not_positive,
  invalid_linkage, gap_exceeds_window, no_common_ancestor,
}

-- `parent.Number+1 == child.Number && strings.EqualFold(parent.Hash, child.ParentHash)`.
abbrev pub is_parent : Head → Head → Bool
is_parent parent child =
    u64 (parent.number + 1) == child.number && equal_fold parent.hash child.parent_hash

-- `candidate.Number > current.Number && candidate.Number-current.Number == 1`.
abbrev pub one_above : Head → Head → Bool
one_above h g = ltb g.number h.number && h.number - g.number == 1

-- `currentAncestors`, the newest entry first. A key that is written again has the same height.
abbrev pub Ancestors : Type 0
Ancestors = List (Text × ℕ)

-- `getAncestorNumber`, in the order of the list; Go's iteration order is not specified.
unfoldable pub get_ancestor_number : Ancestors → Text → Option ℕ
get_ancestor_number [] hash = none
get_ancestor_number ((ancestor, number) ∷ ancestors) hash =
    if equal_fold ancestor hash then some number else get_ancestor_number ancestors hash

abbrev pub is_ancestor : Ancestors → Head → Bool
is_ancestor ancestors cursor = elim (get_ancestor_number ancestors cursor.hash) [
  | none ↦ false
  | some number ↦ number == cursor.number
]

-- What the walk down the accepted chain finds: the candidate itself, or a list of ancestors.
pub data Walk : Type 0 where
  met : Walk
  collected : Ancestors → Walk

-- The lookup of a header's parent on a walk down from `start`, at the upstream of `start` first.
abbrev pub walk_request : Head → Head → BlockRequest
walk_request start cursor = record {
  hash = cursor.parent_hash;
  commitment = start.commitment;
  preferred = start.origin;
}

module _ {ℓ} {S : Type ℓ} (reader : BlockReader) (depth : ℕ)
    (on_divergence : S → Result CoordinatorError (Unit {0}) × S) where
  -- `reportDivergence`: the callback runs once.
  unfoldable pub report_divergence : M S (Unit {0})
  report_divergence e = if e.reported then (ok tt, e) else (
    (on_divergence e.outer).0,
    record e { reported = true; outer = (on_divergence e.outer).1 },
  )

  unfoldable pub report_if : Bool → M S (Unit {0})
  report_if true = report_divergence
  report_if false = pure tt

  module _ (current candidate : Head) where
    -- The candidate's parent, read once before the walks.
    unfoldable pub check_parent : M S (Unit {0})
    check_parent = do
      parent ← read_block reader (walk_request candidate candidate)
      guard (is_parent parent candidate) invalid_linkage

    -- The walk from the candidate down to the accepted head's height.
    unfoldable pub descend : ℕ → Head → M S Head
    descend zero cursor =
        if ltb current.number cursor.number then fail gap_exceeds_window else pure cursor
    descend (suc left) cursor =
        let request = walk_request candidate cursor in
        let next : M S Head = (do
          parent ← read_block reader request
          guard (ltb parent.number cursor.number && u64 (parent.number + 1) == cursor.number)
              invalid_linkage
          descend left parent) in
        if ltb current.number cursor.number then next else pure cursor

    -- The walk down the accepted chain. A failed read ends it.
    unfoldable pub collect : ℕ → Head → Ancestors → M S Walk
    collect zero cursor ancestors = pure (collected ancestors)
    collect (suc left) cursor ancestors =
        let request = walk_request current cursor in
        let next : M S Walk = (do
          reply ← try_read reader request
          elim reply [
            | none ↦ pure (collected ancestors)
            | some parent ↦ do
              guard (is_parent parent cursor) invalid_linkage
              (if parent.number == candidate.number && equal_fold parent.hash candidate.hash
                  then pure met
                  else collect left parent ((parent.hash, parent.number) ∷ ancestors))
          ]) in
        if ltb 0 cursor.number && not (is_empty cursor.parent_hash)
        then next
        else pure (collected ancestors)

    -- The walk down the candidate's chain to one of the accepted head's ancestors.
    unfoldable pub find_common : Ancestors → ℕ → Head → M S Bool
    find_common ancestors zero cursor =
        if is_ancestor ancestors cursor then pure true else fail no_common_ancestor
    find_common ancestors (suc left) cursor =
        let request = walk_request candidate cursor in
        let next : M S Bool = (do
          parent ← read_block reader request
          guard (is_parent parent cursor) invalid_linkage
          find_common ancestors left parent) in
        if is_ancestor ancestors cursor
        then pure true
        else if cursor.number == 0 || is_empty cursor.parent_hash
        then fail no_common_ancestor
        else next

    -- From the heights on which the two chains are level.
    unfoldable pub compare_chains : Head → M S Bool
    compare_chains cursor = do
      report_if (cursor.number == current.number)
      walk ← collect depth current ((current.hash, current.number) ∷ [])
      elim walk [
        | met ↦ pure false
        | collected ancestors ↦ do report_divergence; find_common ancestors depth cursor
      ]

    -- What precedes the walks: a fork that the heights show, the depth, and the candidate's parent.
    unfoldable pub check_candidate : M S (Unit {0})
    check_candidate = do
      report_if (
          (candidate.number == current.number || one_above candidate current)
          && not (equal_fold candidate.hash current.hash))
      guard (ltb 0 depth) depth_not_positive
      if ltb 0 candidate.number then check_parent else pure tt

    -- After the two cases that the headers alone decide.
    unfoldable pub validate_fork : M S Bool
    validate_fork = do
      check_candidate
      cursor ← descend depth candidate
      (if cursor.number == current.number && equal_fold cursor.hash current.hash
          then pure false
          else compare_chains cursor)

    -- `validateEVMTransition`: whether the candidate is on a fork.
    unfoldable pub validate_evm_transition : M S Bool
    validate_evm_transition =
        if one_above candidate current && equal_fold candidate.parent_hash current.hash
        then pure false
        else if one_above current candidate && equal_fold current.parent_hash candidate.hash
        then pure false
        else validate_fork
