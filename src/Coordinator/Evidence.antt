-- ===== src/Coordinator/Evidence.antt =====
-- `getCanonicalEvidence` of internal/coordinator/coordinator.go: whether the providers still have the
-- accepted head at its height.
use rpc_proxy.Prelude.{
  ℕ, ◌+◌, ◌≤◌, ◌≡◌, Bool, true, false, not, ◌&&◌, ◌||◌, Option, none, some, List, [], ◌∷◌, ltb,
  ◌==◌, if◌then◌else◌, Text, equal_fold, Result, ok, err,
}
use rpc_proxy.Head.{Head}
use rpc_proxy.Chain.Defs.{
  Upstream, World, failed, rpc_error, result, Origin, parse_evm_head, candidates,
}
use rpc_proxy.Coordinator.Monad.{CoordinatorError, evidence_missing}

pub record CanonicalEvidence : Type 0 where
  pub observed : Bool
  pub all_current : Bool

-- What the loop counts.
pub record Tally : Type 0 where
  pub uncertain : Bool
  pub checked : ℕ
  pub matching : ℕ

-- What the loop makes of the counts.
unfoldable pub weigh : Tally → Result CoordinatorError CanonicalEvidence
weigh t =
    if ltb 0 t.matching
    then ok (record { observed = true; all_current = not t.uncertain && t.matching == t.checked })
    else if t.uncertain || t.checked == 0
    then err evidence_missing
    else ok (record { observed = false; all_current = false })

module _ (w : World) (chain : Text) (current : Head) where
  -- One provider's block at the head's height: whether it is the head, if the provider shows it.
  unfoldable pub observe : Upstream → ℕ → Option Bool
  observe u tick =
      let origin : Origin = record {
        chain = chain;
        commitment = current.commitment;
        upstream = u.id;
        time = w.now tick;
      } in
      elim (w.by_number tick u.id current.number) [
        | failed ↦ none
        | rpc_error ↦ none
        | result raw ↦ elim (parse_evm_head origin raw) [
          | ok block ↦
              if not (block.number == current.number)
              then none
              else some (equal_fold block.hash current.hash)
          | err _ ↦ none
        ]
      ]

  -- The counts after one provider.
  unfoldable pub count : Tally → Option Bool → Tally
  count t none = record t { uncertain = true }
  count t (some true) = record t { checked = t.checked + 1; matching = t.matching + 1 }
  count t (some false) = record t { checked = t.checked + 1 }

  unfoldable pub count_all : List Upstream → ℕ → Tally → Tally × ℕ
  count_all [] tick t = (t, tick)
  count_all (u ∷ us) tick t = count_all us (tick + 1) (count t (observe u tick))

  unfoldable pub get_canonical_evidence : ℕ → Result CoordinatorError CanonicalEvidence × ℕ
  get_canonical_evidence tick =
      let counted =
        count_all (candidates false (w.upstreams tick)) tick
          (record { uncertain = false; checked = 0; matching = 0 }) in
      (weigh counted.0, counted.1)

  -- Every provider of the list has shown a block at the height, and its answer to "the head?" is `b`.
  abbrev pub AllShow : Bool → List Upstream → ℕ → Type 0
  AllShow b [] tick = Unit
  AllShow b (u ∷ us) tick = (observe u tick ≡ some b) × AllShow b us (tick + 1)

  -- What counts `t` that end as `r` say of the answers on the way.
  abbrev Counts : Tally → Tally → ℕ → Type 0 → Type 0 → Type 0
  Counts t r n A B =
      (t.matching ≤ r.matching)
      × (r.matching ≤ r.checked)
      × (r.uncertain ≡ false
          → (t.uncertain ≡ false)
            × (r.checked ≡ t.checked + n)
            × (r.matching ≡ r.checked → (t.matching ≡ t.checked) × A)
            × (r.matching ≡ t.matching → B))
