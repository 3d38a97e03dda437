-- ===== src/Gateway/Epochs.antt =====
-- `fenceEVMResponses` of internal/gateway/reorg.go: what a result that passes it has been read under.
use rpc_proxy.Prelude.{
  ℕ, ◌+◌, ◌^◌, ◌≤◌, ◌<◌, ◌≡◌, ◌⊎◌, inl, inr, refl, true, false, not, ◌||◌, none, some, List, [],
  ◌∷◌, ◌++◌, length, sym, ◌∙◌, map, Text, text_eq, text_eq_refl, equal_fold, arith, All,
  Option-cases, Bool-cases,
}
use rpc_proxy.Head.{Head, Snapshot, latest, get_head, evm}
use rpc_proxy.Store.Defs.{MemoryStore, snapshot}
use rpc_proxy.Store.Runs.{Op, run}
use rpc_proxy.Store.Epochs.{epoch, is_pending, IsEvmOn, no_reorg_between}
use rpc_proxy.Gateway.Fence.{
  FailureClass, ProcessedResponse, FenceConfig, Recheck, compare_heads, failure_class, reject,
  reject_targeted, needs_fence, fence_evm_responses,
}

-- What the comparison of the accepted heads establishes where it finds no failure.
pub record Undisturbed (config : FenceConfig) (before after : Head) (now : ℕ) : Type 0 where
  pub closed_before : before.reorg_pending ≡ false
  pub closed_after : after.reorg_pending ≡ false
  pub same_epoch : before.reorg_epoch ≡ after.reorg_epoch
  pub newer : before.generation ≤ after.generation
  pub not_replaced : (before.number < after.number) ⊎ (equal_fold after.hash before.hash ≡ true)
  pub fresh : config.max_head_age ≡ 0 ⊎ (now ≤ after.observed_at + config.max_head_age)

compare_heads-Undisturbed :
    (config : FenceConfig) (before after : Head) (now : ℕ)
    → compare_heads config before after now ≡ none
    → Undisturbed config before after now
unfolding compare_heads
compare_heads-Undisturbed config before after now h = ground arith

reject-untargeted :
    (config : FenceConfig) (class : FailureClass) (rs : List ProcessedResponse)
    → needs_fence (map (reject_targeted config class) rs) ≡ false
unfolding needs_fence reject_targeted
reject-untargeted config class [] = refl
reject-untargeted config class (r ∷ rs) =
    let rest = reject-untargeted config class rs in ground arith

-- A result with a target passes only where no failure was found.
fence-class :
    (config : FenceConfig) (initial : Snapshot) (recheck : Recheck) (rs : List ProcessedResponse)
    → config.family ≡ evm
    → needs_fence (fence_evm_responses config initial recheck rs) ≡ true
    → failure_class config initial recheck ≡ none
unfolding fence_evm_responses
fence-class config initial recheck rs f h =
    elim (Option-cases (failure_class config initial recheck)) [
      | inl clean ↦ clean
      | inr (class, found) ↦
          let none_left = reject-untargeted config class rs in
          absurd (ground (arith, text_eq_refl evm))
    ]

failure_class-heads :
    (config : FenceConfig) (initial : Snapshot) (recheck : Recheck)
    → failure_class config initial recheck ≡ none
    → (current : Snapshot) × (before : Head) × (after : Head) × (recheck.snapshot ≡ some current)
      × (recheck.done ≡ false)
      × (get_head initial latest ≡ some before)
      × (get_head current latest ≡ some after)
      × (compare_heads config before after recheck.now ≡ none)
unfolding failure_class
failure_class-heads config initial recheck h = elim (Option-cases recheck.snapshot) [
  | inl missing ↦ absurd (ground arith)
  | inr (current, shown) ↦ elim (Option-cases (get_head initial latest)) [
    | inl missing ↦ absurd (ground arith)
    | inr (before, first) ↦ elim (Option-cases (get_head current latest)) [
      | inl missing ↦ absurd (ground arith)
      | inr (after, second) ↦
          (current, before, after, shown, ground arith, first, second, ground arith)
    ]
  ]
]

-- A result with a target passes the fence only if the accepted `latest` head that was read before
-- the request and the one read after it are both closed and of one reorg epoch, the later one is of
-- no earlier generation, and it is either higher or of the same hash, and not older than the
-- configured age, if there is one.
pub fence_evm_responses_sound :
    (config : FenceConfig) (initial : Snapshot) (recheck : Recheck) (rs : List ProcessedResponse)
    → config.family ≡ evm
    → needs_fence (fence_evm_responses config initial recheck rs) ≡ true
    → (current : Snapshot) × (before : Head) × (after : Head) × (recheck.snapshot ≡ some current)
      × (recheck.done ≡ false)
      × (get_head initial latest ≡ some before)
      × (get_head current latest ≡ some after)
      × Undisturbed config before after recheck.now
fence_evm_responses_sound config initial recheck rs f h =
    let (current, before, after, shown, live, first, second, same) =
      failure_class-heads config initial recheck (fence-class config initial recheck rs f h) in
    (
      current,
      before,
      after,
      shown,
      live,
      first,
      second,
      compare_heads-Undisturbed config before after recheck.now same,
    )

heads_same : (c d : Snapshot) → some c ≡ some d → get_head c latest ≡ get_head d latest
heads_same c d e = ground arith

-- Between the two reads of the store that a passing result was checked against, no reorg was recorded
-- for its chain at any moment, however the store's operations were interleaved. The heads published for
-- the chain are EVM heads, and its epoch stays below 2 ^ 64.
pub fence_evm_responses_no_reorg :
    (config : FenceConfig) (s : MemoryStore) (xs ys : List Op) (chain : Text) (recheck : Recheck)
    (rs : List ProcessedResponse)
    → config.family ≡ evm
    → recheck.snapshot ≡ some (snapshot (run (xs ++ ys) s) chain)
    → epoch s chain + length (xs ++ ys) < 2 ^ 64
    → All (IsEvmOn chain) (xs ++ ys)
    → needs_fence (fence_evm_responses config (snapshot s chain) recheck rs) ≡ true
    → (is_pending (run xs s) chain ≡ false) × (epoch (run xs s) chain ≡ epoch s chain)
unfolding snapshot
fence_evm_responses_no_reorg config s xs ys chain recheck rs f shown b e h =
    let (current, before, after, shown', live, first, second, kept) =
      fence_evm_responses_sound config (snapshot s chain) recheck rs f h in
    let open_first : is_pending s chain ≡ false = rw first kept.closed_before in
    let is : some current ≡ some (snapshot (run (xs ++ ys) s) chain) = sym shown' ∙ shown in
    let last : (run (xs ++ ys) s).heads chain latest ≡ some after =
      sym (heads_same current (snapshot (run (xs ++ ys) s) chain) is) ∙ second in
    no_reorg_between xs ys s chain b e open_first (rw (first, last) (sym kept.same_epoch))

-- A response is passed on as it is, or its result is discarded, with what it says of a head and an
-- upstream, in favour of an error.
abbrev pub Fenced : FenceConfig → ProcessedResponse → ProcessedResponse → Type 0
Fenced config r r' =
    (r' ≡ r)
    ⊎ ((target : Head) × (class : FailureClass) × (r.target ≡ some target)
        × (r' ≡ reject config class r))

abbrev pub AllFenced : FenceConfig → List ProcessedResponse → List ProcessedResponse → Type 0
AllFenced config [] [] = Unit
AllFenced config (r ∷ rs) (r' ∷ rs') = Fenced config r r' × AllFenced config rs rs'
AllFenced config _ _ = ⊥

unchanged-AllFenced : (config : FenceConfig) (rs : List ProcessedResponse) → AllFenced config rs rs
unchanged-AllFenced config [] = tt
unchanged-AllFenced config (r ∷ rs) = (inl refl, unchanged-AllFenced config rs)

rejected-Fenced :
    (config : FenceConfig) (class : FailureClass) (r : ProcessedResponse)
    → Fenced config r (reject_targeted config class r)
unfolding reject_targeted
rejected-Fenced config class r = elim (Option-cases r.target) [
  | inl missing ↦ inl (rw missing refl)
  | inr (target, found) ↦ inr (target, class, found, rw found refl)
]

rejected-AllFenced :
    (config : FenceConfig) (class : FailureClass) (rs : List ProcessedResponse)
    → AllFenced config rs (map (reject_targeted config class) rs)
rejected-AllFenced config class [] = tt
rejected-AllFenced config class (r ∷ rs) =
    (rejected-Fenced config class r, rejected-AllFenced config class rs)

-- The fence answers every response in its place: it passes it on as it is, or, where it has a target,
-- replaces it by an error under the same ID that names no head and no upstream.
fence_evm_responses-AllFenced :
    (config : FenceConfig) (initial : Snapshot) (recheck : Recheck) (rs : List ProcessedResponse)
    → AllFenced config rs (fence_evm_responses config initial recheck rs)
unfolding fence_evm_responses
fence_evm_responses-AllFenced config initial recheck rs =
    elim (Bool-cases (not (text_eq config.family evm) || not (needs_fence rs))) [
      | inl free ↦ rw (fence_evm_responses, free) (unchanged-AllFenced config rs)
      | inr checked ↦ elim (Option-cases (failure_class config initial recheck)) [
        | inl clean ↦ rw (fence_evm_responses, checked, clean) (unchanged-AllFenced config rs)
        | inr (class, found) ↦
            rw (fence_evm_responses, checked, found) (rejected-AllFenced config class rs)
      ]
    ]
