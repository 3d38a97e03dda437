-- ===== src/Store/Epochs.antt =====
-- `MemoryStore`: the reorg epoch of a chain's accepted `latest` head.
use rpc_proxy.Prelude.{
  ℕ, ◌+◌, ◌^◌, ◌≤◌, ◌<◌, ◌≡◌, inl, inr, Bool, true, false, Option, none, some, List, [], ◌∷◌, ◌++◌,
  arith, Bool-cases, Text, text_eq_iff, text_eq_refl, length, length-append, All,
}
use rpc_proxy.Head.{Head, latest, evm}
use rpc_proxy.Store.Runs.{
  Op, acquiring, renewing, releasing, publishing, fencing, apply, run, run-append,
}
use rpc_proxy.Store.Defs.{
  MemoryStore, acquire, renew, release, epoch_of, publish, begin_reorg, refresh, install,
}

-- The epoch and the fence of a chain's accepted `latest` head, as a reader of a snapshot sees them.
abbrev pub pending_of : Option Head → Bool
pending_of none = false
pending_of (some h) = h.reorg_pending

abbrev pub epoch : MemoryStore → Text → ℕ
epoch s chain = epoch_of (s.heads chain latest)

abbrev pub is_pending : MemoryStore → Text → Bool
is_pending s chain = pending_of (s.heads chain latest)

-- The coordinator of an EVM chain publishes EVM heads.
abbrev pub IsEvmOn : Text → Op → Type 0
IsEvmOn chain (publishing token h now) = h.chain ≡ chain → h.family ≡ evm
IsEvmOn chain _ = Unit

-- What one operation may do to the epoch.
record Advances (s t : MemoryStore) (chain : Text) : Type 0 where
  grows : epoch s chain ≤ epoch t chain
  slowly : epoch t chain ≤ epoch s chain + 1
  fenced : is_pending s chain ≡ false → is_pending t chain ≡ true → epoch s chain < epoch t chain

publish-Advances :
    (s : MemoryStore) (t : Text) (h : Head) (now : ℕ) (chain : Text)
    → (h.chain ≡ chain → h.family ≡ evm)
    → Advances s (publish s t h now).1 chain
unfolding publish refresh install
publish-Advances s t h now chain e = ground (
  arith,
  text_eq_iff chain h.chain,
  text_eq_iff latest h.commitment,
  text_eq_iff h.commitment latest,
  text_eq_iff h.family evm,
  text_eq_refl evm,
)

begin_reorg-Advances :
    (s : MemoryStore) (c t : Text) (now : ℕ) (chain : Text)
    → epoch s chain + 1 < 2 ^ 64
    → Advances s (begin_reorg s c t now).1 chain
unfolding begin_reorg
begin_reorg-Advances s c t now chain b = ground (arith, text_eq_iff chain c, text_eq_refl latest)

acquire-Advances :
    (s : MemoryStore) (c owner : Text) (ttl now now' : ℕ) (chain : Text)
    → Advances s (acquire s c owner ttl now now').0 chain
unfolding acquire
acquire-Advances s c owner ttl now now' chain = ground arith

renew-Advances :
    (s : MemoryStore) (c t : Text) (ttl now now' : ℕ) (chain : Text)
    → Advances s (renew s c t ttl now now').0 chain
unfolding renew
renew-Advances s c t ttl now now' chain = ground arith

release-Advances : (s : MemoryStore) (c t chain : Text) → Advances s (release s c t) chain
unfolding release
release-Advances s c t chain = ground arith

apply-Advances :
    (s : MemoryStore) (op : Op) (chain : Text)
    → epoch s chain + 1 < 2 ^ 64
    → IsEvmOn chain op
    → Advances s (apply op s) chain
unfolding apply
apply-Advances s (acquiring c owner ttl now now') chain b e =
    acquire-Advances s c owner ttl now now' chain
apply-Advances s (renewing c t ttl now now') chain b e = renew-Advances s c t ttl now now' chain
apply-Advances s (releasing c t) chain b e = release-Advances s c t chain
apply-Advances s (publishing t h now) chain b e = publish-Advances s t h now chain e
apply-Advances s (fencing c t now) chain b e = begin_reorg-Advances s c t now chain b

-- While the heads published for a chain are EVM heads and its epoch stays below 2 ^ 64, its reorg epoch
-- never decreases, and grows by at most one for each operation.
epoch-run_mono :
    (ops : List Op) (s : MemoryStore) (chain : Text)
    → epoch s chain + length ops < 2 ^ 64
    → All (IsEvmOn chain) ops
    → (epoch s chain ≤ epoch (run ops s) chain)
      × (epoch (run ops s) chain ≤ epoch s chain + length ops)
unfolding run
epoch-run_mono [] s chain b e = omega arith
epoch-run_mono (op ∷ ops) s chain b e =
    let step = apply-Advances s op chain (omega arith) e.0 in
    let rest = epoch-run_mono ops (apply op s) chain (omega (arith, step.slowly)) e.1 in
    omega (arith, step.grows, step.slowly, rest)

pending-epoch :
    (ops : List Op) (s : MemoryStore) (chain : Text)
    → epoch s chain + length ops < 2 ^ 64
    → All (IsEvmOn chain) ops
    → is_pending s chain ≡ false
    → is_pending (run ops s) chain ≡ true
    → epoch s chain < epoch (run ops s) chain
unfolding run
pending-epoch [] s chain b e free p = cc
pending-epoch (op ∷ ops) s chain b e free p =
    let step = apply-Advances s op chain (omega arith) e.0 in
    let b' : epoch (apply op s) chain + length ops < 2 ^ 64 = omega (arith, step.slowly) in
    elim (Bool-cases (is_pending (apply op s) chain)) [
      | inl fenced ↦
          omega (arith, step.fenced free fenced, epoch-run_mono ops (apply op s) chain b' e.1)
      | inr open_still ↦
          omega (arith, step.grows, pending-epoch ops (apply op s) chain b' e.1 open_still p)
    ]

length-prefix {ℓ} : {A : Type ℓ} (xs ys : List A) → length xs ≤ length (xs ++ ys)
length-prefix [] ys = omega arith
length-prefix (x ∷ xs) ys = omega (arith, length-prefix xs ys)

All-prefix {ℓ κ} :
    {A : Type ℓ} (P : A → Type κ) (xs ys : List A) → All P (xs ++ ys) → All P xs × All P ys
All-prefix P [] ys h = (tt, h)
All-prefix P (x ∷ xs) ys h = let (a, b) = All-prefix P xs ys h.1 in ((h.0, a), b)

-- If a chain was not fenced at first and its epoch is in the end what it was, then no reorg was
-- recorded at any moment between, however the store's operations were interleaved. The heads
-- published for the chain are EVM heads, and its epoch stays below 2 ^ 64.
pub no_reorg_between :
    (xs ys : List Op) (s : MemoryStore) (chain : Text)
    → epoch s chain + length (xs ++ ys) < 2 ^ 64
    → All (IsEvmOn chain) (xs ++ ys)
    → is_pending s chain ≡ false
    → epoch (run (xs ++ ys) s) chain ≡ epoch s chain
    → (is_pending (run xs s) chain ≡ false) × (epoch (run xs s) chain ≡ epoch s chain)
no_reorg_between xs ys s chain b e free same =
    let (ex, ey) = All-prefix (IsEvmOn chain) xs ys e in
    let bx : epoch s chain + length xs < 2 ^ 64 = omega (arith, length-prefix xs ys) in
    let first = epoch-run_mono xs s chain bx ex in
    let by : epoch (run xs s) chain + length ys < 2 ^ 64 =
      omega (arith, first, length-append xs ys) in
    let second = epoch-run_mono ys (run xs s) chain by ey in
    let joined : epoch (run ys (run xs s)) chain ≡ epoch s chain = rw run-append at same in
    elim (Bool-cases (is_pending (run xs s) chain)) [
      | inl fenced ↦
          absurd (omega (arith, pending-epoch xs s chain bx ex free fenced, second, joined))
      | inr quiet ↦ (quiet, omega (arith, first, second, joined))
    ]
