-- ===== src/Store/Fencing.antt =====
-- `MemoryStore`: who may change a chain's accepted heads.
use rpc_proxy.Prelude.{
  ℕ, ◌+◌, ◌^◌, ◌≤◌, ◌<◌, ◌≡◌, ◌≢◌, ◌↔◌, ◌⊎◌, ap, true, false, List, [], ◌∷◌, arith, Text,
  text_eq_iff, text_eq_refl, u64, number_after, number_after-decimal, length, err, is_ok,
}
use rpc_proxy.Head.{Head}
use rpc_proxy.Store.Runs.{Op, acquiring, renewing, releasing, publishing, fencing, apply, run}
use rpc_proxy.Store.Defs.{
  MemoryStore, StoreError, leadership_lost, fence_token, acquire, renew, release, is_evm_latest,
  epoch_of, publish, begin_reorg, refresh, install,
}

-- The token holds the chain's unexpired lease.
abbrev pub Holds : MemoryStore → Text → Text → ℕ → Type 0
Holds s chain token now = ((s.leaders chain).token ≡ token) × (now ≤ (s.leaders chain).expires)

-- The publication acknowledges the chain's current reorg epoch.
abbrev pub Acknowledges : MemoryStore → Head → Type 0
Acknowledges s h =
    (is_evm_latest h ≡ false)
    ⊎ ((h.reorg_pending ≡ false) × (h.reorg_epoch ≡ epoch_of (s.heads h.chain h.commitment)))

-- `Publish` succeeds exactly when the token holds the chain's lease and the head acknowledges the
-- reorg epoch.
pub publish-ok_iff :
    (s : MemoryStore) (token : Text) (h : Head) (now : ℕ)
    → (is_ok (publish s token h now).0 ≡ true) ↔ (Holds s h.chain token now × Acknowledges s h)
unfolding publish
publish-ok_iff s token h now = ground (arith, text_eq_iff (s.leaders h.chain).token token)

-- A refused publication leaves the store as it was.
publish_refused :
    (s : MemoryStore) (token : Text) (h : Head) (now : ℕ) (e : StoreError)
    → (publish s token h now).0 ≡ err e
    → (publish s token h now).1 ≡ s
unfolding publish
publish_refused s token h now e r = ground arith

-- The token cannot be the chain's leader any more: another leads, and its number is spent.
pub record IsStale (s : MemoryStore) (chain token : Text) : Type 0 where
  pub displaced : (s.leaders chain).token ≢ token
  pub spent : number_after 0 token ≤ s.gen chain
  pub nonempty : token ≢ []

-- A new token's number is the chain's new generation.
pub number-fence_token :
    (owner : Text) (n : ℕ) → n < 2 ^ 64 → number_after 0 (fence_token owner n) ≡ n
unfolding fence_token
number-fence_token owner n h = number_after-decimal owner n h

fence_token-fresh :
    (owner token : Text) (n : ℕ)
    → n < 2 ^ 64
    → number_after 0 token < n
    → fence_token owner n ≢ token
fence_token-fresh owner token n b h e =
    absurd (omega (arith, number-fence_token owner n b, ap (number_after 0) e))

acquire-IsStale :
    (s : MemoryStore) (c owner : Text) (ttl now now' : ℕ) (chain token : Text)
    → s.gen chain + 1 < 2 ^ 64
    → IsStale s chain token
    → IsStale (acquire s c owner ttl now now').0 chain token
      × ((acquire s c owner ttl now now').0.gen chain ≤ s.gen chain + 1)
unfolding acquire
acquire-IsStale s c owner ttl now now' chain token b h =
    ground (arith, text_eq_iff chain c, fence_token-fresh owner token (u64 (s.gen c + 1)))

renew-IsStale :
    (s : MemoryStore) (c t : Text) (ttl now now' : ℕ) (chain token : Text)
    → IsStale s chain token
    → IsStale (renew s c t ttl now now').0 chain token
      × ((renew s c t ttl now now').0.gen chain ≤ s.gen chain + 1)
unfolding renew
renew-IsStale s c t ttl now now' chain token h = ground (arith, text_eq_iff chain c)

release-IsStale :
    (s : MemoryStore) (c t chain token : Text)
    → IsStale s chain token
    → IsStale (release s c t) chain token × ((release s c t).gen chain ≤ s.gen chain + 1)
unfolding release
release-IsStale s c t chain token h = ground (arith, text_eq_iff chain c)

publish-IsStale :
    (s : MemoryStore) (t : Text) (head : Head) (now : ℕ) (chain token : Text)
    → s.gen chain + 1 < 2 ^ 64
    → IsStale s chain token
    → IsStale (publish s t head now).1 chain token
      × ((publish s t head now).1.gen chain ≤ s.gen chain + 1)
unfolding publish refresh install
publish-IsStale s t head now chain token b h = ground (arith, text_eq_iff chain head.chain)

begin_reorg-IsStale :
    (s : MemoryStore) (c t : Text) (now : ℕ) (chain token : Text)
    → IsStale s chain token
    → IsStale (begin_reorg s c t now).1 chain token
      × ((begin_reorg s c t now).1.gen chain ≤ s.gen chain + 1)
unfolding begin_reorg
begin_reorg-IsStale s c t now chain token h = ground arith

apply-IsStale :
    (s : MemoryStore) (op : Op) (chain token : Text)
    → s.gen chain + 1 < 2 ^ 64
    → IsStale s chain token
    → IsStale (apply op s) chain token × ((apply op s).gen chain ≤ s.gen chain + 1)
unfolding apply
apply-IsStale s (acquiring c owner ttl now now') chain token b h =
    acquire-IsStale s c owner ttl now now' chain token b h
apply-IsStale s (renewing c t ttl now now') chain token b h =
    renew-IsStale s c t ttl now now' chain token h
apply-IsStale s (releasing c t) chain token b h = release-IsStale s c t chain token h
apply-IsStale s (publishing t head now) chain token b h =
    publish-IsStale s t head now chain token b h
apply-IsStale s (fencing c t now) chain token b h = begin_reorg-IsStale s c t now chain token h

run-IsStale :
    (ops : List Op) (s : MemoryStore) (chain token : Text)
    → s.gen chain + length ops < 2 ^ 64
    → IsStale s chain token
    → IsStale (run ops s) chain token
unfolding run
run-IsStale [] s chain token b h = h
run-IsStale (op ∷ ops) s chain token b h =
    let (kept, grown) = apply-IsStale s op chain token (omega arith) h in
    run-IsStale ops (apply op s) chain token (omega arith) kept

-- A takeover displaces every token issued before it.
acquired-IsStale :
    (s : MemoryStore) (chain owner token : Text) (ttl now now' : ℕ)
    → (acquire s chain owner ttl now now').2 ≡ true
    → s.gen chain + 1 < 2 ^ 64
    → number_after 0 token ≤ s.gen chain
    → token ≢ []
    → IsStale (acquire s chain owner ttl now now').0 chain token
      × ((acquire s chain owner ttl now now').0.gen chain ≡ s.gen chain + 1)
unfolding acquire
acquired-IsStale s chain owner token ttl now now' done b spent nonempty =
    ground (arith, text_eq_refl chain, fence_token-fresh owner token (u64 (s.gen chain + 1)))

stale_refused :
    (s : MemoryStore) (chain token : Text) (h : Head) (ttl now : ℕ)
    → h.chain ≡ chain
    → (s.leaders chain).token ≢ token
    → (publish s token h now ≡ (err leadership_lost, s))
      × (begin_reorg s chain token now ≡ (err leadership_lost, s))
      × (renew s chain token ttl now now ≡ (s, false))
      × (release s chain token ≡ s)
unfolding publish begin_reorg renew release
stale_refused s chain token h ttl now e ne =
    ground (arith, text_eq_iff (s.leaders chain).token token)

-- After a takeover, whatever the store does next, a token issued earlier can neither publish nor
-- fence nor renew nor release: each call is refused and changes nothing. Fewer than 2 ^ 64
-- generations are drawn, and the token's is one of those drawn before the takeover.
pub takeover_fences :
    (s : MemoryStore) (chain owner token : Text) (ttl now now' : ℕ) (ops : List Op) (h : Head)
    (later : ℕ)
    → number_after 0 token ≤ s.gen chain
    → token ≢ []
    → (acquire s chain owner ttl now now').2 ≡ true
    → s.gen chain + 1 + length ops < 2 ^ 64
    → h.chain ≡ chain
    → let t = run ops (acquire s chain owner ttl now now').0 in
      (publish t token h later ≡ (err leadership_lost, t))
      × (begin_reorg t chain token later ≡ (err leadership_lost, t))
      × (renew t chain token ttl later later ≡ (t, false))
      × (release t chain token ≡ t)
takeover_fences s chain owner token ttl now now' ops h later spent nonempty done b e =
    let (stale, generation) =
      acquired-IsStale s chain owner token ttl now now' done (omega arith) spent nonempty in
    let s' = (acquire s chain owner ttl now now').0 in
    stale_refused (run ops s') chain token h ttl later e
      (run-IsStale ops s' chain token (omega arith) stale).displaced
