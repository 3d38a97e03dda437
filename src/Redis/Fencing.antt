-- ===== src/Redis/Fencing.antt =====
-- internal/head/redis.go: who may change a chain's keys.
use rpc_proxy.Prelude.{
  ℕ, ◌+◌, ◌^◌, ◌≤◌, ◌<◌, ◌≡◌, refl, ap, false, Option, none, some, List, [], ◌∷◌, Text, text_eq,
  text_eq_iff, text_eq_refl, length, number_after, err, update_self, ◌∙◌, arith, Bool-cases, inl,
  inr,
}
use rpc_proxy.Head.{Head, latest}
use rpc_proxy.Store.Defs.{leadership_lost, fence_token, stamp_changed}
use rpc_proxy.Store.Fencing.{number-fence_token}
use rpc_proxy.Contract.{Call, acquiring, renewing, releasing, publishing, fencing}
use rpc_proxy.Redis.Defs.{
  RedisState, expire, is_leader, acquire_script, renew_script, release_script, publish,
  publish_script, store, same_head, begin_reorg_script, fence_current,
}
use rpc_proxy.Redis.Calls.{
  delivered, request_lost, reply_lost, perform, attempt, Happening, calling, ttl_ends, happen, run,
}

-- A token that the lease does not carry, and whose number has been drawn.
pub record IsStale (s : RedisState) (chain token : Text) : Type 0 where
  pub displaced : is_leader s chain token ≡ false
  pub spent : number_after 0 token ≤ s.fence chain

fence_token-fresh :
    (owner token : Text) (n : ℕ)
    → n < 2 ^ 64
    → number_after 0 token < n
    → text_eq (fence_token owner n) token ≡ false
fence_token-fresh owner token n b h = elim (Bool-cases (text_eq (fence_token owner n) token)) [
  | inr apart ↦ apart
  | inl same ↦
      let e = (text_eq_iff (fence_token owner n) token).0 same in
      absurd (omega (arith, number-fence_token owner n b, ap (number_after 0) e))
]

module _ (recode : Text → Text) (stream_max : ℕ) (chain : Text) where
  -- The keys of the lease are as they were.
  abbrev SameLease : RedisState → RedisState → Type 0
  SameLease s t = (t.leader ≡ s.leader) × (t.fence ≡ s.fence)

  store-SameLease :
      (s : RedisState) (o : Option Head) (h : Head) (id : Text)
      → SameLease s (store recode stream_max s o h id).1
  unfolding store
  store-SameLease s none h id = (refl, refl)
  store-SameLease s (some current) h id = elim (Bool-cases (same_head current h)) [
    | inl same ↦ rw same (refl, refl)
    | inr other ↦ rw other (refl, refl)
  ]

  publish-SameLease :
      (s : RedisState) (token : Text) (h : Head) (id : Text)
      → SameLease s (publish recode stream_max s token h id).1
  unfolding publish publish_script
  publish-SameLease s token h id =
      ground (arith, store-SameLease s (s.heads h.chain h.commitment) (stamp_changed h) id)

  fence_current-SameLease :
      (s : RedisState) (o : Option Head) → SameLease s (fence_current recode stream_max s chain o).1
  unfolding fence_current
  fence_current-SameLease s none = (refl, refl)
  fence_current-SameLease s (some current) = ground arith

  begin_reorg-SameLease :
      (s : RedisState) (token : Text)
      → SameLease s (begin_reorg_script recode stream_max s chain token).1
  unfolding begin_reorg_script
  begin_reorg-SameLease s token = ground (arith, fence_current-SameLease s (s.heads chain latest))

  SameLease-IsStale :
      (s t : RedisState) (token : Text)
      → SameLease s t
      → IsStale s chain token
      → IsStale t chain token × (t.fence chain ≤ s.fence chain + 1)
  unfolding is_leader
  SameLease-IsStale s t token (same, counted) h = (
    record { displaced = rw same h.displaced; spent = rw counted h.spent },
    rw counted (omega arith),
  )

  perform-IsStale :
      (c : Call) (id : Text) (s : RedisState) (token : Text)
      → s.fence chain + 1 < 2 ^ 64
      → IsStale s chain token
      → IsStale (perform recode stream_max chain c id s).1 chain token
        × ((perform recode stream_max chain c id s).1.fence chain ≤ s.fence chain + 1)
  unfolding perform
  perform-IsStale (acquiring owner) id s token b h =
      unfold acquire_script is_leader in
      ground (arith, fence_token-fresh owner token (s.fence chain + 1) b, text_eq_refl chain)
  perform-IsStale (renewing t) id s token b h = unfold renew_script in (h, omega arith)
  perform-IsStale (releasing t) id s token b h =
      unfold release_script expire is_leader in ground (arith, text_eq_refl chain)
  perform-IsStale (publishing t p) id s token b h =
      SameLease-IsStale s (publish recode stream_max s t p id).1 token (publish-SameLease s t p id)
        h
  perform-IsStale (fencing t) id s token b h =
      SameLease-IsStale s (begin_reorg_script recode stream_max s chain t).1 token
        (begin_reorg-SameLease s t) h

  happen-IsStale :
      (e : Happening) (s : RedisState) (token : Text)
      → s.fence chain + 1 < 2 ^ 64
      → IsStale s chain token
      → IsStale (happen recode stream_max chain e s) chain token
        × ((happen recode stream_max chain e s).fence chain ≤ s.fence chain + 1)
  unfolding happen attempt
  happen-IsStale ttl_ends s token b h =
      unfold expire is_leader in ground (arith, update_self s.leader chain none)
  happen-IsStale (calling request_lost c id) s token b h = (h, omega arith)
  happen-IsStale (calling delivered c id) s token b h = perform-IsStale c id s token b h
  happen-IsStale (calling reply_lost c id) s token b h = perform-IsStale c id s token b h

  run-IsStale :
      (events : List Happening) (s : RedisState) (token : Text)
      → s.fence chain + length events < 2 ^ 64
      → IsStale s chain token
      → IsStale (run recode stream_max chain events s) chain token
  unfolding run
  run-IsStale [] s token b h = h
  run-IsStale (e ∷ events) s token b h =
      let (kept, grown) = happen-IsStale e s token (omega arith) h in
      run-IsStale events (happen recode stream_max chain e s) token (omega arith) kept

  -- Once another coordinator holds the lease, whatever happens to the calls and the keys of the chain, a
  -- token drawn earlier can neither publish nor fence nor renew nor release: each script refuses it and
  -- changes nothing. Fewer than 2 ^ 64 tokens are drawn.
  pub takeover_refuses :
      (events : List Happening) (s : RedisState) (token other : Text) (h : Head) (id : Text)
      → s.leader chain ≡ some other
      → text_eq other token ≡ false
      → number_after 0 token ≤ s.fence chain
      → s.fence chain + length events < 2 ^ 64
      → h.chain ≡ chain
      → let t = run recode stream_max chain events s in
        (publish recode stream_max t token h id ≡ (err leadership_lost, t))
        × (begin_reorg_script recode stream_max t chain token ≡ (err leadership_lost, t))
        × (renew_script t chain token ≡ (false, t))
        × (release_script t chain token ≡ t)
  unfolding publish publish_script begin_reorg_script renew_script release_script
  takeover_refuses events s token other h id held apart spent b own =
      let start : IsStale s chain token = record {
        displaced = unfold is_leader in ground arith;
        spent = spent;
      } in
      let t = run recode stream_max chain events s in
      let lost = (run-IsStale events s token b start).displaced in
      let lost' : is_leader t h.chain token ≡ false = ap (λ c. is_leader t c token) own ∙ lost in
      (rw lost' refl, rw lost refl, rw lost refl, rw lost refl)
