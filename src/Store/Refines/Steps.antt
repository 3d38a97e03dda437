-- ===== src/Store/Refines/Steps.antt =====
-- internal/head/types.go: what a method of the in-memory store shows through the contract.
use rpc_proxy.Prelude.{
  ℕ, ◌+◌, ◌^◌, ◌≤◌, ◌<◌, ◌≡◌, ◌≢◌, refl, sym, ap, ◌∙◌, true, false, not, ◌&&◌, ◌||◌, Option, none,
  some, [], ◌∷◌, ltb, leb, if◌then◌else◌, Text, text_eq, text_eq_iff, is_empty, ok, u64, update,
  update_self, arith, Bool-cases, inl, inr,
}
use rpc_proxy.Head.{Head, latest, evm, identity, is_zero}
use rpc_proxy.Store.Defs.{
  MemoryStore, Leader, no_leader, fence_token, acquire, renew, release, publish, begin_reorg,
  fence_head, install, refresh, same_identity, epoch_of,
}
use rpc_proxy.Contract.{
  Board, erase, erase_option, erased-put, Call, acquiring, renewing, releasing, publishing, fencing,
  Reply, granted, refused, renewed, released, answered, erase_reply, promise, fence_board, holds,
  promise-busy,
}

-- The holder of an unexpired lease.
abbrev pub held : Leader → ℕ → Option Text
held leader now =
    if not (is_empty leader.token) && leb now leader.expires then some leader.token else none

-- What the store shows of a chain at a time.
unfoldable pub view_at : MemoryStore → Text → ℕ → Board
view_at s chain now = record {
  holder = held (s.leaders chain) now;
  heads = λ commitment. erase_option (s.heads chain commitment);
}

-- The methods that change a chain, at the times at which they read the clock.
unfoldable pub perform : Text → ℕ → ℕ → ℕ → Call → MemoryStore → Reply × MemoryStore
perform chain ttl now now' (acquiring owner) s =
    let (t, token, done) = acquire s chain owner ttl now now' in
    (if done then granted token else refused, t)
perform chain ttl now now' (renewing token) s =
    let (t, done) = renew s chain token ttl now now' in (if done then renewed else refused, t)
perform chain ttl now now' (releasing token) s = (released, release s chain token)
perform chain ttl now now' (publishing token h) s =
    let (r, t) = publish s token h now in (answered r, t)
perform chain ttl now now' (fencing token) s =
    let (r, t) = begin_reorg s chain token now in (answered r, t)

-- The tokens of calls are not empty, and heads are published for the chain.
abbrev pub IsFor : Text → Call → Type 0
IsFor chain (acquiring owner) = Unit {0}
IsFor chain (renewing token) = is_empty token ≡ false
IsFor chain (releasing token) = is_empty token ≡ false
IsFor chain (publishing token h) = (is_empty token ≡ false) × (h.chain ≡ chain)
IsFor chain (fencing token) = is_empty token ≡ false

-- The epoch of the chain's `latest` head can still be advanced.
abbrev pub Advances : Option Head → Type 0
Advances none = Unit {0}
Advances (some h) = h.reorg_epoch + 1 < 2 ^ 64

pub fence_token-ne-empty : (owner : Text) (n : ℕ) → is_empty (fence_token owner n) ≡ false
unfolding fence_token
fence_token-ne-empty [] n = refl
fence_token-ne-empty (c ∷ owner) n = refl

-- The token that an acquisition draws.
abbrev pub fresh_token : MemoryStore → Text → Call → Text
fresh_token s chain (acquiring owner) = fence_token owner (u64 (s.gen chain + 1))
fresh_token s chain _ = []

pub epoch-erase : (o : Option Head) → epoch_of (erase_option o) ≡ epoch_of o
epoch-erase none = refl
epoch-erase (some h) = refl

module _ (chain : Text) (ttl now now' : ℕ) where
  pub view-put :
      (s t : MemoryStore) (commitment : Text) (h : Head)
      → t.leaders ≡ s.leaders
      → t.heads ≡ update s.heads chain (update (s.heads chain) commitment (some h))
      → view_at t chain now ≡ record (view_at s chain now) {
        heads = update (view_at s chain now).heads commitment (some (erase h));
      }
  unfolding view_at
  view-put s t commitment h same put = λ i. record {
    holder = held (same i chain) now;
    heads = erased-put s.heads t.heads chain commitment h put i;
  }

  pub view-lead :
      (s t : MemoryStore) (l : Leader) (o : Option Text)
      → t.leaders ≡ update s.leaders chain l
      → t.heads ≡ s.heads
      → held l now ≡ o
      → view_at t chain now ≡ record (view_at s chain now) { holder = o }
  unfolding view_at
  view-lead s t l o led same is =
      let read : t.leaders chain ≡ l =
        ap {B = Leader} (λ f. f chain) led ∙ update_self s.leaders chain l in
      let shown : held (t.leaders chain) now ≡ o = ap (λ l. held l now) read ∙ is in
      λ i. record { holder = shown i; heads = λ c. erase_option (same i chain c) }

  -- The tests of the lease, as the view shows it.
  pub holds-view :
      (s : MemoryStore) (token : Text)
      → is_empty token ≡ false
      → holds (view_at s chain now).holder token
        ≡ (text_eq (s.leaders chain).token token && not (ltb (s.leaders chain).expires now))
  unfolding view_at
  holds-view s token e = ground (arith, text_eq_iff (s.leaders chain).token token)

  pub acquire_refines :
      (owner : Text) (s : MemoryStore)
      → now ≤ now'
      → now ≢ (s.leaders chain).expires
      → (
        erase_reply (perform chain ttl now now' (acquiring owner) s).0,
        view_at (perform chain ttl now now' (acquiring owner) s).1 chain now,
      )
        ≡ promise
            (acquiring owner)
            (fence_token owner (u64 (s.gen chain + 1)))
            (view_at s chain now)
  unfolding perform promise acquire
  acquire_refines owner s order edge =
      let l = s.leaders chain in
      let fence = u64 (s.gen chain + 1) in
      let token = fence_token owner fence in
      elim (Bool-cases (not (is_empty l.token) && ltb now l.expires)) [
        | inl busy ↦
            let kept : (view_at s chain now).holder ≡ some l.token =
              unfold view_at in ground arith in
            rw (busy, acquire) (sym (promise-busy owner token l.token (view_at s chain now) kept))
        | inr free ↦
            let open' : (view_at s chain now).holder ≡ none = unfold view_at in ground arith in
            let l' : Leader = record { token = token; expires = now' + ttl } in
            let t = record s {
              gen = update s.gen chain fence;
              leaders = update s.leaders chain l';
            } in
            let led : held l' now ≡ some token = ground (arith, fence_token-ne-empty owner fence) in
            rw (free, acquire, open', promise)
              (λ i. (granted token, view-lead s t l' (some token) refl refl led i))
      ]

  pub renew_refines :
      (token : Text) (s : MemoryStore)
      → now ≤ now'
      → is_empty token ≡ false
      → (
        erase_reply (perform chain ttl now now' (renewing token) s).0,
        view_at (perform chain ttl now now' (renewing token) s).1 chain now,
      )
        ≡ promise (renewing token) [] (view_at s chain now)
  unfolding perform promise renew
  renew_refines token s order e =
      let l = s.leaders chain in
      let same = holds-view s token e in
      elim (Bool-cases (text_eq l.token token && not (ltb l.expires now))) [
        | inr other ↦
            let gone : (not (text_eq l.token token) || ltb l.expires now) ≡ true = ground arith in
            rw (gone, renew, same, other) refl
        | inl mine ↦
            let ours : (not (text_eq l.token token) || ltb l.expires now) ≡ false = ground arith in
            let l' : Leader = record l { expires = now' + ttl } in
            let t = record s { leaders = update s.leaders chain l' } in
            let led : held l' now ≡ (view_at s chain now).holder =
              unfold view_at in ground (arith, text_eq_iff l.token token) in
            rw (ours, renew, same, mine)
              (λ i. (renewed, view-lead s t l' (view_at s chain now).holder refl refl led i))
      ]

  pub release_refines :
      (token : Text) (s : MemoryStore)
      → is_empty token ≡ false
      → (
        erase_reply (perform chain ttl now now' (releasing token) s).0,
        view_at (perform chain ttl now now' (releasing token) s).1 chain now,
      )
        ≡ promise (releasing token) [] (view_at s chain now)
  unfolding perform promise release
  release_refines token s e =
      let l = s.leaders chain in
      let same = holds-view s token e in
      elim (Bool-cases (text_eq l.token token)) [
        | inr other ↦ rw (other, release, same, other) refl
        | inl ours ↦
            let t = record s { leaders = update s.leaders chain no_leader } in
            let none' : held no_leader now ≡ none = refl in
            elim (Bool-cases (ltb l.expires now)) [
              | inl late ↦
                  let gone : holds (view_at s chain now).holder token ≡ false =
                    same ∙ (ground arith) in
                  let unheld : held no_leader now ≡ (view_at s chain now).holder =
                    unfold view_at in ground arith in
                  rw (ours, release, gone)
                    (λ i. (
                      released,
                      view-lead s t no_leader (view_at s chain now).holder refl refl unheld i,
                    ))
              | inr mine ↦
                  let kept : holds (view_at s chain now).holder token ≡ true =
                    same ∙ (ground arith) in
                  rw (ours, release, kept)
                    (λ i. (released, view-lead s t no_leader none refl refl none' i))
            ]
      ]

  pub store-view :
      (s : MemoryStore) (o : Option Head) (h : Head)
      → let r = if same_identity o h then refresh s o h else install s h in
        (erase r.0 ≡ erase h)
        × (r.1.leaders ≡ s.leaders)
        × (r.1.heads ≡ update s.heads h.chain (update (s.heads h.chain) h.commitment (some r.0)))
  unfolding same_identity refresh install
  store-view s none h = (refl, refl, refl)
  store-view s (some previous) h = elim (Bool-cases (text_eq (identity previous) (identity h))) [
    | inl same ↦ rw same (refl, refl, refl)
    | inr other ↦ rw other (refl, refl, refl)
  ]

  pub fence-view :
      (s : MemoryStore) (o : Option Head)
      → Advances o
      → (
        erase_reply (answered (fence_head s chain o).0),
        view_at (fence_head s chain o).1 chain now,
      )
        ≡ fence_board (view_at s chain now) (erase_option o)
  unfolding fence_head fence_board
  fence-view s none a = refl
  fence-view s (some current) a =
      elim (Bool-cases (not (text_eq current.family evm) || is_zero current)) [
        | inl unfit ↦
            let unfit' : (not (text_eq current.family evm) || is_zero (erase current)) ≡ true =
              unfold is_zero in unfit in
            rw (unfit, unfit') refl
        | inr fit ↦
            let fit' : (not (text_eq current.family evm) || is_zero (erase current)) ≡ false =
              unfold is_zero in fit in
            elim (Bool-cases current.reorg_pending) [
              | inl pending ↦ rw (fit, fit', pending) refl
              | inr quiet ↦
                  let fenced = record current {
                    reorg_epoch = u64 (current.reorg_epoch + 1);
                    reorg_pending = true;
                  } in
                  let t = record s {
                    heads = update s.heads chain (update (s.heads chain) latest (some fenced));
                  } in
                  let next : u64 (current.reorg_epoch + 1) ≡ current.reorg_epoch + 1 =
                    omega arith in
                  let fenced' : erase fenced ≡ record (erase current) {
                    reorg_epoch = current.reorg_epoch + 1;
                    reorg_pending = true;
                  } =
                    λ i. record (erase current) { reorg_epoch = next i; reorg_pending = true } in
                  let put =
                    view-put s t latest fenced refl refl
                    ∙ ap
                        (λ x. record (view_at s chain now) {
                          heads = update (view_at s chain now).heads latest (some x);
                        })
                        fenced' in
                  rw (fit, fit', quiet) (λ i. (answered (ok (fenced' i)), put i))
            ]
      ]

  pub fence_refines :
      (token : Text) (s : MemoryStore)
      → is_empty token ≡ false
      → now ≢ (s.leaders chain).expires
      → Advances (s.heads chain latest)
      → (
        erase_reply (perform chain ttl now now' (fencing token) s).0,
        view_at (perform chain ttl now now' (fencing token) s).1 chain now,
      )
        ≡ promise (fencing token) [] (view_at s chain now)
  unfolding perform promise begin_reorg view_at
  fence_refines token s e edge a =
      let l = s.leaders chain in
      let same = holds-view s token e in
      elim (Bool-cases (text_eq l.token token && not (ltb l.expires now))) [
        | inr other ↦
            let gone : (not (text_eq l.token token) || not (ltb now l.expires)) ≡ true =
              ground arith in
            rw (gone, begin_reorg, same ∙ other) refl
        | inl mine ↦
            let ours : (not (text_eq l.token token) || not (ltb now l.expires)) ≡ false =
              ground arith in
            rw (ours, begin_reorg, same ∙ mine) (fence-view s (s.heads chain latest) a)
      ]
