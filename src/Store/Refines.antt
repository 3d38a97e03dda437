-- ===== src/Store/Refines.antt =====
-- `MemoryStore` keeps the promises of the interface `Store`.
mod Steps
unfoldable pub use Steps.*
use rpc_proxy.Prelude.{
  ℕ, ◌+◌, ◌^◌, ◌≤◌, ◌<◌, ◌≡◌, ◌⊎◌, sym, not, ◌&&◌, Option, none, ◌∷◌, leb, Text, text_eq_iff,
  is_empty, u64, update_self, arith, Bool-cases, inl, inr,
}
use rpc_proxy.Head.{Head, evm, identity, is_zero}
use rpc_proxy.Store.Defs.{
  MemoryStore, Leader, no_leader, fence_token, acquire, renew, release, begin_reorg, fence_head,
}
use rpc_proxy.Contract.{
  Board, erase, erase_option, erased-put, Reply, granted, refused, renewed, released, expire,
  fence_board, holds, promise-busy,
}

module _ (ttl now now' : ℕ) where
  held-later : (l : Leader) → now ≤ now' → (held l now' ≡ held l now) ⊎ (held l now' ≡ none)
  held-later l order = elim (Bool-cases (not (is_empty l.token) && leb now' l.expires)) [
    | inl still ↦ inl (ground arith)
    | inr ended ↦ inr (ground arith)
  ]

  -- Time alone changes nothing but that a lease ends.
  pub view_at-later :
      (chain : Text) (s : MemoryStore)
      → now ≤ now'
      → (view_at s chain now' ≡ view_at s chain now)
        ⊎ (view_at s chain now' ≡ expire (view_at s chain now))
  unfolding view_at expire
  view_at-later chain s order = elim (held-later (s.leaders chain) order) [
    | inl same ↦ inl (λ i. record { holder = same i; heads = λ c. erase_option (s.heads chain c) })
    | inr gone ↦ inr (λ i. record { holder = gone i; heads = λ c. erase_option (s.heads chain c) })
  ]
