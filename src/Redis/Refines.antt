-- ===== src/Redis/Refines.antt =====
-- internal/head/redis.go: the Redis store keeps the promises of the interface `Store`.
use rpc_proxy.Prelude.{ℕ, ◌+◌, ◌≡◌, false, List, [], ◌∷◌, Text}
use rpc_proxy.Head.{Head, is_zero}
use rpc_proxy.Store.Defs.{fence_token}
use rpc_proxy.Contract.{
  Board, erase_option, Call, acquiring, publishing, Reply, refused, renewed, erase_reply, Step,
  takes, lapses,
}
use rpc_proxy.Contract
use rpc_proxy.Redis.Defs.{RedisState}
use rpc_proxy.Redis.Calls.{
  delivered, request_lost, reply_lost, perform, Happening, calling, ttl_ends, happen,
}

-- What the keys of a chain show.
unfoldable pub view : RedisState → Text → Board
view s chain = record {
  holder = s.leader chain;
  heads = λ commitment. erase_option (s.heads chain commitment);
}

-- The token that an acquisition draws.
abbrev pub fresh_token : RedisState → Text → Call → Text
fresh_token s chain (acquiring owner) = fence_token owner (s.fence chain + 1)
fresh_token s chain _ = []

-- A call publishes heads of its own chain only, and none that is the zero value.
abbrev pub IsFor : Text → Call → Type 0
IsFor chain (publishing token h) = (h.chain ≡ chain) × (is_zero h ≡ false)
IsFor chain _ = Unit {0}

module _ (recode : Text → Text) (stream_max : ℕ) (chain : Text) where
  abbrev pub performed : Call → Text → RedisState → Reply × Board
  performed c id s =
      let done = perform recode stream_max chain c id s in (erase_reply done.0, view done.1 chain)

  -- The steps that a history amounts to: a lost request is none, and a lost reply is one.
  pub plan : List Happening → RedisState → List Step
  plan [] s = []
  plan (ttl_ends ∷ events) s = lapses ∷ plan events (happen recode stream_max chain ttl_ends s)
  plan (calling request_lost c id ∷ events) s = plan events s
  plan (calling delivered c id ∷ events) s =
      takes c (fresh_token s chain c)
      ∷ plan events (happen recode stream_max chain (calling delivered c id) s)
  plan (calling reply_lost c id ∷ events) s =
      takes c (fresh_token s chain c)
      ∷ plan events (happen recode stream_max chain (calling reply_lost c id) s)

  abbrev pub IsForChain : Happening → Type 0
  IsForChain (calling d c id) = IsFor chain c
  IsForChain ttl_ends = Unit {0}
