-- ===== src/Coordinator/Choice.antt =====
-- `consider` of internal/coordinator/coordinator.go: the head that is accepted after a candidate has
-- been considered.
use rpc_proxy.Prelude.{ℕ, Option, some, Text, Result}
use rpc_proxy.Head.{Head}
use rpc_proxy.Store.Defs.{MemoryStore}
use rpc_proxy.Chain.Defs.{World}
use rpc_proxy.Coordinator.Monad.{Env, CoordinatorError}
use rpc_proxy.Coordinator.Consider.{Session, Lease, choose_evm, start}
use rpc_proxy.Coordinator.Chosen.{Chosen}

module _ (w : World) (chain : Text) (depth : ℕ) (lease : Lease) (candidate : Head) where
  abbrev outcome : MemoryStore → ℕ → Head → Result CoordinatorError (Option Head) × Env Session
  outcome s tick old = choose_evm w chain depth lease candidate old (start s (some old) tick)
