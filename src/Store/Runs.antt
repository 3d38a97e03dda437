-- ===== src/Store/Runs.antt =====
-- Sequences of the fenced operations of `MemoryStore`, in the order in which its lock admits them.
use rpc_proxy.Prelude.{ℕ, ◌≡◌, List, [], ◌∷◌, ◌++◌, refl, Text}
use rpc_proxy.Head.{Head}
use rpc_proxy.Store.Defs.{MemoryStore, acquire, renew, release, publish, begin_reorg}

pub data Op : Type 0 where
  acquiring : Text → Text → ℕ → ℕ → ℕ → Op
  renewing : Text → Text → ℕ → ℕ → ℕ → Op
  releasing : Text → Text → Op
  publishing : Text → Head → ℕ → Op
  fencing : Text → Text → ℕ → Op

unfoldable pub apply : Op → MemoryStore → MemoryStore
apply (acquiring chain owner ttl now now') s = (acquire s chain owner ttl now now').0
apply (renewing chain token ttl now now') s = (renew s chain token ttl now now').0
apply (releasing chain token) s = release s chain token
apply (publishing token h now) s = (publish s token h now).1
apply (fencing chain token now) s = (begin_reorg s chain token now).1

unfoldable pub run : List Op → MemoryStore → MemoryStore
run [] s = s
run (op ∷ ops) s = run ops (apply op s)

pub run-append : (xs ys : List Op) (s : MemoryStore) → run (xs ++ ys) s ≡ run ys (run xs s)
unfolding run
run-append [] ys s = refl
run-append (op ∷ xs) ys s = run-append xs ys (apply op s)
