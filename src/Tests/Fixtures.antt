-- ===== src/Tests/Fixtures.antt =====
-- The blocks, the upstreams and the stores of the tests.
use rpc_proxy.Prelude.{
  ℕ, true, none, some, [], ◌∷◌, replicate, if◌then◌else◌, Text, codes, text_eq, update,
}
use rpc_proxy.Head.{Head, zero_head, latest, evm}
use rpc_proxy.Store.Defs.{MemoryStore, new_store}
use rpc_proxy.Chain.Defs.{RawBlock, nothing, object, text, result, Upstream, World}

abbrev pub chain : Text
chain = codes "base"

-- A hash of one hexadecimal digit, 64 times.
abbrev pub hash_of : ℕ → Text
hash_of d = b'0' ∷ b'x' ∷ replicate 64 d

abbrev pub block : ℕ → ℕ → ℕ → Head
block number hash parent = record zero_head {
  chain = chain;
  family = evm;
  commitment = latest;
  number = number;
  hash = hash_of hash;
  parent_hash = hash_of parent;
  observed_at = 7;
  origin = codes "one";
}

-- The first block, the accepted head on it, another block on the first one, and one above that.
abbrev pub first : Head
first = block 1 b'1' b'0'

abbrev pub accepted : Head
accepted = block 2 b'2' b'1'

abbrev pub fork : Head
fork = block 2 b'3' b'1'

abbrev pub above_fork : Head
above_fork = block 3 b'4' b'3'

abbrev pub raw : Text → ℕ → ℕ → RawBlock
raw quantity hash parent =
    object (text quantity) (text (hash_of hash)) (text (hash_of parent)) (codes "{}")

abbrev pub upstream : Upstream
upstream = record { id = codes "one"; valid = true; healthy = true; eip1898 = true; score = 1 }

-- An upstream that has every block, and the fork at height 2.
abbrev pub world : World
world = record {
  now = λ tick. 7;
  upstreams = λ tick. upstream ∷ [];
  by_hash = λ tick id hash. result (
      if text_eq hash (hash_of b'1')
      then raw (codes "0x1") b'1' b'0'
      else if text_eq hash (hash_of b'2')
      then raw (codes "0x2") b'2' b'1'
      else if text_eq hash (hash_of b'3')
      then raw (codes "0x2") b'3' b'1'
      else nothing);
  by_number = λ tick id number. result (raw (codes "0x2") b'3' b'1');
}

-- A store whose accepted head is `accepted`, under the lease of `token`.
abbrev pub token : Text
token = codes "me:1"

abbrev pub store : MemoryStore
store = record new_store {
  heads = update new_store.heads chain (update (λ k. none) latest (some accepted));
  leaders = update new_store.leaders chain (record { token = token; expires = 100 });
  gen = update new_store.gen chain 1;
}
