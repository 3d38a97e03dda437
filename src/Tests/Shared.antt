-- ===== src/Tests/Shared.antt =====
-- The stores' refinements at concrete inputs: a chain whose lease passes from one coordinator to another.
use rpc_proxy.Prelude.{
  ℕ, ◌∷◌, ◌++◌, [], ◌≡◌, List, Text, some, false, codes, text_eq, update, number_after, refl, err,
  arith,
}
use rpc_proxy.Head.{Head, latest}
use rpc_proxy.Contract.{publishing, acquiring, fencing}
use rpc_proxy.Store.Defs.{Event, leadership_lost}
use rpc_proxy.Redis.Defs.{
  RedisState, empty_state, publish, begin_reorg_script, renew_script, release_script,
}
use rpc_proxy.Redis.Calls.{Happening, calling, ttl_ends, delivered, request_lost, reply_lost, run}
use rpc_proxy.Redis.Fencing.{takeover_refuses}
use rpc_proxy.Redis.Reads.{timed_out, read_events}
use rpc_proxy.Redis.Resume.{read_events_no_gap}
use rpc_proxy.Tests.Fixtures.{chain, block, fork, token}

abbrev next_block : Head
next_block = block 3 b'5' b'2'

-- A header's JSON comes out of the scripts as it went in.
abbrev unchanged : Text → Text
unchanged header = header

abbrev calm : RedisState
calm = record empty_state {
  leader = update empty_state.leader chain (some token);
  fence = update empty_state.fence chain 1;
}

-- A publication whose reply is lost, the end of the lease, and its acquisition by another.
abbrev takeover : List Happening
takeover =
    calling reply_lost (publishing token next_block) (codes "1-0")
    ∷ ttl_ends
    ∷ calling request_lost (fencing token) []
    ∷ calling delivered (acquiring (codes "you")) []
    ∷ []

-- Another coordinator holds the lease, publishes, and lets it end; a third one takes it over.
abbrev seized : RedisState
seized = record calm {
  leader = update calm.leader chain (some (codes "you:2"));
  fence = update calm.fence chain 2;
}

abbrev later : List Happening
later =
    calling delivered (publishing (codes "you:2") next_block) (codes "1-0")
    ∷ ttl_ends
    ∷ calling reply_lost (acquiring (codes "they")) []
    ∷ []

abbrev passed : RedisState
passed = run unchanged 4 chain later seized

takeover_refuses_example :
    (publish unchanged 4 passed token fork (codes "2-0") ≡ (err leadership_lost, passed))
    × (begin_reorg_script unchanged 4 passed chain token ≡ (err leadership_lost, passed))
    × (renew_script passed chain token ≡ (false, passed))
    × (release_script passed chain token ≡ passed)
unfolding text_eq number_after
takeover_refuses_example =
    takeover_refuses unchanged 4 chain later seized token (codes "you:2") fork (codes "2-0") refl
      refl (omega arith) (omega arith) refl

-- The server compares these IDs by their first digit.
abbrev rank : Text → ℕ
rank [] = 0
rank (d ∷ id) = d

abbrev event : ℕ → Event
event n = record { id = n ∷ codes "-0"; head = next_block }

-- Of four events the first is trimmed before the read and the second by its end.
abbrev history : List Event
history = event b'1' ∷ event b'2' ∷ event b'3' ∷ event b'4' ∷ []

read_events_no_gap_example :
    (before : List Event) × (e : Event) × (rest : List Event) × (history
      ≡ before ++ e ∷ (event b'3' ∷ rest))
    × (e.id ≡ codes "2-0")
unfolding text_eq read_events rpc_proxy.Redis.Reads.check rpc_proxy.Redis.Reads.is_retained
    rpc_proxy.Redis.Reads.xread rpc_proxy.Redis.Reads.newer
read_events_no_gap_example =
    read_events_no_gap rank history (codes "2-0") 1 (event b'1' ∷ event b'2' ∷ [])
      ((event b'2' ∷ event b'3' ∷ []) ∷ []) timed_out (event b'1' ∷ [])
      (event b'2' ∷ event b'3' ∷ event b'4' ∷ []) [] (event b'3' ∷ []) (ground arith) refl
      (
        ([], event b'3' ∷ event b'4' ∷ [], refl, omega arith),
        ((event b'1' ∷ [], event b'4' ∷ [], refl, omega arith), tt),
      )
      refl refl
