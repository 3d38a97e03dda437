-- ===== src/Redis/Calls.antt =====
-- internal/head/redis.go: the methods that change a chain, with what the connection to the server
-- does to a call.
use rpc_proxy.Prelude.{ℕ, Option, none, some, List, [], ◌∷◌, if◌then◌else◌, Text}
use rpc_proxy.Contract.{
  Call, acquiring, renewing, releasing, publishing, fencing, Reply, granted, refused, renewed,
  released, answered,
}
use rpc_proxy.Redis.Defs.{
  RedisState, expire, acquire_script, renew_script, release_script, publish, begin_reorg_script,
}

-- A call may be lost on its way, and so may its reply.
pub data Delivery : Type 0 where
  delivered request_lost reply_lost : Delivery

-- What happens to a chain's keys.
pub data Happening : Type 0 where
  calling : Delivery → Call → (id : Text) → Happening
  ttl_ends : Happening

module _ (recode : Text → Text) (stream_max : ℕ) (chain : Text) where
  -- What the script of a call answers and does.
  unfoldable pub perform : Call → Text → RedisState → Reply × RedisState
  perform (acquiring owner) id s =
      let done = acquire_script s chain owner in
      (elim (done.0) [ none ↦ refused | some token ↦ granted token ], done.1)
  perform (renewing token) id s =
      let done = renew_script s chain token in (if done.0 then renewed else refused, done.1)
  perform (releasing token) id s = (released, release_script s chain token)
  perform (publishing token h) id s =
      let done = publish recode stream_max s token h id in (answered done.0, done.1)
  perform (fencing token) id s =
      let done = begin_reorg_script recode stream_max s chain token in (answered done.0, done.1)

  -- The method: `none` is an error of the connection.
  unfoldable pub attempt : Delivery → Call → Text → RedisState → Option Reply × RedisState
  attempt delivered c id s = let done = perform c id s in (some done.0, done.1)
  attempt request_lost c id s = (none, s)
  attempt reply_lost c id s = (none, (perform c id s).1)

  unfoldable pub happen : Happening → RedisState → RedisState
  happen (calling d c id) s = (attempt d c id s).1
  happen ttl_ends s = expire s chain

  unfoldable pub run : List Happening → RedisState → RedisState
  run [] s = s
  run (e ∷ events) s = run events (happen e s)
