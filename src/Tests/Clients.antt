-- ===== src/Tests/Clients.antt =====
-- A client whose upstream answers with a result, and one that fails six times after a success.
use rpc_proxy.Prelude.{
  ℕ, ◌+◌, ◌≡◌, refl, Bool, true, false, not, some, none, List, [], ◌∷◌, Text, codes, is_empty, u64,
  decimal, ok, ltb,
}
use rpc_proxy.Upstream.Defs.{
  HealthState, initial_health, healthy, Message, Reply, replied, RpcResponse, Client, Occasion,
  call, default_parameters,
}
use rpc_proxy.Upstream.Circuit.{
  Recorded, succeeded, failed, health_after, blocked_until, healthy-blocked_until,
}
use rpc_proxy.Upstream.Calls.{Answers, accounted, call-accounted, call-Answers}

abbrev history : List Recorded
history = failed 6 ∷ failed 5 ∷ failed 4 ∷ failed 3 ∷ failed 2 ∷ failed 1 ∷ succeeded 7 ∷ []

healthy-blocked_until_example :
    healthy (health_after history) 10000000005 ≡ ltb (blocked_until history) 10000000005
healthy-blocked_until_example = healthy-blocked_until history 10000000005

abbrev is_json : Text → Bool
is_json text = not (is_empty text)

abbrev message : ℕ → Message
message id = record { version = codes "2.0"; id = decimal id; result = codes "1"; error = none }

abbrev server : ℕ → Text → Text → Reply
server id method parameters = replied 200 (some 40) (some (message id))

abbrev occasion : Occasion
occasion = record { now = 5; admitted = true; valid_endpoint = true; started = 6; ended = 9 }

abbrev client : Client
client = record { request_id = 4; health = initial_health }

abbrev answer : RpcResponse
answer = record { result = codes "1"; error = none }

call-accounted_example :
    (call is_json server occasion (codes "eth_chainId") [] client).1.health
    ≡ accounted occasion initial_health
        (call is_json server occasion (codes "eth_chainId") [] client).0
call-accounted_example = call-accounted is_json server occasion (codes "eth_chainId") [] client

answered : (call is_json server occasion (codes "eth_chainId") [] client).0 ≡ ok answer
unfolding rpc_proxy.Upstream.Defs.healthy rpc_proxy.Upstream.Defs.record_success
    rpc_proxy.Upstream.Defs.record_failure rpc_proxy.Upstream.Defs.is_misshapen
    rpc_proxy.Upstream.Defs.check_message rpc_proxy.Upstream.Defs.check_reply
    rpc_proxy.Upstream.Defs.settle rpc_proxy.Upstream.Defs.default_parameters
    rpc_proxy.Upstream.Defs.call rpc_proxy.Prelude.text_eq rpc_proxy.Prelude.lower
    rpc_proxy.Prelude.equal_fold rpc_proxy.Prelude.decimal_digits rpc_proxy.Prelude.decimal
    rpc_proxy.Prelude.number_after
answered = refl

call-Answers_example :
    (healthy initial_health 5 ≡ true)
    × Answers 5 (server 5 (codes "eth_chainId") (default_parameters [])) answer
call-Answers_example =
    call-Answers is_json server occasion (codes "eth_chainId") [] client answer answered
