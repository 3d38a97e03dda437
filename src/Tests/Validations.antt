-- ===== src/Tests/Validations.antt =====
-- The validation's theorem at a concrete input: an upstream that can pin `eth_call` only.
use rpc_proxy.Prelude.{ℕ, false, Text, codes, text_eq, if◌then◌else◌, ok, Bool}
use rpc_proxy.Chain.Defs.{text, absent, result}
use rpc_proxy.Chain.Availability.{slot_failed}
use rpc_proxy.Gateway.Route.{CallError, server_unavailable}
use rpc_proxy.Validation.{
  Provider, Expected, Marks, ProbeReply, probe_failed, probe_error, probe_result, string_failed,
  string_result, probe_evm_state_methods,
}
use rpc_proxy.Tests.Fixtures.{raw, chain, hash_of}

abbrev expected : Expected
expected = record { chain = chain; chain_id = codes "0x2105"; genesis_hash = hash_of b'0'; now = 7 }

abbrev missing : CallError
missing = record { code = server_unavailable; text = codes "no such block" }

abbrev provider : Provider
provider = record {
  id = codes "one";
  chain_id = string_result (text (codes "0x2105"));
  first_block = result (raw (codes "0x0") b'0' b'f');
  latest_block = result (raw (codes "0x2") b'2' b'1');
  genesis_hash = string_failed;
  slot = slot_failed;
  account = probe_failed;
  positive =
      λ method. if text_eq method (codes "eth_call") then probe_result false else probe_failed;
  negative = λ method. probe_error missing;
}

abbrev unmarked : Marks
unmarked = record { eip1898 = false; pinned = λ method. false }

abbrev marked : Marks
marked = probe_evm_state_methods provider unmarked
