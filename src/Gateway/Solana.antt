-- ===== src/Gateway/Solana.antt =====
-- `transformSolanaRequest` and `verifySolanaContext` of internal/gateway/transform.go: a Solana read is
-- pinned by the slot that its answer's context must have reached.
use rpc_proxy.Prelude.{
  ℕ, Bool, true, false, not, ◌||◌, Option, none, some, List, [], ◌∷◌, ◌++◌, ltb, leb, max, length,
  if◌then◌else◌, Text, codes, text_eq, Result, ok, err, ◌>>=◌, suc, zero,
}
use rpc_proxy.Head.{Head, Snapshot, processed, confirmed, finalized}
use rpc_proxy.Chain.Defs.{Field, absent, null, other, text}
use rpc_proxy.Gateway.Registry.{listed}
use rpc_proxy.Gateway.Requests.{
  RequestError, invalid_params, unsupported_consistency, get_snapshot_head,
}

-- A member of a configuration that is decoded as a number of 64 bits, or as a Boolean: it is absent,
-- `null` or something else, or a value.
pub data Slot : Type 0 where
  no_slot invalid_slot : Slot
  slot : ℕ → Slot

pub data Flag : Type 0 where
  no_flag invalid_flag : Flag
  flag : Bool → Flag

-- The members of a configuration object that the gateway reads, and the bytes of the others.
pub record SolanaConfig : Type 0 where
  pub commitment : Field
  pub min_context_slot : Slot
  pub with_context : Flag
  pub others : Text

abbrev pub empty_config : SolanaConfig
empty_config = record {
  commitment = absent;
  min_context_slot = no_slot;
  with_context = no_flag;
  others = [];
}

-- A caller's parameter: its bytes, and the configuration that it decodes to, where `null` is an empty
-- one; or a configuration that the gateway encodes.
pub data SolanaParam : Type 0 where
  received : Text → Option SolanaConfig → SolanaParam
  config : SolanaConfig → SolanaParam

pub record SolanaPrepared : Type 0 where
  pub method : Text
  pub parameters : List SolanaParam
  pub target : Option Head
  pub verify_context_slot : Bool
  pub unwrap_context : Bool

-- `getSolanaConfigIndex`.
unfoldable pub get_solana_config_index : Text → Option ℕ
get_solana_config_index method =
    if listed method (
      codes "getBlockHeight"
      ∷ codes "getEpochInfo"
      ∷ codes "getLatestBlockhash"
      ∷ codes "getSlot"
      ∷ codes "getSlotLeader"
      ∷ codes "getStakeMinimumDelegation"
      ∷ codes "getTransactionCount"
      ∷ [])
    then some 0
    else if listed method (
        codes "getAccountInfo"
        ∷ codes "getBalance"
        ∷ codes "getFeeForMessage"
        ∷ codes "getMultipleAccounts"
        ∷ codes "getProgramAccounts"
        ∷ codes "getSignaturesForAddress"
        ∷ codes "isBlockhashValid"
        ∷ codes "simulateTransaction"
        ∷ [])
    then some 1
    else if listed method
        (codes "getTokenAccountsByDelegate" ∷ codes "getTokenAccountsByOwner" ∷ [])
    then some 2
    else none

-- `hasSolanaContext`.
unfoldable pub has_solana_context : Text → Bool
has_solana_context method = not (
    listed method (
      codes "getBlockHeight"
      ∷ codes "getEpochInfo"
      ∷ codes "getSlot"
      ∷ codes "getSlotLeader"
      ∷ codes "getTransactionCount"
      ∷ codes "getSignaturesForAddress"
      ∷ []))

-- `isSolanaHeadNeutralMethod`.
unfoldable pub is_solana_head_neutral_method : Text → Bool
is_solana_head_neutral_method method = listed method (
    codes "getGenesisHash"
    ∷ codes "getVersion"
    ∷ codes "getBlock"
    ∷ codes "getBlockCommitment"
    ∷ codes "getBlockTime"
    ∷ codes "getHealth"
    ∷ codes "getEpochSchedule"
    ∷ [])

-- The commitment of a configuration.
unfoldable pub read_commitment : Field → Result RequestError Text
read_commitment absent = ok finalized
read_commitment null = err invalid_params
read_commitment other = err invalid_params
read_commitment (text s) =
    if text_eq s processed || text_eq s confirmed || text_eq s finalized
    then ok s
    else err invalid_params

-- The slot that the answer must have reached.
unfoldable pub read_minimum : ℕ → Slot → Result RequestError ℕ
read_minimum accepted no_slot = ok accepted
read_minimum accepted (slot n) = ok (max accepted n)
read_minimum accepted _ = err invalid_params

unfoldable pub read_with_context : Flag → Result RequestError Bool
read_with_context no_flag = ok false
read_with_context (flag b) = ok b
read_with_context _ = err invalid_params

abbrev pub is_program_accounts : Text → Bool
is_program_accounts method = text_eq method (codes "getProgramAccounts")

-- What the configuration of a request becomes, and whether the answer's context is removed.
unfoldable pub pin_context : Text → SolanaConfig → Result RequestError (SolanaConfig × Bool)
pin_context method c =
    if is_program_accounts method
    then elim (read_with_context c.with_context) [
      | err e ↦ err e
      | ok with_context ↦ ok (record c { with_context = flag true }, not with_context)
    ]
    else ok (c, false)

unfoldable pub decode_config : SolanaParam → Option SolanaConfig
decode_config (received bytes c) = c
decode_config (config c) = some c

unfoldable pub config_at : ℕ → List SolanaParam → Option SolanaParam
config_at i [] = none
config_at zero (p ∷ ps) = some p
config_at (suc i) (p ∷ ps) = config_at i ps

unfoldable pub set_config : ℕ → SolanaParam → List SolanaParam → List SolanaParam
set_config i q [] = []
set_config zero q (p ∷ ps) = q ∷ ps
set_config (suc i) q (p ∷ ps) = p ∷ set_config i q ps

-- The loop that appends `{}`, where the list has as many parameters as the index.
abbrev pub pad_config : ℕ → List SolanaParam → List SolanaParam
pad_config i ps = if leb (length ps) i then ps ++ config empty_config ∷ [] else ps

-- A configuration, read in the order of the source.
unfoldable pub pin_config :
    Snapshot → Text → SolanaConfig → Result RequestError (SolanaConfig × Head × Bool)
pin_config snapshot method c = do
  commitment ← read_commitment c.commitment
  accepted ← get_snapshot_head snapshot commitment
  minimum ← read_minimum accepted.number c.min_context_slot
  pinned ←
      pin_context method
        (record c { commitment = text commitment; min_context_slot = slot minimum })
  ok (pinned.0, record accepted { number = minimum }, pinned.1)

-- `transformSolanaRequest`; parameters that are no array decode to none.
unfoldable pub transform_solana_request :
    Snapshot → Text → Option (List SolanaParam) → Result RequestError SolanaPrepared
transform_solana_request snapshot method none = err invalid_params
transform_solana_request snapshot method (some ps) = elim (get_solana_config_index method) [
  | some index ↦
      if ltb (length ps) index
      then err invalid_params
      else elim (config_at index (pad_config index ps)) [
        | none ↦ err invalid_params
        | some p ↦ elim (decode_config p) [
          | none ↦ err invalid_params
          | some c ↦ elim (pin_config snapshot method c) [
            | err e ↦ err e
            | ok (pinned, target, unwrap) ↦ ok (record {
              method = method;
              parameters = set_config index (config pinned) (pad_config index ps);
              target = some target;
              verify_context_slot = has_solana_context method;
              unwrap_context = unwrap;
            })
          ]
        ]
      ]
  | none ↦
      if is_solana_head_neutral_method method
      then ok (record {
        method = method;
        parameters = ps;
        target = none;
        verify_context_slot = false;
        unwrap_context = false;
      })
      else err unsupported_consistency
]

-- The context of a response: no object with one, or its slot.
pub data Context : Type 0 where
  missing malformed : Context
  context : Slot → Context

-- `verifySolanaContext`: whether it reports no error.
unfoldable pub verify_solana_context : Context → ℕ → Bool
verify_solana_context (context (slot n)) minimum = not (ltb n minimum)
verify_solana_context _ minimum = false
