-- ===== src/Chain/Defs.antt =====
-- internal/chain/runtime.go. What the upstreams answer, which of them are valid and healthy, and
-- the clock are the `World`, asked at a tick that every call advances: two calls may be answered
-- differently, and an answer may be an error (a refused call, a deadline, an open circuit).
use rpc_proxy.Prelude.{
  ℕ, ◌+◌, Bool, false, not, ◌&&◌, ◌||◌, Option, none, some, List, [], ◌∷◌, ltb, if◌then◌else◌, Text,
  text_eq, equal_fold, is_empty, Result, ok, err, ◌>>=◌,
}
use rpc_proxy.Quantity.{parse_evm_quantity, is_evm_hash}
use rpc_proxy.Head.{Head, evm}

pub data ChainError : Type 0 where
  null_block undecodable invalid_number invalid_hash invalid_parent invalid_quantity : ChainError
  block_unavailable invalid_reference unsupported_reference discontinuous exhausted : ChainError

-- A member of a JSON object, as `json.Unmarshal` into a string sees it.
pub data Field : Type 0 where
  absent null other : Field
  text : Text → Field

unfoldable pub decode_string : Field → Option Text
decode_string absent = none
decode_string null = some []
decode_string other = none
decode_string (text s) = some s

-- A block as an upstream encodes it: the literal `null` or nothing, no object, or an object, with
-- the bytes that it has once its `transactions` are deleted.
pub data RawBlock : Type 0 where
  nothing malformed : RawBlock
  object : Field → Field → Field → Text → RawBlock

-- One upstream's reply to a block lookup.
pub data Reply : Type 0 where
  failed rpc_error : Reply
  result : RawBlock → Reply

-- What the router sees of an upstream: `upstream.Client` and the runtime's validation of it.
pub record Upstream : Type 0 where
  pub id : Text
  pub valid : Bool
  pub healthy : Bool
  pub eip1898 : Bool
  pub score : ℕ

pub record World : Type 0 where
  pub now : ℕ → ℕ
  pub upstreams : ℕ → List Upstream
  pub by_hash : ℕ → Text → Text → Reply
  pub by_number : ℕ → Text → ℕ → Reply

-- `sort.SliceStable`: an element goes before the first one that it precedes.
module _ {ℓ} {A : Type ℓ} (before : A → A → Bool) where
  unfoldable pub insert_stable : A → List A → List A
  insert_stable x [] = x ∷ []
  insert_stable x (y ∷ ys) = if before y x then y ∷ insert_stable x ys else x ∷ y ∷ ys

  unfoldable pub sort_stable : List A → List A
  unfolding insert_stable
  sort_stable [] = []
  sort_stable (x ∷ xs) = insert_stable x (sort_stable xs)

-- `Candidates`, before the sort.
unfoldable pub eligible : Bool → List Upstream → List Upstream
eligible require_eip1898 [] = []
eligible require_eip1898 (u ∷ us) =
    if not u.valid || not u.healthy
    then eligible require_eip1898 us
    else if require_eip1898 && not u.eip1898
    then eligible require_eip1898 us
    else u ∷ eligible require_eip1898 us

unfoldable pub candidates : Bool → List Upstream → List Upstream
unfolding eligible sort_stable
candidates require_eip1898 us =
    sort_stable (λ a b. ltb a.score b.score) (eligible require_eip1898 us)

-- `preferredCandidates`.
unfoldable pub preferred_candidates : Text → List Upstream → List Upstream
unfolding candidates
preferred_candidates preferred us =
    if is_empty preferred
    then candidates false us
    else sort_stable (λ a b. text_eq a.id preferred && not (text_eq b.id preferred))
        (candidates false us)

-- `EVMHeadParseRequest`'s metadata, with the chain's name and the time of the parse.
pub record Origin : Type 0 where
  pub chain : Text
  pub commitment : Text
  pub upstream : Text
  pub time : ℕ

abbrev pub require {ℓ} : {A : Type ℓ} → Option A → ChainError → Result ChainError A
require (some a) e = ok a
require none e = err e

abbrev pub require_hash : Text → ChainError → Result ChainError Text
require_hash hash e = if is_evm_hash hash then ok hash else err e

abbrev pub parse_number : Text → Result ChainError ℕ
parse_number quantity = elim (parse_evm_quantity quantity) [
  | ok n ↦ ok n
  | err _ ↦ err invalid_quantity
]

-- `ParseEVMHead`.
unfoldable pub parse_evm_head : Origin → RawBlock → Result ChainError Head
parse_evm_head origin nothing = err null_block
parse_evm_head origin malformed = err undecodable
parse_evm_head origin (object number hash parent header) = do
  number_hex ← require (decode_string number) invalid_number
  hash_value ← require (decode_string hash) invalid_hash
  hash_value ← require_hash hash_value invalid_hash
  parent_hash ← require (decode_string parent) invalid_parent
  parent_hash ← require_hash parent_hash invalid_parent
  n ← parse_number number_hex
  ok (record {
    chain = origin.chain;
    family = evm;
    commitment = origin.commitment;
    number = n;
    hash = hash_value;
    parent_hash = parent_hash;
    generation = 0;
    reorg_epoch = 0;
    reorg_pending = false;
    observed_at = origin.time;
    changed_at = 0;
    origin = origin.upstream;
    header = header;
  })

-- `EVMBlockByHashRequest`.
pub record BlockRequest : Type 0 where
  pub hash : Text
  pub commitment : Text
  pub preferred : Text

module _ (w : World) (chain : Text) where
  -- One reply, accepted if it is a block with the requested hash.
  unfoldable pub accept_reply : BlockRequest → Upstream → ℕ → Option Head
  accept_reply request u tick =
      let origin : Origin = record {
        chain = chain;
        commitment = request.commitment;
        upstream = u.id;
        time = w.now tick;
      } in
      elim (w.by_hash tick u.id request.hash) [
        | failed ↦ none
        | rpc_error ↦ none
        | result raw ↦ elim (parse_evm_head origin raw) [
          | ok block ↦ if equal_fold block.hash request.hash then some block else none
          | err _ ↦ none
        ]
      ]

  -- The loop of `EVMBlockByHash`.
  unfoldable pub try_upstreams : BlockRequest → List Upstream → ℕ → Result ChainError Head × ℕ
  unfolding accept_reply
  try_upstreams request [] tick = (err block_unavailable, tick)
  try_upstreams request (u ∷ us) tick =
      let rest = try_upstreams request us (tick + 1) in
      elim (accept_reply request u tick) [ some block ↦ (ok block, tick + 1) | none ↦ rest ]

  -- `EVMBlockByHash`.
  unfoldable pub evm_block_by_hash : BlockRequest → ℕ → Result ChainError Head × ℕ
  unfolding try_upstreams preferred_candidates
  evm_block_by_hash request tick =
      if not (is_evm_hash request.hash)
      then (err invalid_hash, tick)
      else try_upstreams request (preferred_candidates request.preferred (w.upstreams tick)) tick
