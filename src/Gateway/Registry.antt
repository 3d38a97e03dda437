-- ===== src/Gateway/Registry.antt =====
-- The method registry of internal/gateway/transform.go: which methods the gateway serves, how each is
-- pinned, and which it refuses as writes.
use rpc_proxy.Prelude.{
  ℕ, ◌≡◌, refl, Bool, true, false, ◌&&◌, ◌||◌, Option, none, some, List, [], ◌∷◌, All, Bool-cases,
  inl, inr, if◌then◌else◌, Text, codes, ◌==◌, text_eq, text_eq_sound, arith,
}
use rpc_proxy.Head.{evm}

-- A `case` of a `switch` on a method.
unfoldable pub listed : Text → List Text → Bool
listed method [] = false
listed method (name ∷ names) = text_eq method name || listed method names

-- `strings.HasPrefix`.
unfoldable pub starts_with : Text → Text → Bool
starts_with text [] = true
starts_with [] (p ∷ ps) = false
starts_with (b ∷ bs) (p ∷ ps) = b == p && starts_with bs ps

unfoldable pub starts_with_any : Text → List Text → Bool
starts_with_any text [] = false
starts_with_any text (p ∷ ps) = starts_with text p || starts_with_any text ps

abbrev pub one_state_argument : List Text
one_state_argument =
    codes "eth_getBalance"
    ∷ codes "eth_getTransactionCount"
    ∷ codes "eth_getCode"
    ∷ codes "eth_call"
    ∷ []

abbrev pub two_state_arguments : List Text
two_state_arguments = codes "eth_getStorageAt" ∷ codes "eth_getProof" ∷ []

-- `getEVMStateBlockIndex`.
unfoldable pub get_evm_state_block_index : Text → Option ℕ
get_evm_state_block_index method =
    if listed method one_state_argument
    then some 1
    else if listed method two_state_arguments
    then some 2
    else none

-- `evmBlockMethod`.
pub record BlockMethod : Type 0 where
  pub block_index : ℕ
  pub replacement : Text

abbrev pub by_hash : Text → BlockMethod
by_hash replacement = record { block_index = 0; replacement = replacement }

-- `getEVMBlockMethod`.
unfoldable pub get_evm_block_method : Text → Option BlockMethod
get_evm_block_method method =
    if text_eq method (codes "eth_getBlockByNumber")
    then some (by_hash (codes "eth_getBlockByHash"))
    else if text_eq method (codes "eth_getBlockTransactionCountByNumber")
    then some (by_hash (codes "eth_getBlockTransactionCountByHash"))
    else if text_eq method (codes "eth_getTransactionByBlockNumberAndIndex")
    then some (by_hash (codes "eth_getTransactionByBlockHashAndIndex"))
    else if text_eq method (codes "eth_getUncleByBlockNumberAndIndex")
    then some (by_hash (codes "eth_getUncleByBlockHashAndIndex"))
    else if text_eq method (codes "eth_getUncleCountByBlockNumber")
    then some (by_hash (codes "eth_getUncleCountByBlockHash"))
    else none

-- `isEVMHeadNeutralMethod`.
unfoldable pub is_evm_head_neutral_method : Text → Bool
is_evm_head_neutral_method method =
    listed method (codes "eth_chainId" ∷ codes "net_version" ∷ codes "web3_clientVersion" ∷ [])

-- `isEVMExplicitHashMethod`.
unfoldable pub is_evm_explicit_hash_method : Text → Bool
is_evm_explicit_hash_method method = listed method (
    codes "eth_getBlockByHash"
    ∷ codes "eth_getBlockTransactionCountByHash"
    ∷ codes "eth_getTransactionByBlockHashAndIndex"
    ∷ codes "eth_getUncleByBlockHashAndIndex"
    ∷ codes "eth_getUncleCountByBlockHash"
    ∷ [])

abbrev pub evm_write_prefixes : List Text
evm_write_prefixes =
    codes "eth_send"
    ∷ codes "eth_sign"
    ∷ codes "personal_"
    ∷ codes "wallet_"
    ∷ codes "miner_"
    ∷ codes "admin_"
    ∷ codes "engine_"
    ∷ codes "txpool_"
    ∷ []

-- `isWriteMethod`.
unfoldable pub is_write_method : Text → Text → Bool
is_write_method method family =
    if text_eq family evm
    then text_eq method (codes "eth_accounts") || starts_with_any method evm_write_prefixes
    else listed method
        (codes "sendTransaction" ∷ codes "sendRawTransaction" ∷ codes "requestAirdrop" ∷ [])

-- `isStaticMethod` of internal/gateway/cache.go.
unfoldable pub is_static_method : Text → Text → Bool
is_static_method method family =
    text_eq family evm && text_eq method (codes "eth_chainId")
    || text_eq family (codes "solana") && text_eq method (codes "getGenesisHash")

listed-All :
    (P : Text → Type 0) (method : Text) (names : List Text)
    → listed method names ≡ true
    → All P names
    → P method
unfolding listed
listed-All P method [] h a = absurd (ground arith)
listed-All P method (name ∷ names) h (p, a) = elim (Bool-cases (text_eq method name)) [
  | inl same ↦ rw (text_eq_sound method name same) p
  | inr other ↦ listed-All P method names (rw other at h) a
]

-- A method that reads state at a block is not refused as a write.
state_method-not-write :
    (method : Text) (index : ℕ)
    → get_evm_state_block_index method ≡ some index
    → is_write_method method evm ≡ false
unfolding get_evm_state_block_index
state_method-not-write method index h = elim (Bool-cases (listed method one_state_argument)) [
  | inl one ↦
      listed-All (λ m. is_write_method m evm ≡ false) method one_state_argument one
        (unfold is_write_method listed starts_with_any starts_with text_eq in
          (refl, (refl, (refl, (refl, tt)))))
  | inr more ↦ elim (Bool-cases (listed method two_state_arguments)) [
    | inl two ↦
        listed-All (λ m. is_write_method m evm ≡ false) method two_state_arguments two
          (unfold is_write_method listed starts_with_any starts_with text_eq in (refl, (refl, tt)))
    | inr neither ↦ absurd (ground arith)
  ]
]
