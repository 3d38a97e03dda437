-- ===== src/Head.antt =====
-- internal/head/types.go: the accepted head and the snapshot of one chain's heads. A time is a
-- number of nanoseconds, and 0 is Go's zero time.
use rpc_proxy.Prelude.{
  ℕ, ◌++◌, ◌∷◌, Bool, false, not, ◌&&◌, Option, [], ◌==◌, if◌then◌else◌, Text, codes, text_eq,
  is_empty, decimal,
}

pub record Head : Type 0 where
  pub chain : Text
  pub family : Text
  pub commitment : Text
  pub number : ℕ  -- uint64
  pub hash : Text
  pub parent_hash : Text
  pub generation : ℕ  -- uint64
  pub reorg_epoch : ℕ  -- uint64
  pub reorg_pending : Bool
  pub observed_at : ℕ
  pub changed_at : ℕ
  pub origin : Text
  pub header : Text

-- The zero value `Head{}`.
abbrev pub zero_head : Head
zero_head = record {
  chain = [];
  family = [];
  commitment = [];
  number = 0;
  hash = [];
  parent_hash = [];
  generation = 0;
  reorg_epoch = 0;
  reorg_pending = false;
  observed_at = 0;
  changed_at = 0;
  origin = [];
  header = [];
}

abbrev pub latest : Text
latest = codes "latest"

abbrev pub safe : Text
safe = codes "safe"

abbrev pub finalized : Text
finalized = codes "finalized"

abbrev pub processed : Text
processed = codes "processed"

abbrev pub confirmed : Text
confirmed = codes "confirmed"

abbrev pub explicit : Text
explicit = codes "explicit"

abbrev pub evm : Text
evm = codes "evm"

abbrev pub solana : Text
solana = codes "solana"

-- `Head.Identity`.
unfoldable pub identity : Head → Text
identity h = if is_empty h.hash then h.commitment ++ b':' ∷ decimal h.number else h.hash

-- `Head.IsZero`.
unfoldable pub is_zero : Head → Bool
is_zero h = h.number == 0 && is_empty h.hash && not (text_eq h.family solana)

-- `Snapshot`: the accepted heads of one chain, by commitment.
pub record Snapshot : Type 0 where
  pub chain : Text
  pub heads : Text → Option Head

-- `Snapshot.Get`.
abbrev pub get_head : Snapshot → Text → Option Head
get_head s commitment = s.heads commitment
