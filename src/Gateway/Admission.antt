-- ===== src/Gateway/Admission.antt =====
-- `process` of internal/gateway/router.go: the state in which it lets a request through.
use rpc_proxy.Prelude.{ℕ, ◌+◌, ◌≤◌, ◌<◌, ◌≡◌, ◌⊎◌, false, some}
use rpc_proxy.Head.{Head, Snapshot, latest, get_head, is_zero, explicit}
use rpc_proxy.Chain.Reader.{BlockReader}
use rpc_proxy.Chain.Blocks.{ChainConfig}
use rpc_proxy.Gateway.Requests.{Prepared}
use rpc_proxy.Gateway.Process.{Admitted, local, routed}

-- The prepared request of what is left to do.
abbrev pub prepared_of : Admitted → Prepared
prepared_of (local r _) = r
prepared_of (routed r) = r

module _ (reader : BlockReader) (config : ChainConfig) (snapshot : Snapshot) (now : ℕ) where
  -- The state in which a target may be served: the accepted head exists and is not fenced, and a
  -- target that the caller has not named was observed within the configured age.
  abbrev pub MayServe : ℕ → ℕ → Head → Type 0
  MayServe max_head_age later target =
      (accepted : Head) × (get_head snapshot latest ≡ some accepted)
      × (is_zero accepted ≡ false)
      × (accepted.reorg_pending ≡ false)
      × ((target.commitment ≡ explicit)
          ⊎ (max_head_age ≡ 0)
          ⊎ ((0 < target.observed_at) × (later ≤ target.observed_at + max_head_age)))
