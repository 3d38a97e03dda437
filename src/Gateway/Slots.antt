-- ===== src/Gateway/Slots.antt =====
-- `transformSolanaRequest` and `verifySolanaContext` of internal/gateway/transform.go: the slot that an
-- answer has reached.
use rpc_proxy.Prelude.{
  ℕ, ◌≤◌, ◌≡◌, inl, inr, refl, ap, sym, ◌∙◌, Bool, some, List, [], ◌∷◌, max, Text, ok, Option-cases,
  Result-cases, arith, suc, zero,
}
use rpc_proxy.Head.{Head, Snapshot, get_head}
use rpc_proxy.Chain.Defs.{text}
use rpc_proxy.Gateway.Requests.{get_snapshot_head}
use rpc_proxy.Gateway.Solana.{
  Slot, SolanaConfig, SolanaParam, SolanaPrepared, get_solana_config_index, read_commitment,
  read_minimum, read_with_context, pin_context, decode_config, config_at, set_config, pad_config,
  pin_config, transform_solana_request, no_slot, invalid_slot, slot, config,
}

pin_context-kept :
    (method : Text) (c d : SolanaConfig) (unwrap : Bool)
    → pin_context method c ≡ ok (d, unwrap)
    → (d.commitment ≡ c.commitment) × (d.min_context_slot ≡ c.min_context_slot)
unfolding pin_context read_with_context
pin_context-kept method c d unwrap h = ground arith

read_minimum-le : (accepted n : ℕ) (s : Slot) → read_minimum accepted s ≡ ok n → accepted ≤ n
unfolding read_minimum
read_minimum-le accepted n no_slot h = ground arith
read_minimum-le accepted n invalid_slot h = absurd (ground arith)
read_minimum-le accepted n (slot k) h = let e : max accepted k ≡ n = ground arith in omega arith

snapshot_head-found :
    (snapshot : Snapshot) (commitment : Text) (accepted : Head)
    → get_snapshot_head snapshot commitment ≡ ok accepted
    → get_head snapshot commitment ≡ some accepted
unfolding get_snapshot_head
snapshot_head-found snapshot commitment accepted h = ground arith

-- What a pinned configuration asks of its answer.
abbrev pub PinsSlot : Snapshot → SolanaConfig → Head → Type 0
PinsSlot snapshot pinned target =
    (commitment : Text) × (accepted : Head) × (get_head snapshot commitment ≡ some accepted)
    × (accepted.number ≤ target.number)
    × (pinned.commitment ≡ text commitment)
    × (pinned.min_context_slot ≡ slot target.number)

pin_config-PinsSlot :
    (snapshot : Snapshot) (method : Text) (c pinned : SolanaConfig) (target : Head) (unwrap : Bool)
    → pin_config snapshot method c ≡ ok (pinned, target, unwrap)
    → PinsSlot snapshot pinned target
unfolding pin_config
pin_config-PinsSlot snapshot method c pinned target unwrap h =
    elim (Result-cases (read_commitment c.commitment)) [
      | inr (x, bad) ↦ absurd (ground arith)
      | inl (commitment, named) ↦ elim (Result-cases (get_snapshot_head snapshot commitment)) [
        | inr (x, bad) ↦ absurd (ground arith)
        | inl (accepted, stored) ↦
            elim (Result-cases (read_minimum accepted.number c.min_context_slot)) [
              | inr (x, bad) ↦ absurd (ground arith)
              | inl (minimum, asked) ↦
                  let c' : SolanaConfig = record c {
                    commitment = text commitment;
                    min_context_slot = slot minimum;
                  } in
                  elim (Result-cases (pin_context method c')) [
                    | inr (x, bad) ↦ absurd (ground arith)
                    | inl ((d, u), kept) ↦
                        let (k, m) = pin_context-kept method c' d u kept in
                        let above =
                          read_minimum-le accepted.number minimum c.min_context_slot asked in
                        let is : pinned ≡ d = ground arith in
                        let level : target.number ≡ minimum = ground arith in
                        (
                          commitment,
                          accepted,
                          snapshot_head-found snapshot commitment accepted stored,
                          omega arith,
                          ap (λ x. x.commitment) is ∙ k,
                          ap (λ x. x.min_context_slot) is ∙ m ∙ ap slot (sym level),
                        )
                  ]
            ]
      ]
    ]

config_at-set_config :
    (i : ℕ) (q p : SolanaParam) (ps : List SolanaParam)
    → config_at i ps ≡ some p
    → config_at i (set_config i q ps) ≡ some q
unfolding config_at set_config
config_at-set_config i q p [] h = absurd (ground arith)
config_at-set_config zero q p (r ∷ ps) h = refl
config_at-set_config (suc i) q p (r ∷ ps) h = config_at-set_config i q p ps h

-- A Solana read that takes a configuration is sent with one that names a commitment of the snapshot and
-- the target's slot as the lowest that the answer may have, which is at or above the accepted slot.
pub transform_solana_request-PinsSlot :
    (snapshot : Snapshot) (method : Text) (index : ℕ) (ps : List SolanaParam) (r : SolanaPrepared)
    → get_solana_config_index method ≡ some index
    → transform_solana_request snapshot method (some ps) ≡ ok r
    → (target : Head) × (pinned : SolanaConfig) × (r.target ≡ some target)
      × (config_at index r.parameters ≡ some (config pinned))
      × PinsSlot snapshot pinned target
unfolding transform_solana_request
transform_solana_request-PinsSlot snapshot method index ps r found h =
    elim (Option-cases (config_at index (pad_config index ps))) [
      | inl lost ↦ absurd (ground arith)
      | inr (p, at) ↦ elim (Option-cases (decode_config p)) [
        | inl lost ↦ absurd (ground arith)
        | inr (c, read) ↦ elim (Result-cases (pin_config snapshot method c)) [
          | inr (x, bad) ↦ absurd (ground arith)
          | inl ((pinned, target, unwrap), kept) ↦
              let params : r.parameters ≡ set_config index (config pinned) (pad_config index ps) =
                ground arith in
              (
                target,
                pinned,
                ground arith,
                rw params (config_at-set_config index (config pinned) p (pad_config index ps) at),
                pin_config-PinsSlot snapshot method c pinned target unwrap kept,
              )
        ]
      ]
    ]
