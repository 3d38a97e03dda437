-- ===== src/Coordinator/Monad.antt =====
-- What a transition check carries: the tick of its next read, whether it has reported a divergence,
-- and the state that its callback changes.
use rpc_proxy.Prelude.{ℕ, ◌≡◌, refl, Bool, true, false, Option, none, some, Result, ok, err, arith}
use rpc_proxy.Head.{Head}
use rpc_proxy.Chain.Defs.{BlockRequest}
use rpc_proxy.Chain.Reader.{BlockReader}

pub data CoordinatorError : Type 0 where
  depth_not_positive invalid_linkage gap_exceeds_window no_common_ancestor : CoordinatorError
  parent_unavailable leader_lost fence_changed evidence_missing initial_linkage : CoordinatorError

pub record Env {ℓ} (S : Type ℓ) : Type ℓ where
  pub tick : ℕ
  pub reported : Bool
  pub outer : S

abbrev pub M {ℓ} : Type ℓ → Type 0 → Type ℓ
M S A = Env S → Result CoordinatorError A × Env S

infixl 5 ◌>>=◌ ◌>>◌
abbrev pub ◌>>=◌ {ℓ} : {S : Type ℓ} {A B : Type 0} → M S A → (A → M S B) → M S B
◌>>=◌ m f e = elim (m e).0 [ ok a ↦ f a (m e).1 | err x ↦ (err x, (m e).1) ]

abbrev pub ◌>>◌ {ℓ} : {S : Type ℓ} {B : Type 0} → M S (Unit {0}) → M S B → M S B
m >> k = m >>= λ _. k

abbrev pub pure {ℓ} : {S : Type ℓ} {A : Type 0} → A → M S A
pure a e = (ok a, e)

abbrev pub fail {ℓ} : {S : Type ℓ} {A : Type 0} → CoordinatorError → M S A
fail x e = (err x, e)

abbrev pub guard {ℓ} : {S : Type ℓ} → Bool → CoordinatorError → M S (Unit {0})
guard true x e = (ok tt, e)
guard false x e = (err x, e)

module _ {ℓ} {S : Type ℓ} (reader : BlockReader) where
  -- A read whose failure is a value.
  unfoldable pub try_read : BlockRequest → M S (Option Head)
  try_read request e = (
    elim (reader.read request e.tick).0 [ ok block ↦ ok (some block) | err _ ↦ ok none ],
    record e { tick = (reader.read request e.tick).1 },
  )

  -- A read whose failure ends the check.
  unfoldable pub read_block : BlockRequest → M S Head
  read_block request e = (
    elim (reader.read request e.tick).0 [ ok block ↦ ok block | err _ ↦ err parent_unavailable ],
    record e { tick = (reader.read request e.tick).1 },
  )

-- A bind that succeeds, taken apart.
pub >>=-eq-ok {ℓ} :
    {S : Type ℓ} {A B : Type 0} (m : M S A) (f : A → M S B) (e e' : Env S) (b : B)
    → (m >>= f) e ≡ (ok b, e')
    → (a : A) × (e₁ : Env S) × (m e ≡ (ok a, e₁)) × (f a e₁ ≡ (ok b, e'))
>>=-eq-ok {S = S} {A = A} {B = B} m f e e' b h = go (m e) refl h
  where
    go :
        (r : Result CoordinatorError A × Env S)
        → m e ≡ r
        → (elim r.0 [ ok a ↦ f a r.1 | err x ↦ (err x, r.1) ]) ≡ (ok b, e')
        → (a : A) × (e₁ : Env S) × (m e ≡ (ok a, e₁)) × (f a e₁ ≡ (ok b, e'))
    go (ok a, e₁) q h' = (a, e₁, q, h')
    go (err x, e₁) q h' = absurd (ground arith)
