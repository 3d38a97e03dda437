-- ===== src/Prelude/Maps.antt =====
-- Go maps with string keys as functions: an absent key gives the zero value.
use mathlib.Core.Path.{◌≡◌}
use native.Mathlib.Omega.{arith}
use rpc_proxy.Prelude.Tests.{if◌then◌else◌}
use rpc_proxy.Prelude.Words.{Text, text_eq, text_eq_refl}

-- `m[k] = v`.
abbrev pub update {ℓ} : {A : Type ℓ} → (Text → A) → Text → A → Text → A
update m k v j = if text_eq j k then v else m j

pub update_self {ℓ} : {A : Type ℓ} (m : Text → A) (k : Text) (v : A) → update m k v k ≡ v
update_self m k v = ground (arith, text_eq_refl k)
