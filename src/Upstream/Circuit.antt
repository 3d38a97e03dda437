-- ===== src/Upstream/Circuit.antt =====
-- internal/upstream/client.go: the failure circuit over a client's whole history.
use rpc_proxy.Prelude.{ℕ, ◌+◌, ◌%◌, ◌≡◌, refl, List, [], ◌∷◌, ltb, ◌==◌, if◌then◌else◌, arith}
use rpc_proxy.Upstream.Defs.{
  HealthState, initial_health, open_time, healthy, record_success, record_failure,
}

-- One recorded call.
pub data Recorded : Type 0 where
  succeeded : (duration : ℕ) → Recorded
  failed : (now : ℕ) → Recorded

-- The circuit after a history, the latest call first.
pub health_after : List Recorded → HealthState
health_after [] = initial_health
health_after (succeeded duration ∷ es) = record_success duration (health_after es)
health_after (failed now ∷ es) = record_failure now (health_after es)

-- The number of failures since the last success.
streak : List Recorded → ℕ
streak [] = 0
streak (succeeded _ ∷ es) = 0
streak (failed _ ∷ es) = streak es + 1

-- The end of the ten seconds after the latest failure that was the fifth, tenth, … of its row.
pub blocked_until : List Recorded → ℕ
blocked_until [] = 0
blocked_until (succeeded _ ∷ es) = 0
blocked_until (failed now ∷ es) =
    let before = blocked_until es in if (streak es + 1) % 5 == 0 then now + open_time else before

health_after-streak : (es : List Recorded) → (health_after es).failures ≡ streak es % 5
unfolding health_after streak record_success record_failure
health_after-streak [] = refl
health_after-streak (succeeded duration ∷ es) = refl
health_after-streak (failed now ∷ es) = let counted = health_after-streak es in ground arith

health_after-blocked : (es : List Recorded) → (health_after es).open_until ≡ blocked_until es
unfolding health_after blocked_until record_success record_failure
health_after-blocked [] = refl
health_after-blocked (succeeded duration ∷ es) = refl
health_after-blocked (failed now ∷ es) =
    let counted = health_after-streak es in let before = health_after-blocked es in ground arith

-- Whatever calls a client has made, it is healthy exactly after the ten seconds that follow the
-- latest failure that was the fifth, tenth, … in a row since the last success.
pub healthy-blocked_until :
    (es : List Recorded) (now : ℕ) → healthy (health_after es) now ≡ ltb (blocked_until es) now
unfolding healthy
healthy-blocked_until es now = rw (health_after-blocked es) refl
