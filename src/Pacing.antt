-- ===== src/Pacing.antt =====
-- backend/app/services/telegram_pacing_service.py: at most 20 sends of a bot in a rolling second. The
-- script runs in Redis on a sorted set; it is kept as the list of its scores, which are the times of
-- the slots in milliseconds of the server. The set's expiry after two seconds drops scores that the
-- script would drop.
pub mod Window
use kans_shop.Prelude.{
  ℕ, zero, suc, ◌+◌, ◌-◌, max, min, Bool, Option, none, some, List, [], ◌∷◌, ◌++◌, length, select,
  ltb, ◌==◌, if◌then◌else◌,
}

-- `ZREMRANGEBYSCORE key -inf now_ms - 1000`
abbrev pub is_recent : ℕ → ℕ → Bool
is_recent now score = ltb now (score + 1000)

abbrev pub slots : ℕ
slots = 20

-- The lowest score.
unfoldable pub first : ℕ → List ℕ → ℕ
first s [] = s
first s (t ∷ ts) = min s (first t ts)

abbrev pub lowest : List ℕ → ℕ
lowest [] = 0
lowest (s ∷ ss) = first s ss

-- The script: the wait in milliseconds, zero for a slot that is taken, and the set that it leaves.
unfoldable pub reserve_slot : ℕ → List ℕ → ℕ × List ℕ
reserve_slot now scores =
    let kept = select (is_recent now) scores in
    if ltb (length kept) slots
    then (0, kept ++ now ∷ [])
    else (max 1 (lowest kept + 1000 - now), kept)

-- The loop of `acquire_telegram_slot`: the time of the slot and the set that it leaves. The sleep is
-- the wait and two milliseconds. With no other client in between, the fuel 2 is enough.
unfoldable pub acquire_telegram_slot : ℕ → ℕ → List ℕ → Option (ℕ × List ℕ)
acquire_telegram_slot zero now scores = none
acquire_telegram_slot (suc fuel) now scores =
    let r = reserve_slot now scores in
    let again = acquire_telegram_slot fuel (now + r.0 + 2) r.1 in
    if r.0 == 0 then some (now, r.1) else again

-- The slots that are taken when the clients ask at these times of the server.
abbrev pub granted : ℕ → ℕ × List ℕ → List ℕ
granted now r = if r.0 == 0 then now ∷ [] else []

unfoldable pub grants : List ℕ → List ℕ → List ℕ
grants [] scores = []
grants (now ∷ times) scores =
    granted now (reserve_slot now scores) ++ grants times (reserve_slot now scores).1
