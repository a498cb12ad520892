-- ===== src/Tests/Others.antt =====
-- The theorems on pages, deferred effects and the outbox at small inputs.
use kans_shop.Prelude.{
  ℕ, ◌*◌, ◌<◌, ◌↔◌, ◌≡◌, refl, Bool, true, not, none, some, [], ◌∷◌, ◌++◌, arith, find_by, text_eq,
  show, select, ltb,
}
use kans_shop.Enums.{PaymentMethod}
use kans_shop.Models.{Database, EventType, NotificationOutbox, status_user}
use kans_shop.Exec.{committed, ok}
use kans_shop.Outbox.{enqueue_outbox_event, is_bad_key, same_key, dedupe_text, to_user, event_row}
use kans_shop.Outbox.Once.{enqueue_twice}
use kans_shop.Common.{Page, has_next, Session, run_actions}
use kans_shop.Common.Laws.{has_next_iff, run_actions_lem}
use kans_shop.Tests.{shop_with}

abbrev second_page : Page ℕ
second_page = record { items = 4 ∷ 5 ∷ 6 ∷ []; total = 7; page = 2; limit = 3 }

has_next_iff_example : (has_next second_page ≡ true) ↔ (2 * 3 < 7)
has_next_iff_example = has_next_iff second_page (omega arith) (omega arith)

abbrev queue : Session ℕ
queue = record { actions = 1 ∷ 2 ∷ 3 ∷ []; ran = []; failed = []; committed = 0 }

abbrev is_small : ℕ → Bool
is_small n = ltb n 3

run_actions_lem_example : run_actions is_small (1 ∷ 2 ∷ 3 ∷ []) queue ≡ record queue {
  ran = [] ++ select is_small (1 ∷ 2 ∷ 3 ∷ []);
  failed = [] ++ select (λ n. not (is_small n)) (1 ∷ 2 ∷ 3 ∷ []);
}
run_actions_lem_example = run_actions_lem is_small (1 ∷ 2 ∷ 3 ∷ []) queue

abbrev quiet_shop : Database
quiet_shop = shop_with PaymentMethod.cash []

abbrev told : NotificationOutbox
told = event_row 0 EventType.status_changed 1 (some 4) (to_user 7) (status_user 4 7) 1

abbrev told_shop : Database
told_shop =
    committed
      (enqueue_outbox_event EventType.status_changed 1 (some 4) (to_user 7) (status_user 4 7))
      quiet_shop

enqueue_twice_example :
    enqueue_outbox_event EventType.created 1 none (to_user 8) (status_user 4 7) told_shop
    ≡ ok (told, told_shop)
unfolding enqueue_outbox_event find_by is_bad_key same_key dedupe_text text_eq show
enqueue_twice_example =
    enqueue_twice EventType.status_changed EventType.created 1 1 (some 4) none (to_user 7)
      (to_user 8) (status_user 4 7) quiet_shop told_shop told refl
