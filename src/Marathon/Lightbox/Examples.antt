-- ===== src/Marathon/Lightbox/Examples.antt =====
-- A lightbox of numbers, and the theorems about it.
use base_service.Base.{ℕ, ◌+◌, ◌≡◌, refl, true, none, some, List, [], ◌∷◌}
use base_service.Marathon.Lightbox.{
  Backbone, Lightbox, Action, opening, dismissal, locking, filling, clicking, closer, plain_spot,
  initialize, click, perform_all,
}
use base_service.Marathon.Lightbox.Synced.{Detects, IsSynced, perform_all-initialize}
use base_service.Marathon.Lightbox.Closing.{IsHeld, closes-click, perform_all-IsHeld}

-- A `set` that triggers a change each time.
abbrev eager : Backbone ℕ
eager = record {
  flag_changes = λ o p. true;
  content_changes = λ c d. true;
  color_changes = λ c d. true;
}

eager-Detects : Detects eager
eager-Detects = record { flag_stays = λ o p e. absurd (cc); content_stays = λ c d e. absurd (cc) }

abbrev actions : List (Action ℕ)
actions = filling 7 ∷ opening ∷ locking ∷ clicking (plain_spot ∷ []) ∷ dismissal ∷ []

perform_all-initialize_example : IsSynced (perform_all eager actions (initialize eager (some 3)))
perform_all-initialize_example = perform_all-initialize eager eager-Detects actions (some 3)

closes-click_example :
    (click eager (plain_spot ∷ closer ∷ []) (initialize eager none)).closes
    ≡ (initialize eager none).closes + 1 + 1
unfolding initialize
closes-click_example = closes-click eager (plain_spot ∷ closer ∷ []) (initialize eager none)

abbrev held : Lightbox ℕ
held = record {
  model = record { opened = true; locked = true; background_color = "red"; content_view = some 7 };
  shown = true;
  rendered = true;
  drawn = some 7;
  css = none;
  closes = 0;
}

perform_all-IsHeld_example : IsHeld 0 (perform_all eager actions held)
perform_all-IsHeld_example =
    perform_all-IsHeld eager actions 0 held (tt, (tt, (tt, (refl, (tt, tt)))))
      (record { held_lock = refl; held_open = refl; held_closes = refl })
