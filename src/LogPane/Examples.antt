-- ===== src/LogPane/Examples.antt =====
-- A log of at most one line over the limit, and the theorems at such inputs.
use base_service.Base.{◌≡◌, refl, true, false, some, [], ◌∷◌, take}
use base_service.LogPane.{
  Browser, Options, Element, Window, Log, create, opened, message, closed, handle, handle_all,
}
use base_service.LogPane.Capacity.{lines, with_lines, greeted, session_pane}

-- A browser that writes back what it read, and lays a character out on a line.
abbrev plain : Browser
plain = record { reparsed = λ s. s; bottom = λ s. 16 }

abbrev options : Options
options = record {
  target = "log_target";
  uri = "host/logs";
  server_name = "s1";
  max_line = some 1;
  protocol = "ws";
  log_type = "log";
}

abbrev empty : Element
empty = record { inner_html = ""; scroll_top = 0 }

abbrev modern : Window
modern = record { moz_web_socket = false; web_socket = true }

abbrev session : Log
session =
    handle_all plain (opened ∷ message "a" ∷ message "b" ∷ message "c" ∷ closed ∷ [])
      (create modern options (some empty))

session_shown :
    session.element
    ≡ some (record { inner_html = "connect to the s1.log<br>a<br>b"; scroll_top = 16 })
unfolding handle_all handle create
session_shown = refl

session_pane_example :
    let s = session in
    (s.element
      ≡ some (
          with_lines plain
            (greeted plain options empty)
            (take 2 (lines (message "a" ∷ message "b" ∷ message "c" ∷ closed ∷ [])))))
    × (s.current_line_count ≡ 2)
session_pane_example =
    session_pane plain (message "a" ∷ message "b" ∷ message "c" ∷ closed ∷ []) modern options empty
      1 refl tt
