-- ===== src/Marathon/Terminal.antt =====
-- The terminal of smc-base-server/src/main/webapp/marathon/js/marathon.js: the input `#setter`, whose
-- value is written to `#system-text` at every key event, and the caret.
use base_service.Base.{ℕ, Bool, true, false, [], length, if◌then◌else◌}
use base_service.Text.{Text}

-- `caret_focus` is the class `focus` of `.system-caret`, which the router binds to the input's focus.
pub record Terminal : Type 0 where
  pub value : Text
  pub system_text : Text
  pub focused : Bool
  pub caret_bound : Bool
  pub caret_focus : Bool

-- The end of the set-up: `$setter.focus()`, before the caret is bound.
abbrev pub initial : Text → Terminal
initial v = record {
  value = v;
  system_text = [];
  focused = true;
  caret_bound = false;
  caret_focus = false;
}

abbrev pub write : Text → Terminal → Terminal
write text t = record t { system_text = text }

-- The source's body is empty.
abbrev pub move : ℕ → Terminal → Terminal
move n t = t

unfoldable pub key : Text → Terminal → Terminal
key text t = move (length text) (write text t)

-- Key events of the input, what is typed, and the input's focus. A click on the terminal focuses it.
pub data Event : Type 0 where
  keydown keypress keyup : Event
  typed : Text → Event
  bound focusin focusout clicked : Event

abbrev pub focus : Terminal → Terminal
focus t = record t {
  focused = true;
  caret_focus = if t.focused then t.caret_focus else if t.caret_bound then true else t.caret_focus;
}

unfoldable pub handle : Event → Terminal → Terminal
unfolding key
handle keydown t = key t.value t
handle keypress t = key t.value t
handle keyup t = key t.value t
handle (typed v) t = record t { value = v }
handle bound t = record t { caret_bound = true }
handle focusin t = focus t
handle focusout t = record t {
  focused = false;
  caret_focus = if t.caret_bound then false else t.caret_focus;
}
handle clicked t = focus t
