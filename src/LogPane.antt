-- ===== src/LogPane.antt =====
-- `LogWebSocket` of smc-base-server/src/main/webapp/js/LogWebSocket.js: a socket whose messages are
-- appended to an element of the page. The browser's part is a parameter: what `innerHTML` reads
-- after it was set, and where the element is scrolled to after `scrollTop = scrollHeight`.
pub mod Capacity
mod Examples
use Prim.Native.String.{String, ◌++◌}
use base_service.Base.{
  ℕ, ◌+◌, Bool, true, false, Option, none, some, List, [], ◌∷◌, ltb, if◌then◌else◌,
}

pub record Browser : Type 0 where
  pub reparsed : String → String
  pub bottom : String → ℕ

pub record Options : Type 0 where
  pub target : String
  pub uri : String
  pub server_name : String
  pub max_line : Option ℕ  -- `none` is undefined, and no number is above it
  pub protocol : String
  pub log_type : String

-- The element, if the page has one with the identifier `target`.
pub record Element : Type 0 where
  pub inner_html : String
  pub scroll_top : ℕ

-- `window.MozWebSocket`, else `window.WebSocket`, else neither.
pub record Window : Type 0 where
  pub moz_web_socket : Bool
  pub web_socket : Bool

pub data Kind : Type 0 where
  moz standard : Kind

pub record Socket : Type 0 where
  pub kind : Kind
  pub url : String
  pub close_requested : Bool

pub record Log : Type 0 where
  pub options : Options
  pub socket : Option Socket
  pub alerts : List String
  pub element : Option Element
  pub current_line_count : ℕ

pub data Error : Type 0 where
  type_error : Error

abbrev pub Outcome : Type 0
Outcome = Log × Option Error

pub url_of : Options → String
url_of o =
    o.protocol ++ "://" ++ o.uri ++ "?serverName=" ++ o.server_name ++ "&log_type=" ++ o.log_type

abbrev pub unconnected : Options → Option Element → Log
unconnected o el = record {
  options = o;
  socket = none;
  alerts = [];
  element = el;
  current_line_count = 0;
}

abbrev pub connecting : Kind → String → Socket
connecting k u = record { kind = k; url = u; close_requested = false }

-- The constructor; without a socket it returns after the alert.
pub create : Window → Options → Option Element → Log
unfolding url_of
create w o el =
    if w.moz_web_socket
    then record (unconnected o el) { socket = some (connecting moz (url_of o)) }
    else if w.web_socket
    then record (unconnected o el) { socket = some (connecting standard (url_of o)) }
    else record (unconnected o el) { alerts = "Your browser does not support Web Socket." ∷ [] }

pub data Event : Type 0 where
  opened : Event
  message : String → Event
  closed : Event

-- `current_line_count > options.max_line`
abbrev pub over : Option ℕ → ℕ → Bool
over none n = false
over (some m) n = ltb m n

module _ (b : Browser) where
  open b use {reparsed, bottom}

  pub onopen : Log → Outcome
  onopen s = elim s.element [
    | none ↦ (s, some type_error)
    | some el ↦
        let html =
          reparsed ("connect to the " ++ s.options.server_name ++ "." ++ s.options.log_type) in
        (record s { element = some (record el { inner_html = html }) }, none)
  ]

  -- In the branch for too many lines `el` is declared, and has no value before the next statement:
  -- `el.innerHTML` there is a TypeError.
  pub append_text_area : String → Log → Outcome
  append_text_area new_data s =
      if over s.options.max_line s.current_line_count
      then (s, some type_error)
      else elim s.element [
        | none ↦ (s, some type_error)
        | some el ↦
            let html = reparsed (el.inner_html ++ "<br>" ++ new_data) in
            (
              record s {
                element = some (record { inner_html = html; scroll_top = bottom html });
                current_line_count = s.current_line_count + 1;
              },
              none,
            )
      ]

  pub onmessage : String → Log → Outcome
  unfolding append_text_area
  onmessage event_data s = append_text_area event_data s

  pub onclose : Log → Outcome
  unfolding append_text_area
  onclose s = append_text_area "Web Socket closed" s

  -- An error in a handler is reported by the browser, and the next event is handled.
  pub handle : Event → Log → Outcome
  unfolding onopen onmessage onclose
  handle opened s = onopen s
  handle (message d) s = onmessage d s
  handle closed s = onclose s

  pub handle_all : List Event → Log → Log
  handle_all [] s = s
  handle_all (e ∷ es) s = handle_all es (handle e s).0

-- `close` of the prototype: `this.socket` is undefined if the constructor gave up.
pub close : Log → Outcome
close s = elim s.socket [
  | none ↦ (s, some type_error)
  | some k ↦ (record s { socket = some (record k { close_requested = true }) }, none)
]
