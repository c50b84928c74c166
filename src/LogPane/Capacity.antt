-- ===== src/LogPane/Capacity.antt =====
-- How much of a session the pane takes.
use Prim.Native.String.{String, ◌++◌}
use base_service.Base.{
  ℕ, zero, suc, ◌+◌, min, ◌≡◌, refl, ◌∙◌, ap, ◌⊎◌, inl, inr, Bool, true, false, Option, none, some,
  List, [], ◌∷◌, arith, if◌then◌else◌, length, take,
}
use base_service.LogPane.{
  Browser, Element, Log, type_error, Event, opened, message, closed, over, append_text_area,
  onmessage, onclose, handle, handle_all, create, Window, Options, close, url_of, moz, standard,
  Kind,
}

-- What an event appends: the data of a message, or the notice that the socket closed.
abbrev pub lines : List Event → List String
lines [] = []
lines (opened ∷ es) = lines es
lines (message d ∷ es) = d ∷ lines es
lines (closed ∷ es) = "Web Socket closed" ∷ lines es

abbrev pub NoneOpened : List Event → Type 0
NoneOpened [] = Unit
NoneOpened (opened ∷ es) = ⊥
NoneOpened (_ ∷ es) = NoneOpened es

module _ (b : Browser) where
  open b use {reparsed, bottom}

  -- The element after one more line, as the browser renders it.
  abbrev pub with_line : Element → String → Element
  with_line el d =
      let html = reparsed (el.inner_html ++ "<br>" ++ d) in
      record { inner_html = html; scroll_top = bottom html }

  abbrev pub with_lines : Element → List String → Element
  with_lines el [] = el
  with_lines el (d ∷ ds) = with_lines (with_line el d) ds

  append_room :
      (d : String) (s : Log) (el : Element)
      → over s.options.max_line s.current_line_count ≡ false
      → s.element ≡ some el
      → append_text_area b d s ≡ (
        record s { element = some (with_line el d); current_line_count = s.current_line_count + 1 },
        none,
      )
  unfolding append_text_area
  append_room d s el o e = rw (o, e)

  append_over :
      (d : String) (s : Log)
      → over s.options.max_line s.current_line_count ≡ true
      → append_text_area b d s ≡ (s, some type_error)
  unfolding append_text_area
  append_over d s o = rw o

  append_all : List String → Log → Log
  append_all [] s = s
  append_all (d ∷ ds) s = append_all ds (append_text_area b d s).0

  handle_all-append_all :
      (es : List Event) (s : Log) → NoneOpened es → handle_all b es s ≡ append_all (lines es) s
  unfolding handle_all append_all handle onmessage onclose
  handle_all-append_all [] s ok = refl
  handle_all-append_all (opened ∷ es) s ok = elim ok [ ]
  handle_all-append_all (message d ∷ es) s ok = handle_all-append_all es _ ok
  handle_all-append_all (closed ∷ es) s ok = handle_all-append_all es _ ok

  append_all-over :
      (ds : List String) (s : Log)
      → over s.options.max_line s.current_line_count ≡ true
      → append_all ds s ≡ s
  unfolding append_all
  append_all-over [] s o = refl
  append_all-over (d ∷ ds) s o = rw (append_over d s o) (append_all-over ds s o)

  -- With room for `r` more lines.
  append_all-room :
      (ds : List String) (r : ℕ) (s : Log) (el : Element) (m : ℕ)
      → s.options.max_line ≡ some m
      → s.element ≡ some el
      → s.current_line_count + r ≡ m + 1
      → ((append_all ds s).element ≡ some (with_lines el (take r ds)))
        × ((append_all ds s).current_line_count ≡ s.current_line_count + min r (length ds))
  unfolding append_all
  append_all-room [] zero s el m l e c = (e, omega arith)
  append_all-room [] (suc r) s el m l e c = (e, omega arith)
  append_all-room (d ∷ ds) zero s el m l e c =
      rw (append_all-over (d ∷ ds) s (ground arith)) (e, omega arith)
  append_all-room (d ∷ ds) (suc r) s el m l e c =
      let s' : Log = record s {
        element = some (with_line el d);
        current_line_count = s.current_line_count + 1;
      } in
      let first = append_room d s el (ground arith) e in
      let (same, count) = append_all-room ds r s' (with_line el d) m l refl (omega arith) in
      rw (first, append_all) (same, omega (arith, count))

  create_fields :
      (w : Window) (o : Options) (el : Option Element)
      → ((create w o el).element ≡ el)
        × ((create w o el).options ≡ o)
        × ((create w o el).current_line_count ≡ 0)
  unfolding create
  create_fields w o el = ground arith

  abbrev pub greeted : Options → Element → Element
  greeted o el = record el {
    inner_html = reparsed ("connect to the " ++ o.server_name ++ "." ++ o.log_type);
  }

  handle-opened :
      (s : Log) (el : Element)
      → s.element ≡ some el
      → (handle b opened s).0 ≡ record s { element = some (greeted s.options el) }
  unfolding handle
  handle-opened s el e = rw e

  -- From the greeting on, with the element in the page and `max_line` set to m: of the messages and
  -- the notice of closing, whatever their number, the pane shows the first m + 1, one after the
  -- other, and no later one; the lines before are never cleared.
  pub session_pane :
      (es : List Event) (w : Window) (o : Options) (el : Element) (m : ℕ)
      → o.max_line ≡ some m
      → NoneOpened es
      → let s = handle_all b (opened ∷ es) (create w o (some el)) in
        (s.element ≡ some (with_lines (greeted o el) (take (m + 1) (lines es))))
        × (s.current_line_count ≡ min (m + 1) (length (lines es)))
  unfolding handle_all
  session_pane es w o el m l ok =
      let s0 = create w o (some el) in
      let (e, same, zero_count) = create_fields w o (some el) in
      let greeting = handle-opened s0 el e in
      let s1 : Log = record s0 { element = some (greeted s0.options el) } in
      let (shown, count) =
        append_all-room (lines es) (m + 1) s1 (greeted s0.options el) m (cc) refl (omega arith) in
      rw (greeting, handle_all, handle_all-append_all es s1 ok)
        (
          shown ∙ ap (λ p. some (with_lines (greeted p el) (take (m + 1) (lines es)))) same,
          omega (arith, count),
        )

  -- Once the count is above the limit, a message or a close changes nothing and ends in a
  -- TypeError; and so it is for every event on a page without the element.
  handle_error :
      (e : Event) (s : Log)
      → (over s.options.max_line s.current_line_count ≡ true) × NoneOpened (e ∷ [])
        ⊎ (s.element ≡ none)
      → handle b e s ≡ (s, some type_error)
  unfolding handle
  handle_error opened s (inl h) = elim h.1 [ ]
  handle_error opened s (inr h) = rw h
  handle_error (message d) s (inl h) = rw h.0
  handle_error (message d) s (inr h) = ground arith
  handle_error closed s (inl h) = rw h.0
  handle_error closed s (inr h) = ground arith

-- The socket that a browser offers.
abbrev pub offered : Window → Option Kind
offered w = if w.moz_web_socket then some moz else if w.web_socket then some standard else none

-- What the constructor and `close` do with the socket that is offered.
abbrev pub Constructed : Options → Option Kind → Log → Type 0
Constructed o none s = (s.socket ≡ none) × (length s.alerts ≡ 1) × (close s ≡ (s, some type_error))
Constructed o (some k) s =
    (s.alerts ≡ [])
    × (s.socket ≡ some (record { kind = k; url = url_of o; close_requested = false }))
    × ((close s).0.socket ≡ some (record { kind = k; url = url_of o; close_requested = true }))
    × ((close s).1 ≡ none)

create_by :
    (moz_web_socket web_socket : Bool) (o : Options) (el : Option Element)
    → let w : Window = record { moz_web_socket = moz_web_socket; web_socket = web_socket } in
      Constructed o (offered w) (create w o el)
unfolding create close
create_by true web o el = (refl, refl, refl, refl)
create_by false true o el = (refl, refl, refl, refl)
create_by false false o el = (refl, refl, refl)

-- The constructor connects to one URL by `MozWebSocket`, else by `WebSocket`; with neither it leaves
-- no socket and one alert. `close` asks the socket to close, and without one ends in a TypeError.
pub create-close :
    (w : Window) (o : Options) (el : Option Element) → Constructed o (offered w) (create w o el)
create-close w o el = create_by w.moz_web_socket w.web_socket o el
