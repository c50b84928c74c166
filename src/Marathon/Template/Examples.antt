-- ===== src/Marathon/Template/Examples.antt =====
-- The template of an application's entry, and the theorem about it.
use base_service.Base.{◌≡◌, refl, List, [], ◌∷◌, ◌++◌}
use base_service.Text.{Text, codes}
use base_service.Marathon.Template.{Piece, literal, hole, pieces, fill, app_text}
use base_service.Marathon.Template.Pieces.{pieces-print}

abbrev holes : List Piece → List Text
holes [] = []
holes (hole g ∷ ps) = g ∷ holes ps
holes (_ ∷ ps) = holes ps

app_holes :
    holes (pieces 0 app_text)
    ≡ codes " id "
      ∷ codes " cmd "
      ∷ codes " uriCount "
      ∷ codes "uris"
      ∷ codes " mem "
      ∷ codes " cpus "
      ∷ codes " instances "
      ∷ []
unfolding pieces
app_holes = refl

-- Braces that close a line later, and the least match.
least_match :
    fill (λ g. codes "<" ++ g ++ codes ">") (pieces 0 (codes "{{a}} {{}}} {{b"))
    ≡ codes "<a> <}> {{b"
unfolding pieces fill
least_match = refl

abbrev cells : List Piece
cells = literal b'<' ∷ hole (codes "a{b") ∷ literal b'}' ∷ hole (codes "c") ∷ literal b'>' ∷ []

pieces-print_example : pieces 0 (codes "<{{a{b}}}{{c}}>") ≡ cells
pieces-print_example = pieces-print cells (
  refl,
  (
    (refl, ((refl, refl), ((refl, refl), ((refl, refl), tt)))),
    (refl, ((refl, ((refl, refl), tt)), (refl, tt))),
  ),
)
