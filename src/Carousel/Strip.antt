-- ===== src/Carousel/Strip.antt =====
-- The strip of images that the view shows.
use base_service.Base.{ℕ, ◌≡◌, refl, Bool, some, List, [], ◌∷◌, ◌++◌, arith, length, get_elem?}
use base_service.Browser.{Intervals}
use base_service.Carousel.{Config, Carousel, create, init_view, auto_run, fields}

get_elem?-append-length {ℓ} :
    {A : Type ℓ} (xs : List A) (y : A) → get_elem? (xs ++ y ∷ []) (length xs) ≡ some y
get_elem?-append-length [] y = refl
get_elem?-append-length (x ∷ xs) y = get_elem?-append-length xs y

strip-auto_run : (c : Carousel) → (auto_run c).strip ≡ c.strip
unfolding auto_run
strip-auto_run c = ground arith

strip-create :
    (o : Config) (i : ℕ) (images : List ℕ) (on : List Bool) (w : Intervals)
    → (create o (i ∷ images) on w).strip ≡ (i ∷ images) ++ i ∷ []
unfolding create
strip-create o i images on w = strip-auto_run (init_view (fields o (i ∷ images) on w))

-- With as many images as switches, the slot behind the last image, where the move from the last
-- item to the first ends before the view is set back to 0, holds the image of slot 0.
pub strip_wraps :
    (o : Config) (i : ℕ) (images : List ℕ) (on : List Bool) (w : Intervals)
    → length (i ∷ images) ≡ o.num
    → let c = create o (i ∷ images) on w in get_elem? c.strip o.num ≡ get_elem? c.strip 0
strip_wraps o i images on w e =
    rw (strip-create o i images on w, ← e) (get_elem?-append-length (i ∷ images) i)
