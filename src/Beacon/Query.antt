-- ===== src/Beacon/Query.antt =====
-- What the address of the beacon says.
use base_service.Base.{
  ap, ◌∙◌, ◌+◌, drop, length, if◌then◌else◌, ◌≡◌, refl, false, Option, none, some, List, [], ◌∷◌,
  ◌++◌, All,
}
use base_service.Text.{Text, codes, is_empty, starts_with, join, split}
use base_service.Text.Split.{split-join}
use base_service.Browser.{contains}
use base_service.Beacon.{Page, init, referrer_part, from_part, parts, q}

abbrev pub first {ℓ} : {A : Type ℓ} → List A → Option A
first [] = none
first (x ∷ _) = some x

-- The value of the first parameter with the name.
abbrev pub value_of : Text → List Text → Option Text
value_of name [] = none
value_of name (w ∷ ws) =
    if starts_with w (name ++ codes "=") then some (drop (length name + 1) w) else value_of name ws

abbrev pub SourceSingle : Option Text → Type 0
SourceSingle none = Unit
SourceSingle (some f) = contains f b'&' ≡ false

abbrev pub Single : Text → Type 0
Single t = contains t b'&' ≡ false

All-append : (xs ys : List Text) → All Single xs → All Single ys → All Single (xs ++ ys)
All-append [] ys h k = k
All-append (x ∷ xs) ys h k = (h.0, All-append xs ys h.1 k)

module _ (encode : Text → Text) where
  referrer-Single : (d : Text) → Single (encode d) → All Single (referrer_part encode d)
  referrer-Single [] h = tt
  referrer-Single (c ∷ d) h = (h, tt)

  first_of_q :
      (time d : Text) (e : Option Text) (p : Page)
      → first (q encode time d e (init p)).0.ca_images
        ≡ some
            (some (codes "http://z.t.sohu.com/cc.gif?" ++ join (codes "&") (parts encode time d e)))
  unfolding q init
  first_of_q time d e p =
      elim p.ca_images
        as (λ xs.
          ◌≡◌ {A = Option (Option Text)}
            (first (q encode time d e (init (record p { ca_images = xs }))).0.ca_images)
            (some (
              some (
                codes "http://z.t.sohu.com/cc.gif?"
                ++ join (codes "&") (parts encode time d e))))) [ [] ↦ refl | x ∷ xs ↦ refl ]

  from-Single : (e : Option Text) → SourceSingle e → All Single (from_part encode e)
  from-Single none h = tt
  from-Single (some []) h = tt
  from-Single (some (c ∷ e)) h = (h, tt)

  parts-value_of :
      (time d : Text) (e : Option Text)
      → let ws = parts encode time d e in
        (value_of (codes "t") ws ≡ some time)
        × (value_of (codes "r") ws ≡ (if is_empty d then none else some (encode d)))
        × (value_of (codes "from") ws
            ≡ elim e [ none ↦ none | some f ↦ if is_empty f then none else some f ])
  unfolding parts
  parts-value_of time [] none = (refl, refl, refl)
  parts-value_of time [] (some []) = (refl, refl, refl)
  parts-value_of time [] (some (c ∷ e)) = (refl, refl, refl)
  parts-value_of time (a ∷ d) none = (refl, refl, refl)
  parts-value_of time (a ∷ d) (some []) = (refl, refl, refl)
  parts-value_of time (a ∷ d) (some (c ∷ e)) = (refl, refl, refl)

  -- Where neither the time, the encoded referrer nor the source has a `&`: once the image was added,
  -- `q` sets the address of the first image to that of cc.gif and a query. Taken apart at each `&`,
  -- the query gives the time under `t`, the encoded referrer under `r` unless the referrer is empty,
  -- and the source under `from` unless it is undefined or empty.
  pub q-init :
      (time d : Text) (e : Option Text) (p : Page)
      → Single time
      → Single (encode d)
      → SourceSingle e
      → (query : Text) × (first (q encode time d e (init p)).0.ca_images
          ≡ some (some (codes "http://z.t.sohu.com/cc.gif?" ++ query)))
        × (value_of (codes "t") (split b'&' query) ≡ some time)
        × (value_of (codes "r") (split b'&' query) ≡ (if is_empty d then none else some (encode d)))
        × (value_of (codes "from") (split b'&' query)
            ≡ elim e [ none ↦ none | some f ↦ if is_empty f then none else some f ])
  unfolding parts
  q-init time d e p ht hd he =
      let ws = referrer_part encode d ++ from_part encode e in
      let taken = split-join b'&' (codes "t=" ++ time) ws (
        ht,
        All-append (referrer_part encode d) (from_part encode e) (referrer-Single d hd)
            (from-Single e he),
      ) in
      let (t, r, f) = parts-value_of time d e in
      (
        join (codes "&") (parts encode time d e),
        first_of_q time d e p,
        ap (value_of (codes "t")) taken ∙ t,
        ap (value_of (codes "r")) taken ∙ r,
        ap (value_of (codes "from")) taken ∙ f,
      )
