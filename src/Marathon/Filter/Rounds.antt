-- ===== src/Marathon/Filter/Rounds.antt =====
-- The rounds of the filter, and what one change shows.
use base_service.Base.{
  ℕ, ◌+◌, ◌≡◌, refl, sym, ap, ◌∙◌, ◌⊎◌, inl, inr, Bool, false, Option, some, List, [], ◌∷◌, ◌++◌,
  map, arith, keep, length, length-append, All, if◌then◌else◌, Bool-cases, if_true, if_false,
}
use mathlib.Core.Bool.{true≢false}
use mathlib.Core.List.{map-append, append-nil, append_assoc}
use base_service.Text.{Text, ◌==ₜ◌, eq_of_==}
use base_service.Marathon.Filter.{
  AppElement, LiveFilter, Loop, hidden, matches, visit, visit_all, change,
}

-- Hidden, or displayed as the items were at the start.
abbrev pub IsUniform : Text → AppElement → Type 0
IsUniform old x = (x.display ≡ old) ⊎ (x.display ≡ hidden)

uniform_old :
    {old : Text} (x : AppElement)
    → IsUniform old x
    → (x.display ==ₜ hidden) ≡ false
    → x.display ≡ old
uniform_old x (inl h) e = h
uniform_old x (inr h) e = absurd (true≢false (sym (ap (λ d. d ==ₜ hidden) h) ∙ e))

keep-cons {ℓ} :
    {A : Type ℓ} (p : A → Bool) (x : A) (xs : List A)
    → keep p (x ∷ xs) ≡ keep p (x ∷ []) ++ keep p xs
keep-cons p x xs = elim (Bool-cases (p x)) [ inl e ↦ rw e refl | inr e ↦ rw e refl ]

loop_eq :
    {M : Type 0} {d e : List AppElement} {m n : ℕ} {s t : List (Option M)}
    → d ≡ e
    → m ≡ n
    → s ≡ t
    → ◌≡◌ {A = Loop M}
        (record { done = d; num = m; show = s })
        (record { done = e; num = n; show = t })
loop_eq p q r = λ i. record { done = p i; num = q i; show = r i }

show_item :
    (old : Text) (x : AppElement)
    → IsUniform old x
    → (if x.display ==ₜ hidden then record x { display = old } else x) ≡ record x { display = old }
show_item old x u = elim (Bool-cases (x.display ==ₜ hidden)) [
  | inl e ↦ if_true (record x { display = old }) x e
  | inr e ↦
      if_false (record x { display = old }) x e
      ∙ ap (λ d. record x { display = d }) (uniform_old x u e)
]

hide_item :
    (x : AppElement)
    → (if x.display ==ₜ hidden then x else record x { display = hidden })
      ≡ record x { display = hidden }
hide_item x = elim (Bool-cases (x.display ==ₜ hidden)) [
  | inl e ↦
      if_true x (record x { display = hidden }) e
      ∙ ap (λ d. record x { display = d }) (eq_of_== x.display hidden e)
  | inr e ↦ if_false x (record x { display = hidden }) e
]

module _ {M : Type 0} (lower : Text → Text) (get : Option Text → Option M) where
  -- The item as the filter leaves it.
  abbrev pub shown_as : Text → Text → AppElement → AppElement
  shown_as filter old x = record x { display = if matches lower get filter x then old else hidden }

  abbrev pub found : Text → List AppElement → List (Option M)
  found filter xs = map (λ x. get x.class_1) (keep (matches lower get filter) xs)

  -- The loop's variables after more rounds.
  abbrev after : Text → Text → List AppElement → Loop M → Loop M
  after filter old xs l = record {
    done = l.done ++ map (shown_as filter old) xs;
    num = l.num + length (keep (matches lower get filter) xs);
    show = l.show ++ found filter xs;
  }

  visit-after :
      (filter old : Text) (x : AppElement) (l : Loop M)
      → IsUniform old x
      → visit lower get filter old x l ≡ after filter old (x ∷ []) l
  unfolding visit
  visit-after filter old x l u = elim (Bool-cases (matches lower get filter x)) [
    | inl e ↦ rw e (loop_eq (ap (λ y. l.done ++ y ∷ []) (show_item old x u)) refl refl)
    | inr e ↦
        rw e (
          loop_eq (ap (λ y. l.done ++ y ∷ []) (hide_item x)) (omega arith)
            (sym (append-nil l.show)))
  ]

  visit_all-after :
      (filter old : Text) (xs : List AppElement) (l : Loop M)
      → All (IsUniform old) xs
      → visit_all lower get filter old xs l ≡ after filter old xs l
  unfolding visit_all
  visit_all-after filter old [] l u =
      loop_eq (sym (append-nil l.done)) (omega arith) (sym (append-nil l.show))
  visit_all-after filter old (x ∷ xs) l u =
      let p : AppElement → Bool = matches lower get filter in
      let tag : AppElement → Option M = λ y. get y.class_1 in
      let n : length (keep p (x ∷ xs)) ≡ length (keep p (x ∷ [])) + length (keep p xs) =
        ap length (keep-cons p x xs) ∙ length-append (keep p (x ∷ [])) (keep p xs) in
      ap (visit_all lower get filter old xs) (visit-after filter old x l u.0)
      ∙ visit_all-after filter old xs (after filter old (x ∷ []) l) u.1
      ∙ loop_eq (append_assoc l.done (shown_as filter old x ∷ []) (map (shown_as filter old) xs))
          (omega (arith, n))
          (append_assoc l.show (found filter (x ∷ [])) (found filter xs)
            ∙ ap (λ ys. l.show ++ ys)
                (sym
                  (ap (map tag) (keep-cons p x xs) ∙ map-append tag (keep p (x ∷ [])) (keep p xs))))

  -- The change handler displays exactly the items whose heading contains the value, both folded,
  -- as they were displayed at the start, and hides the others; it reports their number and their
  -- models in the order of the page, where each item was hidden or displayed as at the start.
  pub change-shown :
      (s : LiveFilter M)
      → All (IsUniform s.old_display) s.lis
      → change lower get s ≡ record s {
        lis = map (shown_as (lower s.value) s.old_display) s.lis;
        num_shown = length (keep (matches lower get (lower s.value)) s.lis);
        results = some (found (lower s.value) s.lis);
      }
  unfolding change
  change-shown s u =
      let l : Loop M = record { done = []; num = 0; show = [] } in
      let e = visit_all-after (lower s.value) s.old_display s.lis l u in
      let n : (after (lower s.value) s.old_display s.lis l).num
          ≡ length (keep (matches lower get (lower s.value)) s.lis) =
        omega arith in
      λ i. record s {
        lis = (e i).done;
        num_shown = (ap (λ r. r.num) e ∙ n) i;
        results = some (e i).show;
      }
