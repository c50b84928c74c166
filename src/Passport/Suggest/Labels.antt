-- ===== src/Passport/Suggest/Labels.antt =====
-- What the suggestions read.
use base_service.Base.{
  ℕ, zero, suc, ◌≡◌, ◌≢◌, refl, sym, ap, ◌∙◌, ◌⊎◌, inl, inr, Bool, true, false, Option, some, List,
  [], ◌∷◌, ◌++◌, arith, take, get_elem?, All, Bool-cases,
}
use base_service.Text.{Text, starts_with, last_index_of, starts_with_of_last_index}
use base_service.Passport.Menu.{Item}
use base_service.Passport.Suggest.{
  Settings, Typed, label, is_fixed, last_at_start, postfixes, suggestions,
}
use base_service.Passport.Suggest.Entries.{at, IsParts, split_address-IsParts}
use base_service.Passport.Suggest.Indices.{Offers, of_domain, of_whole, typed, suggestions-Offers}

starts_with_self : (s r : Text) → starts_with (s ++ r) s ≡ true
starts_with_self [] [] = refl
starts_with_self [] (_ ∷ _) = refl
starts_with_self (c ∷ s) r = ground (arith, starts_with_self s r)

starts_with-append_both : (s r t : Text) → starts_with (s ++ r) (s ++ t) ≡ starts_with r t
starts_with-append_both [] r t = refl
starts_with-append_both (c ∷ s) r t = ground (arith, starts_with-append_both s r t)

starts_with-take : (k : ℕ) (s t : Text) → starts_with (take k s) t ≡ true → starts_with s t ≡ true
starts_with-take zero s [] h = refl
starts_with-take zero s (_ ∷ _) h = cc
starts_with-take (suc k) [] t h = h
starts_with-take (suc k) (c ∷ s) [] h = refl
starts_with-take (suc k) (c ∷ s) (d ∷ t) h = ground (arith, starts_with-take k s t)

last_at_start-starts_with : (y m : Text) → last_at_start y m ≡ true → starts_with y m ≡ true
last_at_start-starts_with y m h = starts_with_of_last_index y m (ground arith)

-- Item `x` for what is typed, `l`: the name alone for `mobile` and `uniqname`; or a text that goes on
-- from `l`; or a whole address among the entries that goes on from the name in `l`.
abbrev pub Continues : Settings → Text → Item → Type 0
Continues o l x =
    (y : Text) × (get_elem? (postfixes o l) x.idx ≡ some (some y))
    × ((is_fixed y ≡ true) × (x.label ≡ (typed l).name)
        ⊎ (x.label ≡ (typed l).name ++ b'@' ∷ y) × (starts_with x.label l ≡ true)
        ⊎ (x.label ≡ y) × (starts_with y (typed l).name ≡ true))

starts_with_host :
    (t : Typed) (y : Text)
    → (t.host ≡ []) ⊎ (last_at_start y t.host ≡ true)
    → starts_with y t.host ≡ true
starts_with_host t y (inl e) = rw e
starts_with_host t y (inr h) = last_at_start-starts_with y t.host h

-- A domain behind the name goes on from the typed text.
starts_with_typed :
    (l y name host : Text)
    → IsParts l (name, host)
    → starts_with y host ≡ true
    → starts_with (name ++ b'@' ∷ y) l ≡ true
starts_with_typed l y name host (inl h) s = rw h.0 (starts_with_self name (b'@' ∷ y))
starts_with_typed l y name host (inr h) s =
    rw (h, starts_with-append_both name (b'@' ∷ y) (b'@' ∷ host)) s

label_fixed :
    (o : Settings) (t : Typed) (w : Bool) (y : Text) → is_fixed y ≡ true → label o t w y ≡ t.name
unfolding label
label_fixed o t w y e = rw e

label_domain :
    (o : Settings) (t : Typed) (y : Text)
    → is_fixed y ≡ false
    → o.use_postfix ≡ true
    → label o t false y ≡ t.name ++ b'@' ∷ y
unfolding label
label_domain o t y e u = rw (e, u)

label_whole :
    (o : Settings) (t : Typed) (y : Text)
    → is_fixed y ≡ false
    → o.use_postfix ≡ true
    → label o t true y ≡ y
unfolding label
label_whole o t y e u = rw (e, u)

Offers-Continues :
    (o : Settings) (l : Text) (x : Item)
    → o.use_postfix ≡ true
    → Offers o (typed l) (postfixes o l) x
    → Continues o l x
Offers-Continues o l x u (of_domain y e d host inside same) = elim (Bool-cases (is_fixed y)) [
  | inl f ↦ (y, e, inl (f, same ∙ label_fixed o (typed l) false y f))
  | inr f ↦
      let reads = same ∙ label_domain o (typed l) y f u in
      let begins =
        starts_with_typed l y (typed l).name (typed l).host (split_address-IsParts l)
          (starts_with_host (typed l) y host) in
      (y, e, inr (inl (reads, rw reads begins)))
]
Offers-Continues o l x u (of_whole y p e at_p starts inside same) = elim (Bool-cases (is_fixed y)) [
  | inl f ↦ (y, e, inl (f, same ∙ label_fixed o (typed l) true y f))
  | inr f ↦ (
    y,
    e,
    inr (
        inr (
          same ∙ label_whole o (typed l) y f u,
          starts_with-take (suc p) y (typed l).name
              (last_at_start-starts_with (take (suc p) y) (typed l).name starts),
        )),
  )
]

All-map {ℓ κ μ} :
    {A : Type ℓ} (P : A → Type κ) (Q : A → Type μ)
    → ((x : A) → P x → Q x)
    → (xs : List A) → All P xs
    → All Q xs
All-map P Q f [] h = tt
All-map P Q f (x ∷ xs) h = (f x h.0, All-map P Q f xs h.1)

-- With `usePostFix`, each suggestion for `l` is made of the entry at its index: the name in `l` alone
-- for `mobile` and `uniqname`; the name, an `@` and the entry, a text of which `l` is the beginning;
-- or the entry itself, of which the name is the beginning.
pub suggestions-Continues :
    (o : Settings) (l : Text) → o.use_postfix ≡ true → All (Continues o l) (suggestions o l)
suggestions-Continues o l u =
    All-map (Offers o (typed l) (postfixes o l)) (Continues o l) (λ x. Offers-Continues o l x u)
      (suggestions o l) (suggestions-Offers o l).0

not_last_at_start :
    (t : Typed) (k : ℕ) (y : Text)
    → t.host ≢ []
    → last_index_of y t.host ≡ some (suc k)
    → ¬ ((t.host ≡ []) ⊎ (last_at_start y t.host ≡ true))
not_last_at_start t k y h again (inl e) = h e
not_last_at_start t k y h again (inr e) = ground arith

Offers-repeat :
    (o : Settings) (t : Typed) (z : List (Option Text)) (j k : ℕ) (y : Text) (x : Item)
    → get_elem? z j ≡ some (some y)
    → t.host ≢ []
    → last_index_of y t.host ≡ some (suc k)
    → ((p : ℕ) → last_index_of y at ≢ some (suc p))
    → Offers o t z x
    → x.idx ≢ j
Offers-repeat o t z j k y x e h again plain (of_domain y' e' d host inside same) i =
    let y_eq : y' ≡ y = cc (sym e' ∙ ap (get_elem? z) i ∙ e) in
    not_last_at_start t k y h again (rw y_eq at host)
Offers-repeat o t z j k y x e h again plain (of_whole y' p e' at_p starts inside same) i =
    let y_eq : y' ≡ y = cc (sym e' ∙ ap (get_elem? z) i ∙ e) in plain p (rw y_eq at at_p)

-- A domain that begins with the typed host is not suggested if the host occurs in it once more:
-- `lastIndexOf` finds the later place.
pub suggestions_hide_repeat :
    (o : Settings) (l : Text) (j k : ℕ) (y : Text)
    → get_elem? (postfixes o l) j ≡ some (some y)
    → (typed l).host ≢ []
    → last_index_of y (typed l).host ≡ some (suc k)
    → ((p : ℕ) → last_index_of y at ≢ some (suc p))
    → All (λ x. x.idx ≢ j) (suggestions o l)
suggestions_hide_repeat o l j k y e h again plain =
    All-map (Offers o (typed l) (postfixes o l)) (λ x. x.idx ≢ j)
      (λ x. Offers-repeat o (typed l) (postfixes o l) j k y x e h again plain) (suggestions o l)
      (suggestions-Offers o l).0
