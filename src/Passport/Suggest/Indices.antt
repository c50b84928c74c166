-- ===== src/Passport/Suggest/Indices.antt =====
-- Where the suggestions come from: each is made of the entry at its index, and the indices rise.
use base_service.Base.{
  ℕ, suc, ◌+◌, ◌≤◌, ◌≡◌, ◌≢◌, refl, sym, ap, ◌∙◌, ◌⊎◌, true, false, Option, none, some, List, [],
  ◌∷◌, ◌++◌, arith, length, take, drop, get_elem?, All, All-concat,
}
use native.Mathlib.Numerals.{add-one}
use native.Mathlib.Nat.{add-zero, add-suc, suc-add}
use base_service.Text.{Text, last_index_of}
use base_service.Passport.Menu.{Item}
use base_service.Passport.Menu.Moves.{Rising}
use base_service.Passport.Suggest.{
  Settings, Typed, Scan, label, consider, outside_autopad, last_at_start, scan, no_items, postfixes,
  suggestions, split_address,
}
use base_service.Passport.Suggest.Entries.{at, IsClean, Outcome, skipped, domain_added, whole_added}
use base_service.Passport.Suggest.Outcomes.{consider-Outcome}

-- Item `x` is made of the string at its index among the entries `z`: a domain that may follow what
-- is typed, or a whole address that begins with the name; `autopad`, if set, holds the domain.
pub data Offers (o : Settings) (t : Typed) (z : List (Option Text)) (x : Item) : Type 0 where
  of_domain :
      (y : Text)
      → get_elem? z x.idx ≡ some (some y)
      → ((p : ℕ) → last_index_of y at ≢ some (suc p))
      → (t.host ≡ []) ⊎ (last_at_start y t.host ≡ true)
      → outside_autopad o y ≡ false
      → x.label ≡ label o t false y
      → Offers o t z x
  of_whole :
      (y : Text) (p : ℕ)
      → get_elem? z x.idx ≡ some (some y)
      → last_index_of y at ≡ some (suc p)
      → last_at_start (take (suc p) y) t.name ≡ true
      → outside_autopad o (drop (suc p + 1) y) ≡ false
      → x.label ≡ label o t true y
      → Offers o t z x

-- The indices rise from `lo` on and stay below `hi`.
abbrev pub Within : ℕ → List Item → ℕ → Type 0
Within lo [] hi = lo ≤ hi
Within lo (x ∷ xs) hi = (lo ≤ x.idx) × Within (x.idx + 1) xs hi

Within-concat :
    (lo : ℕ) (xs : List Item) (x : Item) → Within lo xs x.idx → Within lo (xs ++ x ∷ []) (x.idx + 1)
Within-concat lo [] x h = (h, omega arith)
Within-concat lo (y ∷ xs) x h = (h.0, Within-concat (y.idx + 1) xs x h.1)

Within-weaken : (lo hi : ℕ) (xs : List Item) → Within lo xs hi → Within lo xs (hi + 1)
Within-weaken lo hi [] h = omega arith
Within-weaken lo hi (x ∷ xs) h = (h.0, Within-weaken (x.idx + 1) hi xs h.1)

pub Within-Rising : (lo hi : ℕ) (xs : List Item) → Within lo xs hi → Rising lo xs
Within-Rising lo hi [] h = tt
Within-Rising lo hi (x ∷ xs) h = (h.0, Within-Rising (x.idx + 1) hi xs h.1)

module _ (o : Settings) (t : Typed) (zs : List (Option Text)) where
  -- What holds before index `j`.
  record IsScanned (j : ℕ) (s : Scan) : Type 0 where
    clean : IsClean s
    offers : All (Offers o t zs) s.items
    within : Within 0 s.items j

  IsScanned-items :
      (j : ℕ) (s r : Scan) (y : Text)
      → get_elem? zs j ≡ some (some y)
      → Outcome o t j y s r
      → IsClean r
      → IsScanned j s
      → IsScanned (suc j) r
  IsScanned-items j s r y e (skipped same) c h = record {
    clean = c;
    offers = rw same h.offers;
    within = rw (same, ← add-one) (Within-weaken 0 j s.items h.within);
  }
  IsScanned-items j s r y e (domain_added d host inside same) c h = record {
    clean = c;
    offers =
        rw same (All-concat (Offers o t zs) s.items h.offers (of_domain y e d host inside refl));
    within =
        rw (same, ← add-one)
          (Within-concat 0 s.items (record { label = label o t false y; idx = j }) h.within);
  }
  IsScanned-items j s r y e (whole_added p l starts inside same) c h = record {
    clean = c;
    offers =
        rw same (All-concat (Offers o t zs) s.items h.offers (of_whole y p e l starts inside refl));
    within =
        rw (same, ← add-one)
          (Within-concat 0 s.items (record { label = label o t true y; idx = j }) h.within);
  }

  IsScanned-skip : (j : ℕ) (s : Scan) → IsScanned j s → IsScanned (suc j) s
  IsScanned-skip j s h = record {
    clean = h.clean;
    offers = h.offers;
    within = rw (← add-one) (Within-weaken 0 j s.items h.within);
  }

  -- `z` is what is left of `zs` from index `j` on.
  scan-IsScanned :
      (j : ℕ) (z : List (Option Text)) (s : Scan)
      → ((i : ℕ) → get_elem? z i ≡ get_elem? zs (j + i))
      → IsScanned j s
      → IsScanned (j + length z) (scan o t j z s)
  unfolding scan
  scan-IsScanned j [] s rest h = rw add-zero h
  scan-IsScanned j (none ∷ z) s rest h =
      rw (add-suc, ← suc-add)
        (scan-IsScanned (suc j) z s (λ i. rest (suc i) ∙ ap (get_elem? zs) (omega arith))
          (IsScanned-skip j s h))
  scan-IsScanned j (some y ∷ z) s rest h =
      let (c, out) = consider-Outcome o t j y s h.clean in
      let at_j : get_elem? zs j ≡ some (some y) = ap (get_elem? zs) (omega arith) ∙ sym (rest 0) in
      rw (add-suc, ← suc-add)
        (scan-IsScanned (suc j) z (consider o t j y s)
          (λ i. rest (suc i) ∙ ap (get_elem? zs) (omega arith))
          (IsScanned-items j s (consider o t j y s) y at_j out c h))

abbrev pub typed : Text → Typed
typed l = record { name = (split_address l).0; host = (split_address l).1 }

suggestions-IsScanned :
    (o : Settings) (l : Text)
    → IsScanned o
        (typed l)
        (postfixes o l)
        (0 + length (postfixes o l))
        (scan o (typed l) 0 (postfixes o l) no_items)
suggestions-IsScanned o l =
    scan-IsScanned o (typed l) (postfixes o l) 0 (postfixes o l) no_items
      (λ i. ap (get_elem? (postfixes o l)) (omega arith))
      (record {
        clean = record { not_whole = refl; plain_domain = unfold last_index_of in refl };
        offers = tt;
        within = omega arith;
      })

-- Every suggestion is made of the entry at its index, and the indices rise, so none is repeated.
pub suggestions-Offers :
    (o : Settings) (l : Text)
    → All (Offers o (typed l) (postfixes o l)) (suggestions o l) × Rising 0 (suggestions o l)
unfolding suggestions
suggestions-Offers o l =
    let h = suggestions-IsScanned o l in
    (h.offers, Within-Rising 0 (0 + length (postfixes o l)) _ h.within)
