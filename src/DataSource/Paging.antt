-- ===== src/DataSource/Paging.antt =====
-- The pages of a query: together they are the items found, each once and in order.
use base_service.Base.{
  ℕ, zero, suc, ◌+◌, ◌-◌, ◌*◌, ◌≤◌, ◌<◌, ◌≡◌, refl, sym, subst, ap, ◌∙◌, ◌⊎◌, inl, inr, Bool-cases,
  ltb, none, some, List, [], ◌∷◌, ◌++◌, arith, length, take, drop, length-take, length-drop,
  take-append-drop, drop-all,
}
use mathlib.Core.List.{append-nil}
use base_service.Text.{Text}
use base_service.DataSource.{
  Item, Numbers, Options, Page, StaticDataSource, page_count, cut, query, respond,
}

take_add {ℓ} :
    {A : Type ℓ} (a b c : ℕ) (xs : List A) → c ≡ a + b → take c xs ≡ take a xs ++ take b (drop a xs)
take_add zero b c xs h = let e : c ≡ b = omega arith in ap (λ k. take k xs) e
take_add (suc a) b zero xs h = absurd (omega arith)
take_add (suc a) zero (suc c) [] h = refl
take_add (suc a) (suc b) (suc c) [] h = refl
take_add (suc a) b (suc c) (x ∷ xs) h = ap (x ∷◌) (take_add a b c xs (omega arith))

take-all {ℓ} : {A : Type ℓ} (n : ℕ) (xs : List A) → length xs ≤ n → take n xs ≡ xs
take-all n xs h =
    sym (append-nil (take n xs))
    ∙ ap (take n xs ++◌) (sym (drop-all n xs h))
    ∙ take-append-drop n xs

-- Enough pages for every item, and no page too many.
page_count-covers :
    (count size k : ℕ)
    → page_count count size ≡ some k
    → (0 < size) × (count ≤ k * size) × (k * size < count + size)
page_count-covers count size k h = grind arith

-- Where a page inside the range starts, and one outside.
page_inside :
    (count size k index : ℕ) → page_count count size ≡ some k → index < k → index * size < count
page_inside count size k index h lt =
    let (pos, le, fits) = page_count-covers count size k h in
    let step : index * size + size ≤ k * size = grind arith in omega arith

page_outside :
    (count size k index : ℕ)
    → page_count count size ≡ some k
    → k ≤ index
    → (0 < size) × (count ≤ index * size)
page_outside count size k index h le =
    let (pos, covers, fits) = page_count-covers count size k h in
    let step : k * size ≤ index * size = grind arith in (pos, omega arith)

module _ {N : Type 0} where
  -- The items of the first pages, one page behind the other.
  abbrev pub first_pages : (ℕ → Page N) → ℕ → List (Item N)
  first_pages page zero = []
  first_pages page (suc k) = first_pages page k ++ (page k).items

  cut-take :
      (size k : ℕ) (xs : List (Item N))
      → first_pages (λ i. cut none i size xs) k ≡ take (k * size) xs
  unfolding cut
  cut-take size zero xs = let e : 0 ≡ 0 * size = omega arith in ap (λ n. take n xs) e
  cut-take size (suc k) xs =
      let e : k * size + size - k * size ≡ size = omega arith in
      let f : suc k * size ≡ k * size + size = grind arith in
      ap (λ ys. ys ++ take (k * size + size - k * size) (drop (k * size) xs)) (cut-take size k xs)
      ∙ ap (λ n. take (k * size) xs ++ take n (drop (k * size) xs)) e
      ∙ sym (take_add (k * size) size (suc k * size) xs f)

  pages_all :
      (size k : ℕ) (xs : List (Item N))
      → page_count (length xs) size ≡ some k
      → first_pages (λ i. cut none i size xs) k ≡ xs
  pages_all size k xs h =
      cut-take size k xs ∙ take-all (k * size) xs (page_count-covers (length xs) size k h).1

  -- A page that is reported, and one that is not.
  abbrev pub Covers : ℕ → ℕ → ℕ → Page N → Type 0
  Covers index size k p =
      ((index < k)
        × (1 ≤ p.start)
        × (p.start ≤ p.end)
        × (p.end ≤ p.count)
        × (length p.items + p.start ≡ p.end + 1)
        × (length p.items ≤ size))
      ⊎ ((k ≤ index) × (p.items ≡ []) × (p.end < p.start))

  cut_inside :
      (index size k : ℕ) (xs : List (Item N))
      → page_count (length xs) size ≡ some k
      → index < k
      → Covers index size k (cut none index size xs)
  unfolding cut
  cut_inside index size k xs h lt =
      let pos = page_inside (length xs) size k index h lt in
      let a = index * size in
      let rest = length-drop a xs in
      let part = length-take (a + size - a) (drop a xs) in inl (ground arith)

  cut_outside :
      (index size k : ℕ) (xs : List (Item N))
      → page_count (length xs) size ≡ some k
      → k ≤ index
      → Covers index size k (cut none index size xs)
  unfolding cut
  cut_outside index size k xs h le =
      let (pos, past) = page_outside (length xs) size k index h le in
      let gone = drop-all (index * size) xs past in
      let nothing =
        take-all (index * size + size - index * size) (drop (index * size) xs)
          (omega (arith, ap length gone)) in
      inr (le, nothing ∙ gone, ground arith)

  cut-Covers :
      (index size k : ℕ) (xs : List (Item N))
      → page_count (length xs) size ≡ some k
      → Covers index size k (cut none index size xs)
  cut-Covers index size k xs h = elim (Bool-cases (ltb index k)) [
    | inl e ↦ cut_inside index size k xs h (ground arith)
    | inr e ↦ cut_outside index size k xs h (ground arith)
  ]

module _ {N : Type 0} (n : Numbers N) (lower : Text → Text)
    (sort_by : Text → List (Item N) → List (Item N)) (s : StaticDataSource N) (o : Options)
    (k : ℕ) where
  -- The pages that a source without a formatter reports are together the items that were asked for,
  -- each once and in order.
  pub pages-query :
      s.formatter ≡ none
      → (respond n lower sort_by s o).pages ≡ some k
      → first_pages (λ i. respond n lower sort_by s (record o { page_index = i })) k
        ≡ query n lower sort_by s.table o
  unfolding respond cut query
  pages-query f h =
      let q = query n lower sort_by s.table o in
      ap (λ g. first_pages (λ i. cut g i o.page_size q) k) f ∙ pages_all o.page_size k q h

  -- A page that a source without a formatter reports starts at 1 or later, ends at the count of the
  -- items or before, and holds as many items as stand from its start to its end, at most the page
  -- size; a later page is empty and ends before its start.
  pub respond-Covers :
      s.formatter ≡ none
      → (respond n lower sort_by s o).pages ≡ some k
      → Covers o.page_index o.page_size k (respond n lower sort_by s o)
  unfolding respond cut
  respond-Covers f h =
      let q = query n lower sort_by s.table o in
      subst (λ g. Covers o.page_index o.page_size k (cut g o.page_index o.page_size q)) (sym f)
        (cut-Covers o.page_index o.page_size k q h)
