-- ===== src/Panel/Toggling.antt =====
-- Loading and the end of it.
use base_service.Base.{
  ℕ, ◌+◌, ◌≡◌, refl, ap, ◌∙◌, Bool, true, false, none, some, List, [], ◌∷◌, ◌++◌, ==_refl, arith,
  ◌==◌,
}
use base_service.Panel.{
  Nodes, empty, item, overlay, info, container, Panel, calling, append, unwrap, overlays, infos,
  remove_overlay, remove_info, load, unload, panel_loading, overlay_end, info_end, handle,
  handle_all,
}

-- Content of the panel's own.
abbrev pub IsPlain : Nodes → Type 0
IsPlain empty = Unit
IsPlain (item k r) = IsPlain r
IsPlain _ = ⊥

-- An empty panel keeps the container.
abbrev pub kept : Nodes → Nodes
kept empty = container empty empty
kept n = n

-- A function on nodes that passes over the content of the panel's own.
over_plain :
    (f : Nodes → Nodes) (n m : Nodes)
    → IsPlain n
    → ((k : ℕ) (r : Nodes) → f (item k r) ≡ item k (f r))
    → f (append n m) ≡ append n (f m)
over_plain f empty m h e = refl
over_plain f (item k r) m h e = e k (append r m) ∙ ap (item k) (over_plain f r m h e)
over_plain f (overlay k r) m h e = absurd h
over_plain f (info k r) m h e = absurd h
over_plain f (container c r) m h e = absurd h

list_plain :
    (f : Nodes → List ℕ) (n m : Nodes)
    → IsPlain n
    → ((k : ℕ) (r : Nodes) → f (item k r) ≡ f r)
    → f (append n m) ≡ f m
list_plain f empty m h e = refl
list_plain f (item k r) m h e = e k (append r m) ∙ list_plain f r m h e
list_plain f (overlay k r) m h e = absurd h
list_plain f (info k r) m h e = absurd h
list_plain f (container c r) m h e = absurd h

append-empty : (n : Nodes) → append n empty ≡ n
append-empty empty = refl
append-empty (item k r) = ap (item k) (append-empty r)
append-empty (overlay k r) = ap (overlay k) (append-empty r)
append-empty (info k r) = ap (info k) (append-empty r)
append-empty (container c r) = ap (container c) (append-empty r)

unwrap-kept : (n : Nodes) → IsPlain n → unwrap (container n empty) ≡ kept n
unwrap-kept empty h = refl
unwrap-kept (item k r) h = ap (item k) (append-empty r)
unwrap-kept (overlay k r) h = absurd h
unwrap-kept (info k r) h = absurd h
unwrap-kept (container c r) h = absurd h

-- The info panel still stands in the container.
unwrap-append_info :
    (k : ℕ) (n : Nodes)
    → unwrap (container (append n (info k empty)) empty) ≡ append n (info k empty)
unwrap-append_info k empty = refl
unwrap-append_info k (item j r) = ap (item j) (append-empty (append r (info k empty)))
unwrap-append_info k (overlay j r) = ap (overlay j) (append-empty (append r (info k empty)))
unwrap-append_info k (info j r) = ap (info j) (append-empty (append r (info k empty)))
unwrap-append_info k (container c r) = ap (container c) (append-empty (append r (info k empty)))

-- A panel with no fade pending.
abbrev pub still : Nodes → ℕ → Panel
still n k = record { base = false; contents = n; fading_overlays = []; fading_infos = []; next = k }

-- A panel that fades the overlays and the info panels out of the contents.
abbrev faded : Bool → Nodes → List ℕ → List ℕ → ℕ → Panel
faded b c os is k = record {
  base = b;
  contents = c;
  fading_overlays = os;
  fading_infos = is;
  next = k + 1;
}

overlay_end_last :
    (b : Bool) (c : Nodes) (is : List ℕ) (k : ℕ)
    → overlay_end k (faded b c (k ∷ []) is k) ≡ faded false (unwrap (remove_overlay k c)) [] is k
unfolding overlay_end
overlay_end_last b c is k = rw (==_refl k) refl

info_end_last :
    (b : Bool) (c : Nodes) (os : List ℕ) (k : ℕ)
    → info_end k (faded b c os (k ∷ []) k) ≡ faded b (remove_info k c) os [] k
unfolding info_end
info_end_last b c os k = rw (==_refl k) refl

abbrev loaded : Nodes → ℕ → Nodes
loaded n k = container (append n (overlay k (info k empty))) empty

loading_ended :
    (n : Nodes) (k : ℕ)
    → IsPlain n
    → panel_loading none (panel_loading none (still n k))
      ≡ faded true (loaded n k) (k ∷ []) (k ∷ []) k
unfolding panel_loading unload load
loading_ended n k h =
    rw (list_plain overlays n (overlay k (info k empty)) h (λ _ _. refl))
      (rw (list_plain infos n (overlay k (info k empty)) h (λ _ _. refl)) refl)

without_info :
    (n : Nodes) (k : ℕ)
    → IsPlain n
    → unwrap (remove_overlay k (remove_info k (loaded n k))) ≡ kept n
without_info n k h =
    rw
      (
        over_plain (remove_info k) n (overlay k (info k empty)) h (λ _ _. refl),
        ==_refl k,
        over_plain (remove_overlay k) n (overlay k empty) h (λ _ _. refl),
        ==_refl k,
        append-empty n,
      )
      (unwrap-kept n h)

without_overlay :
    (n : Nodes) (k : ℕ) → IsPlain n → remove_info k (unwrap (remove_overlay k (loaded n k))) ≡ n
without_overlay n k h =
    rw
      (
        over_plain (remove_overlay k) n (overlay k (info k empty)) h (λ _ _. refl),
        ==_refl k,
        unwrap-append_info k n,
        over_plain (remove_info k) n (info k empty) h (λ _ _. refl),
        ==_refl k,
      )
      (append-empty n)

-- Called twice with no `setLoading` on a panel that is not loading and has only content of its own,
-- the plugin leaves the panel not loading and with the same content once both fades have ended;
-- where the info panel's fade ends first, an empty panel keeps an empty container.
pub panel_loading-panel_loading :
    (n : Nodes) (k : ℕ)
    → IsPlain n
    → (overlay_end k (info_end k (panel_loading none (panel_loading none (still n k))))
        ≡ still (kept n) (k + 1))
      × (info_end k (overlay_end k (panel_loading none (panel_loading none (still n k))))
          ≡ still n (k + 1))
panel_loading-panel_loading n k h =
    let l = loading_ended n k h in
    let c = loaded n k in
    (
      ap (λ p. overlay_end k (info_end k p)) l
          ∙ ap (overlay_end k) (info_end_last true c (k ∷ []) k)
          ∙ overlay_end_last true (remove_info k c) [] k
          ∙ ap (λ t. still t (k + 1)) (without_info n k h),
      ap (λ p. info_end k (overlay_end k p)) l
          ∙ ap (info_end k) (overlay_end_last true c (k ∷ []) k)
          ∙ info_end_last false (unwrap (remove_overlay k c)) [] k
          ∙ ap (λ t. still t (k + 1)) (without_overlay n k h),
    )

abbrev pub loaded_again : Nodes → ℕ → Panel
loaded_again n k =
    handle_all (calling (some true) ∷ calling (some false) ∷ calling (some true) ∷ []) (still n k)

abbrev two_overlays : Nodes → ℕ → Panel
two_overlays n k = record {
  base = true;
  contents =
      container
        (container (append n (overlay k (info k empty))) (overlay (k + 1) (info (k + 1) empty)))
        empty;
  fading_overlays = k ∷ [];
  fading_infos = k ∷ [];
  next = k + 1 + 1;
}

again : (n : Nodes) (k : ℕ) → IsPlain n → loaded_again n k ≡ two_overlays n k
unfolding handle_all handle panel_loading unload load
again n k h =
    rw (list_plain overlays n (overlay k (info k empty)) h (λ _ _. refl))
      (rw (list_plain infos n (overlay k (info k empty)) h (λ _ _. refl)) refl)

end_again :
    (n : Nodes) (k : ℕ)
    → IsPlain n
    → ((overlay_end k (two_overlays n k)).base ≡ false)
      × (overlays (overlay_end k (two_overlays n k)).contents ≡ (k + 1) ∷ [])
unfolding overlay_end
end_again n k h =
    let q : ((k + 1) == k) ≡ false = ground arith in
    let c = over_plain (remove_overlay k) n (overlay k (info k empty)) h (λ _ _. refl) in
    rw (==_refl k, q, c, ==_refl k)
      (refl, ap (λ xs. xs ++ (k + 1) ∷ []) (list_plain overlays n (info k empty) h (λ _ _. refl)))

-- Loading that is started again before the overlay of an ended loading has faded out: the end of
-- that fade takes the class off, while the overlay of the new loading stays shown.
pub overlay_end-handle_all :
    (n : Nodes) (k : ℕ)
    → IsPlain n
    → ((loaded_again n k).base ≡ true)
      × ((overlay_end k (loaded_again n k)).base ≡ false)
      × (overlays (overlay_end k (loaded_again n k)).contents ≡ (k + 1) ∷ [])
overlay_end-handle_all n k h = let e = end_again n k h in rw (again n k h) (refl, e.0, e.1)
