-- ===== src/Panel/Trees.antt =====
-- The overlays and the info panels of a tree after it is changed.
use base_service.Base.{ℕ, ◌≡◌, refl, sym, ap, ◌∙◌, List, ◌∷◌, ◌++◌, ◌==◌, inl, inr, Bool-cases}
use mathlib.Core.Path.{ap₂}
use mathlib.Core.List.{append_assoc}
use base_service.Browser.{remove}
use base_service.Browser.Contains.{remove-append}
use base_service.Panel.{
  Nodes, empty, item, overlay, info, container, append, unwrap, overlays, infos, remove_overlay,
  remove_info,
}

overlays-append : (m n : Nodes) → overlays (append m n) ≡ overlays m ++ overlays n
overlays-append empty n = refl
overlays-append (item k r) n = overlays-append r n
overlays-append (overlay k r) n = ap (k ∷◌) (overlays-append r n)
overlays-append (info k r) n = overlays-append r n
overlays-append (container c r) n =
    ap (overlays c ++◌) (overlays-append r n)
    ∙ sym (append_assoc (overlays c) (overlays r) (overlays n))

infos-append : (m n : Nodes) → infos (append m n) ≡ infos m ++ infos n
infos-append empty n = refl
infos-append (item k r) n = infos-append r n
infos-append (overlay k r) n = infos-append r n
infos-append (info k r) n = ap (k ∷◌) (infos-append r n)
infos-append (container c r) n =
    ap (infos c ++◌) (infos-append r n) ∙ sym (append_assoc (infos c) (infos r) (infos n))

-- An empty container holds nothing, so it does not matter that it stays.
unwrap_container :
    (f : Nodes → List ℕ) (c r : Nodes)
    → f (container empty (unwrap r)) ≡ f (append empty (unwrap r))
    → f (unwrap (container c r)) ≡ f (append c (unwrap r))
unwrap_container f empty r h = h
unwrap_container f (item k c) r h = refl
unwrap_container f (overlay k c) r h = refl
unwrap_container f (info k c) r h = refl
unwrap_container f (container c d) r h = refl

-- Taking a container away keeps what stood in it.
pub overlays-unwrap : (n : Nodes) → overlays (unwrap n) ≡ overlays n
overlays-unwrap empty = refl
overlays-unwrap (item k r) = overlays-unwrap r
overlays-unwrap (overlay k r) = ap (k ∷◌) (overlays-unwrap r)
overlays-unwrap (info k r) = overlays-unwrap r
overlays-unwrap (container c r) =
    unwrap_container overlays c r refl
    ∙ overlays-append c (unwrap r)
    ∙ ap (overlays c ++◌) (overlays-unwrap r)

pub infos-unwrap : (n : Nodes) → infos (unwrap n) ≡ infos n
infos-unwrap empty = refl
infos-unwrap (item k r) = infos-unwrap r
infos-unwrap (overlay k r) = infos-unwrap r
infos-unwrap (info k r) = ap (k ∷◌) (infos-unwrap r)
infos-unwrap (container c r) =
    unwrap_container infos c r refl ∙ infos-append c (unwrap r) ∙ ap (infos c ++◌) (infos-unwrap r)

pub overlays-remove_overlay :
    (i : ℕ) (n : Nodes) → overlays (remove_overlay i n) ≡ remove i (overlays n)
overlays-remove_overlay i empty = refl
overlays-remove_overlay i (item k r) = overlays-remove_overlay i r
overlays-remove_overlay i (overlay k r) = elim (Bool-cases (k == i)) [
  | inl e ↦ rw e (overlays-remove_overlay i r)
  | inr e ↦ rw e (ap (k ∷◌) (overlays-remove_overlay i r))
]
overlays-remove_overlay i (info k r) = overlays-remove_overlay i r
overlays-remove_overlay i (container c r) =
    ap₂ ◌++◌ (overlays-remove_overlay i c) (overlays-remove_overlay i r)
    ∙ sym (remove-append i (overlays c) (overlays r))

pub infos-remove_overlay : (i : ℕ) (n : Nodes) → infos (remove_overlay i n) ≡ infos n
infos-remove_overlay i empty = refl
infos-remove_overlay i (item k r) = infos-remove_overlay i r
infos-remove_overlay i (overlay k r) = elim (Bool-cases (k == i)) [
  | inl e ↦ rw e (infos-remove_overlay i r)
  | inr e ↦ rw e (infos-remove_overlay i r)
]
infos-remove_overlay i (info k r) = ap (k ∷◌) (infos-remove_overlay i r)
infos-remove_overlay i (container c r) =
    ap₂ ◌++◌ (infos-remove_overlay i c) (infos-remove_overlay i r)

pub infos-remove_info : (i : ℕ) (n : Nodes) → infos (remove_info i n) ≡ remove i (infos n)
infos-remove_info i empty = refl
infos-remove_info i (item k r) = infos-remove_info i r
infos-remove_info i (overlay k r) = infos-remove_info i r
infos-remove_info i (info k r) = elim (Bool-cases (k == i)) [
  | inl e ↦ rw e (infos-remove_info i r)
  | inr e ↦ rw e (ap (k ∷◌) (infos-remove_info i r))
]
infos-remove_info i (container c r) =
    ap₂ ◌++◌ (infos-remove_info i c) (infos-remove_info i r)
    ∙ sym (remove-append i (infos c) (infos r))

pub overlays-remove_info : (i : ℕ) (n : Nodes) → overlays (remove_info i n) ≡ overlays n
overlays-remove_info i empty = refl
overlays-remove_info i (item k r) = overlays-remove_info i r
overlays-remove_info i (overlay k r) = ap (k ∷◌) (overlays-remove_info i r)
overlays-remove_info i (info k r) = elim (Bool-cases (k == i)) [
  | inl e ↦ rw e (overlays-remove_info i r)
  | inr e ↦ rw e (overlays-remove_info i r)
]
overlays-remove_info i (container c r) =
    ap₂ ◌++◌ (overlays-remove_info i c) (overlays-remove_info i r)
