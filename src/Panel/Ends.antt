-- ===== src/Panel/Ends.antt =====
-- The fades after the end of the loading.
use base_service.Base.{
  ℕ, ◌≡◌, ◌≢◌, ◌⊎◌, refl, ap, false, List, [], ◌∷◌, ◌++◌, some, arith, All, length, ltb, inl, inr,
  Bool-cases,
}
use base_service.Browser.{contains}
use base_service.Browser.Contains.{
  IsWithin, IsWithin-append_right, IsWithin-remove, IsWithin-rest, IsWithin-skip, IsWithin-nil,
}
use base_service.Panel.{
  Panel, Event, calling, overlay_ended, info_ended, overlays, infos, remove_overlay, unload,
  panel_loading, overlay_end, info_end, handle, handle_all,
}
use base_service.Panel.Trees.{
  overlays-unwrap, infos-unwrap, overlays-remove_overlay, infos-remove_overlay, infos-remove_info,
  overlays-remove_info,
}

-- An event that ends a fade.
abbrev pub IsEnd : Event → Type 0
IsEnd (calling _) = ⊥
IsEnd (overlay_ended _) = Unit
IsEnd (info_ended _) = Unit

abbrev pub overlay_ends : List Event → List ℕ
overlay_ends [] = []
overlay_ends (calling _ ∷ es) = overlay_ends es
overlay_ends (overlay_ended k ∷ es) = k ∷ overlay_ends es
overlay_ends (info_ended _ ∷ es) = overlay_ends es

abbrev pub info_ends : List Event → List ℕ
info_ends [] = []
info_ends (calling _ ∷ es) = info_ends es
info_ends (overlay_ended _ ∷ es) = info_ends es
info_ends (info_ended k ∷ es) = k ∷ info_ends es

-- All overlays and info panels fade out, the pending fades are among those that end, and the class
-- is off or an overlay's fade is pending.
record Ends (os is : List ℕ) (p : Panel) : Type 0 where
  overlays_fade : IsWithin (overlays p.contents) p.fading_overlays
  infos_fade : IsWithin (infos p.contents) p.fading_infos
  overlays_end : IsWithin p.fading_overlays os
  infos_end : IsWithin p.fading_infos is
  class_off : (p.base ≡ false) ⊎ (p.fading_overlays ≢ [])

append-nil : (xs ys : List ℕ) → xs ++ ys ≡ [] → ys ≡ []
append-nil [] ys e = e
append-nil (x ∷ xs) ys e = absurd (cc)

unload-Ends :
    (os is : List ℕ) (p : Panel)
    → IsWithin (unload p).fading_overlays os
    → IsWithin (unload p).fading_infos is
    → Ends os is (unload p)
unfolding unload
unload-Ends os is p h i = elim (Bool-cases (ltb (length (overlays p.contents)) 1)) [
  | inl e ↦ rw e (record {
    overlays_fade =
        rw (overlays-unwrap p.contents)
          (IsWithin-append_right p.fading_overlays (overlays p.contents));
    infos_fade =
        rw (infos-unwrap p.contents) (IsWithin-append_right p.fading_infos (infos p.contents));
    overlays_end = h;
    infos_end = i;
    class_off = inl refl;
  })
  | inr e ↦ rw e (record {
    overlays_fade = IsWithin-append_right p.fading_overlays (overlays p.contents);
    infos_fade = IsWithin-append_right p.fading_infos (infos p.contents);
    overlays_end = h;
    infos_end = i;
    class_off = inr (λ q.
        let n = append-nil p.fading_overlays (overlays p.contents) q in
        absurd (ground (arith, ap length n)));
  })
]

overlay_end-Ends :
    (k : ℕ) (os is : List ℕ) (p : Panel) → Ends (k ∷ os) is p → Ends os is (overlay_end k p)
unfolding overlay_end
overlay_end-Ends k os is p h = elim (Bool-cases (contains p.fading_overlays k)) [
  | inl e ↦ rw e (record {
    overlays_fade =
        rw (overlays-unwrap (remove_overlay k p.contents), overlays-remove_overlay k p.contents)
          (IsWithin-remove k (overlays p.contents) p.fading_overlays h.overlays_fade);
    infos_fade =
        rw (infos-unwrap (remove_overlay k p.contents), infos-remove_overlay k p.contents)
          h.infos_fade;
    overlays_end = IsWithin-rest k p.fading_overlays os h.overlays_end;
    infos_end = h.infos_end;
    class_off = inl refl;
  })
  | inr e ↦ rw e (record {
    overlays_fade = h.overlays_fade;
    infos_fade = h.infos_fade;
    overlays_end = IsWithin-skip k p.fading_overlays os e h.overlays_end;
    infos_end = h.infos_end;
    class_off = h.class_off;
  })
]

info_end-Ends :
    (k : ℕ) (os is : List ℕ) (p : Panel) → Ends os (k ∷ is) p → Ends os is (info_end k p)
unfolding info_end
info_end-Ends k os is p h = elim (Bool-cases (contains p.fading_infos k)) [
  | inl e ↦ rw e (record {
    overlays_fade = rw (overlays-remove_info k p.contents) h.overlays_fade;
    infos_fade =
        rw (infos-remove_info k p.contents)
          (IsWithin-remove k (infos p.contents) p.fading_infos h.infos_fade);
    overlays_end = h.overlays_end;
    infos_end = IsWithin-rest k p.fading_infos is h.infos_end;
    class_off = h.class_off;
  })
  | inr e ↦ rw e (record {
    overlays_fade = h.overlays_fade;
    infos_fade = h.infos_fade;
    overlays_end = h.overlays_end;
    infos_end = IsWithin-skip k p.fading_infos is e h.infos_end;
    class_off = h.class_off;
  })
]

-- Nothing of the loading is left.
pub record IsQuiet (p : Panel) : Type 0 where
  pub no_class : p.base ≡ false
  pub no_overlay : overlays p.contents ≡ []
  pub no_info : infos p.contents ≡ []
  pub no_fade : (p.fading_overlays ≡ []) × (p.fading_infos ≡ [])

handle_all-Ends :
    (es : List Event) (p : Panel)
    → All IsEnd es
    → Ends (overlay_ends es) (info_ends es) p
    → IsQuiet (handle_all es p)
unfolding handle_all handle
handle_all-Ends [] p _ h =
    let os = IsWithin-nil p.fading_overlays h.overlays_end in
    let is = IsWithin-nil p.fading_infos h.infos_end in
    record {
      no_class = elim h.class_off [ inl e ↦ e | inr n ↦ absurd (n os) ];
      no_overlay =
          IsWithin-nil (overlays p.contents) (λ k m. h.overlays_end k (h.overlays_fade k m));
      no_info = IsWithin-nil (infos p.contents) (λ k m. h.infos_end k (h.infos_fade k m));
      no_fade = (os, is);
    }
handle_all-Ends (calling _ ∷ es) p a h = absurd a.0
handle_all-Ends (overlay_ended k ∷ es) p a h =
    handle_all-Ends es (overlay_end k p) a.1
      (overlay_end-Ends k (overlay_ends es) (info_ends es) p h)
handle_all-Ends (info_ended k ∷ es) p a h =
    handle_all-Ends es (info_end k p) a.1 (info_end-Ends k (overlay_ends es) (info_ends es) p h)

-- From any state of the panel, a call with `setLoading: false`, and then the ends of fades in any
-- order, every pending one among them, leave the class off, no overlay, no info panel and no
-- pending fade.
pub handle_all-panel_loading :
    (p : Panel) (es : List Event)
    → All IsEnd es
    → IsWithin (panel_loading (some false) p).fading_overlays (overlay_ends es)
    → IsWithin (panel_loading (some false) p).fading_infos (info_ends es)
    → IsQuiet (handle_all es (panel_loading (some false) p))
unfolding panel_loading
handle_all-panel_loading p es a h i =
    handle_all-Ends es (unload p) a (unload-Ends (overlay_ends es) (info_ends es) p h i)
