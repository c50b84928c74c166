-- ===== src/Panel/Examples.antt =====
-- A panel with two nodes, and one that is loading.
use base_service.Base.{◌≡◌, true, false, some, none, List, [], ◌∷◌, arith}
use base_service.Browser.Contains.{IsWithin}
use base_service.Panel.{
  Nodes, empty, item, overlay, info, container, Panel, Event, overlay_ended, info_ended, overlays,
  panel_loading, unload, overlay_end, info_end, handle_all,
}
use base_service.Panel.Toggling.{
  still, loaded_again, panel_loading-panel_loading, overlay_end-handle_all,
}
use base_service.Panel.Ends.{IsQuiet, handle_all-panel_loading}

abbrev two : Nodes
two = item 1 (item 2 empty)

panel_loading-panel_loading_example :
    (overlay_end 0 (info_end 0 (panel_loading none (panel_loading none (still two 0))))
      ≡ still two 1)
    × (info_end 0 (overlay_end 0 (panel_loading none (panel_loading none (still two 0))))
        ≡ still two 1)
panel_loading-panel_loading_example = panel_loading-panel_loading two 0 tt

overlay_end-handle_all_example :
    ((loaded_again two 0).base ≡ true)
    × ((overlay_end 0 (loaded_again two 0)).base ≡ false)
    × (overlays (overlay_end 0 (loaded_again two 0)).contents ≡ 1 ∷ [])
overlay_end-handle_all_example = overlay_end-handle_all two 0 tt

-- Loading twice: two overlays are shown, and one of them already fades out.
abbrev busy : Panel
busy = record {
  base = true;
  contents =
      container (container (item 1 (item 2 (overlay 0 (info 0 empty)))) (overlay 1 (info 1 empty)))
        empty;
  fading_overlays = 0 ∷ [];
  fading_infos = 0 ∷ [];
  next = 2;
}

abbrev ends : List Event
ends = info_ended 1 ∷ overlay_ended 0 ∷ info_ended 0 ∷ overlay_ended 1 ∷ []

overlays_end : IsWithin (panel_loading (some false) busy).fading_overlays (0 ∷ 1 ∷ [])
unfolding panel_loading unload
overlays_end k m = ground (arith, m)

infos_end : IsWithin (panel_loading (some false) busy).fading_infos (1 ∷ 0 ∷ [])
unfolding panel_loading unload
infos_end k m = ground (arith, m)

handle_all-panel_loading_example : IsQuiet (handle_all ends (panel_loading (some false) busy))
handle_all-panel_loading_example =
    handle_all-panel_loading busy ends (tt, (tt, (tt, (tt, tt)))) overlays_end infos_end
