-- ===== src/Panel.antt =====
-- `panelLoading` of smc-base-server/src/main/webapp/js/panelLoading.plugin.js: a panel whose contents
-- are wrapped while it is loading. A list of nodes is a tree by first child and next sibling. The end
-- of a fade is an event, and so other calls can come before it. Styles are left out.
pub mod Trees
pub mod Ends
pub mod Toggling
mod Examples
use base_service.Base.{
  ℕ, ◌+◌, Bool, true, false, Option, none, some, List, [], ◌∷◌, ◌++◌, ◌==◌, ltb, length,
  if◌then◌else◌,
}
use base_service.Browser.{contains, remove}

-- Each constructor but `empty` is a node with the nodes behind it: the panel's own content, an
-- overlay and an info panel, by the number of the call that made them, and a container with its
-- contents.
pub data Nodes : Type 0 where
  empty : Nodes
  item overlay info : ℕ → Nodes → Nodes
  container : Nodes → Nodes → Nodes

-- `base` is the class `panel-loading-base-element`. The lists hold the nodes that fade out, each as
-- often as its queue holds such a fade; `next` is the number of the next call.
pub record Panel : Type 0 where
  pub base : Bool
  pub contents : Nodes
  pub fading_overlays : List ℕ
  pub fading_infos : List ℕ
  pub next : ℕ

abbrev pub append : Nodes → Nodes → Nodes
append empty n = n
append (item k r) n = item k (append r n)
append (overlay k r) n = overlay k (append r n)
append (info k r) n = info k (append r n)
append (container c r) n = container c (append r n)

-- `.contents().unwrap()` of the containers among the children: an empty one has no contents, and
-- stays.
abbrev pub unwrap : Nodes → Nodes
unwrap empty = empty
unwrap (item k r) = item k (unwrap r)
unwrap (overlay k r) = overlay k (unwrap r)
unwrap (info k r) = info k (unwrap r)
unwrap (container empty r) = container empty (unwrap r)
unwrap (container c r) = append c (unwrap r)

-- `find`, in the order of the document.
abbrev pub overlays : Nodes → List ℕ
overlays empty = []
overlays (item k r) = overlays r
overlays (overlay k r) = k ∷ overlays r
overlays (info k r) = overlays r
overlays (container c r) = overlays c ++ overlays r

abbrev pub infos : Nodes → List ℕ
infos empty = []
infos (item k r) = infos r
infos (overlay k r) = infos r
infos (info k r) = k ∷ infos r
infos (container c r) = infos c ++ infos r

-- `$(this).remove()` of an overlay, and of an info panel.
abbrev pub remove_overlay : ℕ → Nodes → Nodes
remove_overlay i empty = empty
remove_overlay i (item k r) = item k (remove_overlay i r)
remove_overlay i (overlay k r) =
    let rest = remove_overlay i r in if k == i then rest else overlay k rest
remove_overlay i (info k r) = info k (remove_overlay i r)
remove_overlay i (container c r) = container (remove_overlay i c) (remove_overlay i r)

abbrev pub remove_info : ℕ → Nodes → Nodes
remove_info i empty = empty
remove_info i (item k r) = item k (remove_info i r)
remove_info i (overlay k r) = overlay k (remove_info i r)
remove_info i (info k r) = let rest = remove_info i r in if k == i then rest else info k rest
remove_info i (container c r) = container (remove_info i c) (remove_info i r)

abbrev pub remove_load_stuff : Panel → Panel
remove_load_stuff p = record p { base = false; contents = unwrap p.contents }

-- The contents are wrapped, and the overlay and the info panel are appended to the container.
pub load : Panel → Panel
load p = record p {
  base = true;
  contents = container (append p.contents (overlay p.next (info p.next empty))) empty;
  next = p.next + 1;
}

-- Every overlay and info panel of the panel fades out.
pub unload : Panel → Panel
unload p =
    let q = if ltb (length (overlays p.contents)) 1 then remove_load_stuff p else p in
    record q {
      fading_overlays = p.fading_overlays ++ overlays p.contents;
      fading_infos = p.fading_infos ++ infos p.contents;
    }

-- With `setLoading`, `none` for null.
pub panel_loading : Option Bool → Panel → Panel
unfolding load unload
panel_loading none p = if p.base then unload p else load p
panel_loading (some true) p = load p
panel_loading (some false) p = unload p

-- The functions given to `fadeOut`. A node that is removed takes with it what its queue still holds.
pub overlay_end : ℕ → Panel → Panel
overlay_end k p =
    if contains p.fading_overlays k
    then remove_load_stuff (record p {
      contents = remove_overlay k p.contents;
      fading_overlays = remove k p.fading_overlays;
    })
    else p

pub info_end : ℕ → Panel → Panel
info_end k p =
    if contains p.fading_infos k
    then record p { contents = remove_info k p.contents; fading_infos = remove k p.fading_infos }
    else p

pub data Event : Type 0 where
  calling : Option Bool → Event
  overlay_ended info_ended : ℕ → Event

pub handle : Event → Panel → Panel
unfolding panel_loading overlay_end info_end
handle (calling s) p = panel_loading s p
handle (overlay_ended k) p = overlay_end k p
handle (info_ended k) p = info_end k p

pub handle_all : List Event → Panel → Panel
handle_all [] p = p
handle_all (e ∷ es) p = handle_all es (handle e p)
