-- ===== src/Marathon/Lightbox/Synced.antt =====
-- That the lightbox shows what its model says, and who can close it.
use Prim.Native.String.{String}
use base_service.Base.{
  ◌+◌, ◌≡◌, refl, sym, subst, if-P, if_true, inl, inr, Bool-cases, ◌∙◌, Bool, true, false, Option,
  none, some, List, [], ◌∷◌,
}
use base_service.Marathon.Lightbox.{
  fresh, Action, opening, closing, dismissal, locking, unlocking, filling, coloring, clicking,
  perform, perform_all, Backbone, Lightbox, Spot, content_spot, closer, plain_spot, toggle,
  update_content, update_color, render, append, set_open, set_content, color, open_box, close,
  dismiss, lock, unlock, initialize, click,
}

-- `set` is silent only about a value that stays.
pub record Detects {C : Type 0} (b : Backbone C) : Type 0 where
  pub flag_stays : (o p : Bool) → b.flag_changes o p ≡ false → o ≡ p
  pub content_stays : (c d : Option C) → b.content_changes c d ≡ false → c ≡ d

module _ {C : Type 0} where
  pub record IsSynced (v : Lightbox C) : Type 0 where
    pub rendered_once : v.rendered ≡ true
    pub shown_open : v.shown ≡ v.model.opened
    pub drawn_content : v.drawn ≡ v.model.content_view

  module _ (b : Backbone C) where
    module _ (d : Detects b) where
      open d use {flag_stays, content_stays}

      set_open-IsSynced : (o : Bool) (v : Lightbox C) → IsSynced v → IsSynced (set_open b o v)
      unfolding set_open toggle
      set_open-IsSynced o v i = elim (Bool-cases (b.flag_changes v.model.opened o)) [
        | inl e ↦ rw e record {
          rendered_once = i.rendered_once;
          shown_open = refl;
          drawn_content = i.drawn_content;
        }
        | inr e ↦ rw e record {
          rendered_once = i.rendered_once;
          shown_open = i.shown_open ∙ flag_stays v.model.opened o e;
          drawn_content = i.drawn_content;
        }
      ]

      close-IsSynced : (v : Lightbox C) → IsSynced v → IsSynced (close b v)
      unfolding close
      close-IsSynced v i =
          set_open-IsSynced false (record v { closes = v.closes + 1 })
            (record {
              rendered_once = i.rendered_once;
              shown_open = i.shown_open;
              drawn_content = i.drawn_content;
            })

      dismiss-IsSynced : (v : Lightbox C) → IsSynced v → IsSynced (dismiss b v)
      unfolding dismiss
      dismiss-IsSynced v i = if-P IsSynced v.model.locked i (close-IsSynced v i)

      click-IsSynced : (path : List Spot) (v : Lightbox C) → IsSynced v → IsSynced (click b path v)
      unfolding click
      click-IsSynced [] v i = dismiss-IsSynced v i
      click-IsSynced (content_spot ∷ path) v i = i
      click-IsSynced (closer ∷ path) v i = click-IsSynced path (close b v) (close-IsSynced v i)
      click-IsSynced (plain_spot ∷ path) v i = click-IsSynced path v i

      update_content-IsSynced :
          (v : Lightbox C)
          → v.rendered ≡ true
          → v.shown ≡ v.model.opened
          → IsSynced (update_content v)
      unfolding update_content
      update_content-IsSynced v r s =
          let w : Lightbox C = record v { drawn = v.model.content_view } in
          let i : IsSynced w = record { rendered_once = r; shown_open = s; drawn_content = refl } in
          subst IsSynced (sym (if_true w v r)) i

      set_content-IsSynced : (c : C) (v : Lightbox C) → IsSynced v → IsSynced (set_content b c v)
      unfolding set_content update_content
      set_content-IsSynced c v i =
          elim (Bool-cases (b.content_changes v.model.content_view (some c))) [
            | inl e ↦ rw e (
                update_content-IsSynced
                  (record v { model = record v.model { content_view = some c } }) i.rendered_once
                  i.shown_open)
            | inr e ↦ rw e record {
              rendered_once = i.rendered_once;
              shown_open = i.shown_open;
              drawn_content = i.drawn_content ∙ content_stays v.model.content_view (some c) e;
            }
          ]

      color-IsSynced : (c : String) (v : Lightbox C) → IsSynced v → IsSynced (color b c v)
      unfolding color update_color
      color-IsSynced c v i = elim (Bool-cases (b.color_changes v.model.background_color c)) [
        | inl e ↦ rw e record {
          rendered_once = i.rendered_once;
          shown_open = i.shown_open;
          drawn_content = i.drawn_content;
        }
        | inr e ↦ rw e record {
          rendered_once = i.rendered_once;
          shown_open = i.shown_open;
          drawn_content = i.drawn_content;
        }
      ]

      perform-IsSynced : (a : Action C) (v : Lightbox C) → IsSynced v → IsSynced (perform b a v)
      unfolding perform open_box lock unlock
      perform-IsSynced opening v i = set_open-IsSynced true v i
      perform-IsSynced closing v i = close-IsSynced v i
      perform-IsSynced dismissal v i = dismiss-IsSynced v i
      perform-IsSynced locking v i = record {
        rendered_once = i.rendered_once;
        shown_open = i.shown_open;
        drawn_content = i.drawn_content;
      }
      perform-IsSynced unlocking v i = record {
        rendered_once = i.rendered_once;
        shown_open = i.shown_open;
        drawn_content = i.drawn_content;
      }
      perform-IsSynced (filling c) v i = set_content-IsSynced c v i
      perform-IsSynced (coloring c) v i = color-IsSynced c v i
      perform-IsSynced (clicking path) v i = click-IsSynced path v i

      perform_all-IsSynced :
          (acts : List (Action C)) (v : Lightbox C) → IsSynced v → IsSynced (perform_all b acts v)
      unfolding perform_all
      perform_all-IsSynced [] v i = i
      perform_all-IsSynced (a ∷ acts) v i =
          perform_all-IsSynced acts (perform b a v) (perform-IsSynced a v i)

      initialize-IsSynced : (c : Option C) → IsSynced (initialize b c)
      unfolding initialize append render toggle
      initialize-IsSynced none = record {
        rendered_once = refl;
        shown_open = refl;
        drawn_content = refl;
      }
      initialize-IsSynced (some c) =
          set_content-IsSynced c (append (toggle fresh))
            (record { rendered_once = refl; shown_open = refl; drawn_content = refl })

      -- Whatever is done with a lightbox after it was made, it is visible exactly if its model is
      -- open and shows its model's content, where `set` triggers a change unless the value stays.
      pub perform_all-initialize :
          (acts : List (Action C)) (c : Option C) → IsSynced (perform_all b acts (initialize b c))
      perform_all-initialize acts c =
          perform_all-IsSynced acts (initialize b c) (initialize-IsSynced c)
