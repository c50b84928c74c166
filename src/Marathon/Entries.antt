-- ===== src/Marathon/Entries.antt =====
-- The entries of the home page of smc-base-server/src/main/webapp/marathon/js/marathon.js as views:
-- `HomeView` over `AppItemView`. A view and its model are named by their number, in the order in which
-- they were made, so that the page and the collection share each model. An entry is clicked while it
-- is on the page.
pub mod Places
pub mod Current
mod Examples
use base_service.Base.{
  ℕ, zero, suc, ◌+◌, Bool, true, false, List, [], ◌∷◌, ◌++◌, length, if◌then◌else◌,
}
use base_service.Browser.{contains, remove}
use base_service.Marathon.App
use base_service.Marathon.App.{Item, AppView, Backbone}

-- `collection` has the models and `shown` the entries before the add button, in their orders.
pub record Entries : Type 0 where
  pub views : List AppView
  pub collection : List ℕ
  pub shown : List ℕ

-- `created` is for a model whose identifier none of the collection has: another joins nothing.
pub data Event : Type 0 where
  created : Item → Event
  clicked : ℕ → App.Event → Event

-- Whether `destroy` goes on to the model.
abbrev pub destroys : App.Event → Bool
destroys (App.destroying ok) = ok
destroys (App.suspending ok) = false
destroys (App.scaling answer) = false

-- The element of the list at a place, changed.
abbrev pub modify {ℓ} : {A : Type ℓ} → ℕ → (A → A) → List A → List A
modify i f [] = []
modify zero f (x ∷ xs) = f x ∷ xs
modify (suc i) f (x ∷ xs) = x ∷ modify i f xs

-- The numbers of the next models.
abbrev pub numbers : ℕ → List Item → List ℕ
numbers n [] = []
numbers n (m ∷ ms) = n ∷ numbers (n + 1) ms

abbrev pub empty : Entries
empty = record { views = []; collection = []; shown = [] }

module _ (b : Backbone) where
  pub add : Item → Entries → Entries
  add m d = record d {
    views = d.views ++ App.render b (App.initialize b m) ∷ [];
    shown = d.shown ++ length d.views ∷ [];
  }

  pub render : List Item → Entries → Entries
  unfolding add
  render [] d = d
  render (m ∷ ms) d = render ms (add m d)

  -- `reset` of the collection.
  pub reset : List Item → Entries → Entries
  unfolding render
  reset ms d = render ms (record d { collection = numbers (length d.views) ms })

  -- The model joins the collection, which triggers `add`.
  pub create : Item → Entries → Entries
  unfolding add
  create m d = add m (record d { collection = d.collection ++ length d.views ∷ [] })

  -- A model that is destroyed leaves its collection.
  pub click : ℕ → App.Event → Entries → Entries
  click i e d =
      let views = modify i (App.handle b e) d.views in
      if destroys e
      then record { views = views; collection = remove i d.collection; shown = remove i d.shown }
      else record d { views = views }

  pub handle : Event → Entries → Entries
  unfolding create click
  handle (created m) d = create m d
  handle (clicked i e) d = if contains d.shown i then click i e d else d

  pub handle_all : List Event → Entries → Entries
  handle_all [] d = d
  handle_all (e ∷ es) d = handle_all es (handle e d)
