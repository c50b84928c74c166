-- ===== src/Marathon.antt =====
-- The dashboard of smc-base-server/src/main/webapp/marathon/js/marathon.js: the lightbox, the filter
-- over the list of applications, an application's model and view, and the form and the list of the
-- home page.
pub mod Lightbox
pub mod Filter
pub mod App
pub mod Form
pub mod Home
pub mod Entries
pub mod Terminal
pub mod Router
pub mod Template
pub mod Samples
pub mod Items
