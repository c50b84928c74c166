-- ===== src/Passport.antt =====
-- The login card `PassportSC` of
-- smc-base-server/src/main/webapp/js/tw.new.index.min.0.0.14.js: `Menu` is the list of suggested
-- addresses, `Suggest` fills it from what is typed, and `Card` is the form and its submission. What
-- these functions call of jquery.sohu.tw.min.0.0.6.js is a parameter, or a call that is recorded.
pub mod Menu
pub mod Suggest
pub mod Card
pub mod Start
pub mod Page
