-- ===== src/Lib.antt =====
-- The browser code of base-service: models of the JavaScript that the server's pages load, with
-- the theorems that make each part correct.
--
-- smc-base-server/src/main/webapp/js/tw.new.index.min.0.0.14.js has these parts. `$Timer` (Timer)
-- is an interval that calls a function, at most a given number of times; the record Timer holds
-- its variables, and start, pause, stop, setDelay and the function given to setInterval are
-- functions of the same names. `crImgScrollW` (Carousel) is an image carousel that moves a strip
-- of images under an interval and the clicks on its switches; a record holds its variables, the
-- style `left` of the strip and the animation that runs, and handle is one event of the page;
-- Carousel.Show is what it promises, without offsets and animations, and Carousel.Page is a
-- carousel and a timer that share the intervals. `PassportSC` (Passport) is the login card:
-- Passport.Suggest is fillEmailSelect, which fills a list of addresses from what is typed,
-- Passport.Menu is the choice in that list (downDSindex, findDSindex), and Passport.Card is the
-- form and its submission (drawLoginForm, autoFillUserId, doSelect, doLogin, loginFailCall),
-- Passport.Start is init, which makes the elements of the card, and Passport.Page has what starts
-- doLogin, the Enter key and the button, with drawPassportWait and showMsg. `CRTWCONFIG`
-- (Settings) is the table of settings with what the page gives over the defaults. `CA` and
-- `MSNLogin` (Beacon) report a visit by the address of an image and open the window of another
-- login.
--
-- smc-base-server/src/main/webapp/js/LogWebSocket.js (LogPane) appends the messages of a socket to
-- an element of the page.
--
-- smc-base-server/src/main/webapp/js/panelLoading.plugin.js (Panel) wraps the contents of a panel
-- while it is loading; the panel is a tree of nodes, and the end of a fade is an event.
--
-- smc-base-server/src/main/webapp/marathon/js/marathon.js (Marathon) is a dashboard of
-- applications. Marathon.Filter is fastLiveFilter, which hides the entries that do not match what
-- is typed, after a timeout that each key renews. Marathon.Lightbox is the model and the view of
-- the lightbox, with the clicks that close it. Marathon.App is Item.sync and scale and the entry
-- AppItemView, with suspend, destroy and scale, and Marathon.Entries is the list of these entries
-- on the home page, which share their models with the collection. Marathon.Form is FormView.save,
-- which reads the inputs and takes the list of URIs apart; its Order takes the data as an object,
-- a quotient of the lists of entries. Marathon.Home is HomeView, which joins the entries, the form
-- and the lightbox. Marathon.Terminal is the input with the text that repeats it and the caret.
-- Marathon.Router is Router, which makes the home page, and after the applications were fetched
-- the filter over the terminal's input; its Snapshot states what the parts do together.
-- Marathon.Template is the interpolation of the templates, Marathon.Items the list ItemsView, and
-- Marathon.Samples the table of applications; the page defines these two and does not run them.
--
-- smc-base-server/src/main/webapp/fuelux/sample has the data sources that comm/base.jsp loads:
-- DataSource is StaticDataSource.data of datasource.js, which searches, filters, sorts and cuts a
-- table after a timeout, with the options objects as a store that is read when the timeout ends
-- (DataSource.Answers), and DataSourceTree of datasourceTree.js; DataSource.Cities is the table of
-- data.js, as entries of a data source.
--
-- login.jsp, register.jsp and modifyUser.jsp of smc-base-server/src/main/webapp have scripts of
-- their own (Accounts), which test the fields and send them as a query; Accounts.Queries reads the
-- request as jQuery's ajax sends it, without what stands behind a `#`.
--
-- Browser has the timers of the page, on which Timer, Carousel and Marathon.Filter stand: the
-- identifiers that are scheduled, and the next one; Browser.Sharing is two parts of a page that
-- share them. Text has JavaScript strings as lists of code units, with lastIndexOf, indexOf, split
-- and join. Base has the shared helpers: Boolean tests, lists over the native numbers, integers
-- for pixel offsets. Dictionary has objects as lists of entries, for the form's data and the
-- settings.
--
-- Mutable objects are records that each operation returns anew; events are constructors, and a
-- session is a list of them. An exception is an outcome beside the state that it leaves. Numbers
-- in the modelled code are counters, indices and whole pixels, far below 2^53, and are natural
-- numbers or integers here. No recursion takes fuel: each is on a list, a text or a number of
-- rounds.
--
-- Parameters stand for what is outside the modelled files: whether set triggers a change, the
-- product of attributes and the writing of JSON (Marathon.Lightbox.Backbone,
-- Marathon.App.Backbone), what collection.create makes of data, the folding of case, the
-- collection's get and the text of a heading (Marathon.Home, Marathon.Filter, Marathon.Router),
-- what innerHTML reads after it was set and where an element is scrolled to (LogPane.Browser), the
-- trimming of a text (strip), the place of the fields on the page (Passport.Suggest.Page), the
-- rendering of a suggestion, what an expression of a template gives (Marathon.Items), jQuery's
-- extend (Settings), the comparison of an answer with 100 (Accounts), and JavaScript's numbers and
-- Underscore's sortBy (DataSource). Calls of jquery.sohu.tw.min.0.0.6.js, of timers and of the
-- server are recorded in the order in which they are made.
--
-- Not modelled: styles and markup that no operation reads; the wrappers that load and register a
-- file's code; panelLoading's sizes, colours and text; the copies of other projects' libraries
-- under smc-base-server/src/main/webapp (jQuery, Fuel UX's dist and lib, RequireJS, json2,
-- Backbone and others); and the Java modules of the repository.
pub mod Base
pub mod Browser
pub mod Text
pub mod Dictionary
pub mod Timer
pub mod Carousel
pub mod Passport
pub mod LogPane
pub mod Marathon
pub mod Beacon
pub mod Settings
pub mod Panel
pub mod DataSource
pub mod Accounts
