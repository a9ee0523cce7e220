-- ===== src/Lib.antt =====
-- The web app of teleyes (apps/web/src, in TypeScript): the logic behind its pages. The backend
-- matches Telegram messages against rules and delivers offers; the app shows them live, edits the
-- rules, the sources and the recipients, and logs the admin in.
--
-- How the parts correspond to the code:
--
-- Price: utils/priceInput.ts (parsePriceInput and what it calls) in Price.Input; the printers of
--   components/ProductPanel.tsx and pages/RegrasPage.tsx in Price.Format. A price is a number of
--   cents. A regular expression is a function by clauses that reads the text it is tested on. A
--   number is printed with at most five groups of three digits behind the first, enough for every
--   safe amount.
-- Terms: utils/termList.ts in Terms.TermList, utils/ruleMatchPreview.ts in Terms.Preview and the
--   form of a rule of pages/RegrasPage.tsx in Terms.RuleForm; components/TermChipsInput.tsx in
--   Terms.Chips. `toLowerCase` and the Unicode tables are parameters.
-- Session: auth/AuthContext.tsx and auth/sessionRecovery.ts as one state with a step per run of a
--   callback (Session.Auth), and api/http.ts (Session.Http), where `fetch` and the answer of
--   requestReauth are parameters and the calls are listed in their order.
-- Listener: hooks/useListenerStatus.ts in Listener.Poll, components/listenerState.ts in
--   Listener.View.
-- Feed: hooks/useLiveMatches.ts, hooks/useProductPanel.ts, hooks/useToast.ts and
--   components/matchTitle.ts, where the folding of accents is a parameter; what pages/FeedPage.tsx
--   derives from its lists in Feed.Board, and the numbers of components/MatchCard.tsx in
--   Feed.Spark, where quotients are exact.
-- Chrome: chrome/scrollChrome.ts and theme/theme.ts.
-- Offers: utils/target.ts, utils/robustLowestPrice.ts, economia/summary.ts, economia/priceRange.ts
--   and the aggregates of economia/resultsCard.ts. A percentage is kept as the part and the whole
--   it is of.
-- Demo: demo-static/mockApi.ts, the API of the static demo, which the requests of Session.Http meet
--   in Demo.MockApiLaws, and the event source of demo-static/install.ts in Demo.Source.
-- History: the filters and the export of pages/HistoricoPage.tsx, and
--   hooks/usePersistentFilters.ts.
-- Health: pages/saudeModel.ts, hooks/useRecipientPreview.ts (Health.RecipientPreview), hooks/useHealth.ts (Health.Poll) and
--   components/deliveryStatus.ts.
-- Setup: the setup wizard. setup/validation.ts in Setup.Validation, setup/timers.ts in
--   Setup.Timers, setup/LoginStep.tsx in Setup.Login, setup/BotStep.tsx in Setup.Bot, whose loop of
--   polls is a step for every await, setup/CredentialsStep.tsx, setup/GroupsStep.tsx and
--   setup/RuleStep.tsx in Setup.Credentials, Setup.Groups and Setup.FirstRule, and
--   hooks/useSetupStatus.ts with the steps of pages/ConfiguracaoPage.tsx in Setup.Status.
--   Setup.Decimal prints a number in decimal; n + 1 rounds are enough for n, which is what
--   `value-decimal` says.
-- Writes: what the pages change. hooks/useDeleteListing.tsx in Writes.Deletion, the handlers of
--   pages/FeedPage.tsx in Writes.Actions, the two forms of components/ProductPanel.tsx in
--   Writes.Editor and Writes.Target, and `reportFailure` of api/demo.ts in Writes.Failures. The
--   answers of the server are the outcomes of Session.Http, the toasts those of Feed.Toast.
-- Rules: the form of a rule and its tester of pages/RegrasPage.tsx, in Rules.Rail and Rules.Steps;
--   that `termsError` finds a problem, which Terms.Preview models on code points, is a parameter.
--   An event is a handler and the render behind it, with the effect of the panel where the panel
--   changed.
-- Purchases: economia/PurchaseForm.tsx in Purchases.Form, pages/EconomiaPage.tsx in Purchases.Page
--   and Purchases.Steps.
-- Dates: utils/dates.ts; what `Date` does with a text is a parameter.
-- Sources: pages/sourceStats.ts and pages/recipientDelivery.ts.
--
-- All paths are below apps/web/src. A hook is a record of its state and refs with one function
-- for each callback; `step` chooses the callback of an event, and `run` folds it over any list
-- of events, so a theorem about `run` covers every interleaving of answers, timers, clicks and
-- navigations. In Setup.Login, Setup.Groups, Writes.Deletion, Writes.Editor, Purchases.Page,
-- Listener.Poll and Health.RecipientPreview the state lists the calls that are out and an answer
-- names its call by the place in that list (Common.Calls), so two calls can be out at once and
-- be answered in any order. A list of what was sent, asked or shown is added where a theorem
-- speaks of it. React's batching is not modelled: a callback's writes are seen by the next
-- event. A text is a list of UTF-16 code units (code points in Terms.Preview, whose regular
-- expressions have the flag `u`). Numbers are natural numbers; the amounts that JavaScript
-- cannot hold exactly are refused where the code refuses them. Every loop is a recursion on the
-- list or the text that it reads.
--
-- Not modelled: the rows of the table of pages/RegrasPage.tsx, the pages of the sources and of the
-- history beyond their models, LoginPage and SessionExpiredModal, which are planned; rendering, the
-- DOM beyond the attributes that the code sets, animations, the calls of the browser and of the
-- server except as the events that answer them, and the backend.
pub mod Common
pub mod Text
pub mod Price
pub mod Json
pub mod Purchases
pub mod Rules
pub mod Sources
pub mod Terms
pub mod Session
pub mod Setup
pub mod Writes
pub mod Listener
pub mod Feed
pub mod Chrome
pub mod Dates
pub mod Demo
pub mod Health
pub mod History
pub mod Offers
