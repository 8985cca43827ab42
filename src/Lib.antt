-- ===== src/Lib.antt =====
-- The dashboard of pg-swarm: a browser application in React that shows and changes PostgreSQL
-- clusters, its client of the server's API, and the mock server that it is developed against.
--
-- Parts and files. Paths are from the repository's root.
-- - Mock, with its children: dashboard/mock/plugin.js. `State` is the object `state` of
--   `mockApiPlugin` with the arrays it shares with mock/data.js; Mock/Satellites, Mock/Clusters,
--   Mock/Profiles (profiles and deployment rules), Mock/Catalog (versions, variants, tiers and
--   parameters), Mock/EventRules and Mock/RuleSets hold one handler for each group of routes, a
--   function from the host, the request and the state to the new state and the reply;
--   Mock/Collection holds the idioms they share (find by id, filter by id, Object.assign);
--   Mock/Paths holds the splitting and matching of paths; Mock/Routes the tests of the routes in
--   their order; Mock/Server the middleware `serve`.
-- - Api, with its children: dashboard/src/api.js. Api holds `request` (`Sent` is its arguments,
--   `finish_request` what it makes of a response); Api/Satellites to Api/RuleSets hold the
--   functions of the object `api`, grouped as the routes are; Api/Calls joins them and sends
--   them to the mock server; Api/Effects, Api/Updates, Api/Creates and Api/Members say what the
--   calls do, seen through later calls.
-- - Data, with its children: dashboard/src/context/DataContext.jsx. Data holds the snapshot that
--   `refresh` and `applyWsState` write; Data/Connection the effect that keeps the WebSocket,
--   falls back to polling and reconnects (`connect`, `ws.onopen`, `ws.onclose`, `ws.onerror`,
--   the cleanup), as a step relation; Data/Operations the messages (`ws.onmessage`) and the
--   operations they write.
-- - Switchover, with its children: `switchoverOp`, `requestSwitchover`, `startSwitchover` and
--   `startMockSimulation` of dashboard/src/pages/ClusterDetail.jsx (Switchover/Merge,
--   Switchover/Simulation), and what dashboard/src/components/SwitchoverProgressModal.jsx
--   computes (Switchover/Modal).
-- - Mock/Fixtures, with its children: dashboard/mock/data.js, the objects that the mock server
--   starts with, row by row; Mock/Fixtures/Start is the `state` made of them. `ago` and
--   `JSON.stringify` are fields of `Clock`; the arrays `health` and `events` are arguments.
-- - Api/Status: `deriveSatState`, `timeAgo` and `parseSpec` of dashboard/src/api.js.
-- - Pages, with its children: dashboard/src/pages/SatelliteLogs.jsx (Pages/Logs and Pages/Csv: the buffer, the
--   filter, the selection and the escaping for CSV), dashboard/src/context/ThemeContext.jsx with
--   dashboard/src/components/MiniHeader.jsx (Pages/Theme),
--   dashboard/src/context/ToastContext.jsx (Pages/Toast: a toast's timer is pending from its
--   call until it fires), dashboard/src/components/Badge.jsx (Pages/Badges) and
--   dashboard/src/pages/Events.jsx (Pages/Events).
-- - Profiles, with its children: dashboard/src/pages/Profiles.jsx. Profiles/Page holds the state
--   and the handlers of the page (`save`, `confirmDelete`, `doClone` and the others, each with the
--   outcome of its call as a parameter), Profiles/Page/Cards and Profiles/Page/Dialogs what it
--   renders; Profiles/Catalog and Profiles/Spec the parameters, `emptySpec` and `startEdit`;
--   Profiles/Form the state and the updates of `ProfileForm`, its children the tabs, `BackupTab`
--   and `StorageClassSelect`; Profiles/Hba the rules of client authentication; Profiles/Changes
--   and Profiles/Report `computeSpecChanges` and `ConfirmReport`; Profiles/History
--   `parseSummaryChanges` and `VersionHistoryList`; Profiles/Cron `cronToText`.
-- - EventRules, with its children: dashboard/src/components/EventRulesTab.jsx. EventRules holds
--   `groupByCategory` and the calls of the panels (`save`, `del`), EventRules/Panels their tables,
--   EventRules/RuleModal and EventRules/Editors `RuleModal`, `ActionEditor`, `HandlerEditor` and
--   `RuleSetEditor`, and
--   EventRules/Manager `RuleSetHandlerManager`.
-- - View: what a component renders, as a tree whose controls carry what they do.
-- - Js, with its children: the JavaScript values these parts share, with reads and spreads
--   (Js/Props), the functions on texts (Js/Words) and the way through JSON (Js/Json). Base: the
--   library's names and the helpers on lists, options, tests and association lists. Tests: the theorems at
--   concrete inputs.
--
-- How they meet. A page calls a function of `api`; `wire` is the request that the mock server
-- receives; `serve` gives its state and reply; `finish_request` gives what the page's promise
-- becomes. The server's pushes reach the pages through Data/Operations and, for a switchover,
-- through Switchover/Merge and Switchover/Modal.
--
-- Reading the model. Objects are association lists in insertion order; that integer-like keys
-- come first, and properties of prototypes, are not modelled. Numbers are natural numbers, and
-- the percentage is rounded in exact arithmetic. Objects are values: the copies that the code
-- makes by spread are one level deep, and no modelled write goes through a shared inner object.
-- A request is one step with its body, `{}` where the text does not parse: null, or the properties
-- that a spread of the value copies. `json_object` is what JSON keeps of an object that a call sends;
-- the handlers of labels and tier mappings, which look up the satellite before the body arrives,
-- are taken at the later time. The path of a request is the one that Node's URL gives, and its
-- prefix is taken to be that of `req.url`; `limit` is the number in the query. `Date.now`, `Date.toISOString` and `decodeURIComponent` are fields
-- of `Host`. Ids of the client's calls are non-empty and made of ASCII letters, digits,
-- '-' and '_' (`IsId`), which `fetch`, `URL` and encodeURIComponent leave as they are. The
-- random lines of `generateLogs` and the event stream are symbolic replies. In Data/Connection the guards of the events are the
-- browser's promises: a socket opens at most once, closes once and tells nothing afterwards, and
-- a timer fires only if it is set; `overlapped` is a ghost of the model. It is one run of the effect:
-- the second run under StrictMode in development is not an event of it. In
-- Switchover/Simulation a tick carries whether React runs the update at once or late.
--
-- A view keeps the tags, the classes, the texts and the controls of the markup, in their order,
-- and leaves out styles, fixed icons, titles and placeholders. A profile's spec is read by `prop`,
-- which is undefined on a missing object, where the code's `.` throws; `is_spec` names the
-- objects that the form reads so, and Profiles/Form/Keeps is about the updates and this
-- shape. The change of case is that of ASCII letters, and the texts of
-- negative numbers are not parsed. `toLocaleString`, and `parseSpec` and `timeAgo` at the time of
-- the rendering, are parameters of the views.
--
-- Fuel. Paths are split by recursion on the text and logs by recursion on lists; printing a
-- number runs on a fuel above the number, which has fewer digits than that.
--
-- Not modelled: the health and the events among the fixtures, the markup of the pages but Profiles,
-- Events and EventRulesTab, the rows of
-- the download of logs,
-- the other pages of dashboard/src, the built bundle and the vendored packages under web/, and
-- the backend in Go.
pub mod Base
pub mod Js
pub mod Mock
pub mod Api
pub mod Data
pub mod Switchover
pub mod Pages
pub mod Tests
pub mod View
pub mod Profiles
pub mod EventRules
