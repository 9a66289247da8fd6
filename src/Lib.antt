-- ===== src/Lib.antt =====
-- LinkFlow web console: the parts of web/src that keep state or translate data, and the theorems
-- that make them correct.
--
-- The console is a single-page application. Its pages call the services of the backend through one
-- client, show device data that arrives on one event stream, and keep the session, the preferences
-- and the inbox of events in three stores. The parts and their files:
--
-- - Prelude, Prelude/Tests, Prelude/Lists, Prelude/Keyed, Prelude/Results: shared names, Boolean
--   tests, lists over the native numbers, lists of rows with ids, and results of code that throws.
-- - Js, with Json, Object, Text, Number, Samples: JSON values, objects in the order of
--   `Object.entries`, `trim`, and the operations on numbers as a record `Numbers` over an abstract
--   type. Js/Object/Laws and Js/Object/Order have the laws of assignment and of the order of keys.
-- - Http: web/src/services/http/client.ts, what `apiRequest` makes of each outcome of a request.
-- - Stores/EventInbox: web/src/stores/eventInboxStore.ts (`pushEvent`, `markAllRead`, `markRead`).
--   Stores/AdminUi: web/src/stores/adminUiStore.ts (tabs, theme, language, `merge`). Stores/Auth:
--   web/src/stores/authStore.ts (`setSession`, `clearSession`).
-- - App: web/src/app.tsx and web/src/wrappers/AuthGuard.tsx. The error handler redirects to the
--   login and ends the session, the interceptor and the guard read the session store.
-- - AuthPages: web/src/pages/Auth/Login.tsx and Register.tsx, and `handleLogout` of
--   web/src/pages/Admin/index.tsx; AuthPages/Return has the way from a guarded page back to it.
-- - Shell: web/src/pages/Admin/index.tsx. The section of a path, the tabs and their closing, over
--   the store of Stores/AdminUi.
-- - Realtime: web/src/hooks/useDevicesRealtime.ts. The variables of the effect with the sockets
--   and timers of the browser are one state, each callback is a function on it (`connect`,
--   `scheduleReconnect`, `onopen`, `onclose`, the timer, `cleanup`), and Realtime/Events has the
--   steps that the browser can make. Realtime/Messages is `handleMessage`, Realtime/Dispatch what
--   it calls.
-- - ThingsModel: web/src/pages/Admin/ThingsModelManagement.tsx. Types are its rows, Build goes
--   from rows to JSON (`objectFromPropertyRows` and its like), Read from JSON to rows, and
--   RoundTrip relates the two
--   (RoundTrip/Alike says when two definitions are read into the same rows). Rows has the handlers of the rows and the validation, Editor/State
--   the state of the form, Editor its handlers, Editor/Submit `handleSubmit` and `handleDelete`,
--   with the answers of the services as arguments; Presets has the ready-made
--   definitions, Merge the definitions as texts.
-- - Devices: web/src/pages/Admin/DeviceManagement.tsx. The page's state, its updates by the stream
--   (`onConnectionChanged`, `onPropertyChanged`), the form; Devices/Handlers has `loadDevices`
--   (cut at its `await`, and in one piece where nothing comes in between),
--   `handleSubmit` and `handleDelete`, Devices/Effects what its effects read (as
--   ThingsModel/Editor/Effects does for the other page), Devices/SecretMap the secrets by device.
-- - PagedList: a list that is read page by page, as the pages of tenants, products and the audit log
--   keep it. The effect that reads it (with its clean-up) and `loadTenants` or `loadProducts` are
--   steps of a state with the pending requests; an event is one turn of the browser, and answers
--   arrive in any order. PagedList/Fresh says when what is shown is current, PagedList/Shows and
--   PagedList/Settles prove it of runs.
-- - EditPage: what web/src/pages/Admin/TenantManagement.tsx and ProductManagement.tsx have in common,
--   over a record PageOps of the page's rows, form, calls and messages: an asynchronous handler is
--   cut at its `await`s, and a part after an `await` has the page that the handler closed over as
--   an argument. EditPage/Events has the events of a page, EditPage/Refines their events of
--   PagedList. TenantPage and ProductPage fill the record; AuditLogPage is
--   web/src/pages/Admin/AuditLogManagement.tsx. Answers has the answers of calls and the notices.
-- - ServiceInput: web/src/pages/Admin/DevicePropertyManagement.tsx, `serviceInputParamsToRecord`.
-- - DeviceProperties: the rest of that page. Definitions and Inputs read the definitions of a model,
--   State is the page's state, Choose has the handlers of its controls, Readings, Trend, Histories
--   and HistoryEffects what it reads, Commands `handleSetProperties` and `handleCallService`, Live
--   the events of the stream and the inbox, Deliveries the inbox and the page together, Chart the
--   data of the trend's chart and the element it is drawn on, Panels the buttons that send. Defaults,
--   EventList, TrendBounds and Deliveries have the theorems.
-- - DataTable: web/src/pages/Admin/components/AdminDataTable.tsx, the page numbers.
-- - Services: web/src/services, a module per file, with the types of the backend's interface and
--   the method, address and payload of each request.
--
-- A file Examples has runs at concrete inputs. A `set` of a store is a function from the state to
-- the next state; code that throws gives the message of the error as a result; what the
-- environment decides (the clock, fresh row ids, whether the constructor of a socket throws, the
-- codes of closed sockets) is an argument. Parameters stand for the operations on numbers, for
-- `encodeURIComponent`, the reading of search parameters, `JSON.parse` and `JSON.stringify`;
-- AreNumbers in ThingsModel/RoundTrip/Spec says what the round trips rely on: a finite number prints
-- as a text that reads as the same number. Loops are structural recursion, so no fuel is needed. A
-- machine integer does not occur: the counter of the inbox is at most 20 and the delay at most 30000.
--
-- Not modelled: rendering, styles, animation and the drawing of charts; the rest of the panels of
-- the page of device properties; on the pages of devices, their properties and things models, the
-- order in which the answers of the effects arrive; persistence by the browser; the services in Go
-- under service and pkg, and the deployment.
pub mod Prelude
pub mod Js
pub mod Http
pub mod Services
pub mod Stores
pub mod App
pub mod AuthPages
pub mod Answers
pub mod PagedList
pub mod EditPage
pub mod TenantPage
pub mod ProductPage
pub mod AuditLogPage
pub mod DataTable
pub mod Devices
pub mod Shell
pub mod Realtime
pub mod ThingsModel
pub mod ServiceInput
pub mod DeviceProperties
