-- ===== src/Mock.antt =====
-- dashboard/mock/plugin.js: the API server that the dashboard is developed against. Here are its
-- state, its requests and its replies; the children hold the routes and the handlers.
pub mod Collection
pub mod Satellites
pub mod Clusters
pub mod Profiles
pub mod Catalog
pub mod EventRules
pub mod RuleSets
pub mod Paths
pub mod Routes
pub mod Server
pub mod Fixtures
use pg_swarm.Base.{ℕ, String, Option, none, some, List, [], ◌∷◌, Bool, true, false}
use pg_swarm.Js.{Value, str, bool, Object}

-- `state` of `mockApiPlugin`, with the arrays `clusters`, `health` and `events` of mock/data.js,
-- which the handlers use directly.
pub record State : Type 0 where
  pub satellites : List Object
  pub clusters : List Object
  pub health : List Object
  pub events : List Object
  pub profiles : List Object
  pub deployment_rules : List Object
  pub postgres_versions : List Object
  pub postgres_variants : List Object
  pub storage_tiers : List Object
  pub pg_param_classifications : List Object
  pub event_rules : List Object
  pub event_actions : List Object
  pub event_handlers : List Object
  pub event_rule_sets : List Object
  pub rule_set_handlers : List (String × List Value)

-- What a handler reads of its host: `Date.now()` as text, the readings of
-- `new Date().toISOString()` in the order in which the handler makes them, and
-- `decodeURIComponent`, which is none where it throws.
pub record Host : Type 0 where
  pub date_now : String
  pub iso : ℕ → String
  pub decode : String → Option String

pub data Method : Type 0 where
  get post put delete : Method
  other : String → Method

-- `body` is what `JSON.parse` makes of the body, `{}` where the text does not parse: none for null,
-- and else the properties that a spread of the value copies. `limit` is the number in the query
-- parameter of that name.
pub record Request : Type 0 where
  pub method : Method
  pub pathname : String
  pub limit : Option ℕ
  pub body : Option Object

pub data Payload : Type 0 where
  list : List Object → Payload
  object : Object → Payload

-- `json(res, payload, status)`; `logs` is `json` of what `generateLogs(id, limit)` draws; `stream`
-- opens an event stream; `next` hands the request on; `fault` is an exception of the handler.
pub data Reply : Type 0 where
  json : ℕ → Payload → Reply
  logs : String → ℕ → Reply
  stream : String → Reply
  next fault : Reply

abbrev pub Handled : Type 0
Handled = State × Reply

-- What a spread or `Object.assign` copies of the body: of null, nothing.
abbrev pub props : Option Object → Object
props none = []
props (some b) = b

-- A handler that reads a property of the body before it writes, if `reads` holds; of null, the read
-- throws.
abbrev pub reads_body : Option Object → Bool → State → Handled → Handled
reads_body (some b) reads s handled = handled
reads_body none true s handled = (s, fault)
reads_body none false s handled = handled

-- `{ ok: true }`
abbrev pub ok_true : Payload
ok_true = object (("ok", bool true) ∷ [])

-- `{ error: text }`
abbrev pub error_text : String → Payload
error_text text = object (("error", str text) ∷ [])

-- `x || {}`
abbrev pub object_or_empty : Option Object → Payload
object_or_empty none = object []
object_or_empty (some o) = object o

-- `x || { error: 'not found' }`
abbrev pub object_or_error : Option Object → Payload
object_or_error none = error_text "not found"
object_or_error (some o) = object o

-- `x ? json(res, x) : json(res, { error: 'not found' }, 404)`
abbrev pub object_or_404 : Option Object → Reply
object_or_404 none = json 404 (error_text "not found")
object_or_404 (some o) = json 200 (object o)
