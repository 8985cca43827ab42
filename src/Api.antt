-- ===== src/Api.antt =====
-- dashboard/src/api.js: the client of the server's API. Here are the requests that its functions
-- send and what `request` makes of a response; the children hold the calls.
pub mod Paths
pub mod Satellites
pub mod Clusters
pub mod Storage
pub mod Profiles
pub mod Deployments
pub mod Catalog
pub mod Events
pub mod RuleSets
pub mod Calls
pub mod Effects
pub mod Updates
pub mod Creates
pub mod Members
pub mod Status
use pg_swarm.Base.{
  ℕ, String, Bool, Option, none, some, List, [], ◌∷◌, ◌&&◌, leb, eqb, if◌then◌else◌,
}
use pg_swarm.Js.{Value, str, Object, get, truthy}
use pg_swarm.Js.Text.{to_text}
use pg_swarm.Mock.{Method, Payload, list, object}

-- The arguments of `request(path, opts)`; the query string is apart from the path, and the body is
-- the object before `JSON.stringify`, `{}` where there is none.
pub record Sent : Type 0 where
  pub method : Method
  pub path : String
  pub query : Object
  pub body : Object

abbrev pub sent : Method → String → Object → Object → Sent
sent method path query body = record { method = method; path = path; query = query; body = body }

abbrev pub no_body : Object
no_body = []

-- What `fetch` resolves to; `parsed` is none where `res.json()` rejects.
pub record Response : Type 0 where
  pub status : ℕ
  pub status_text : String
  pub parsed : Option Payload

-- The `Error` that `request` throws.
pub record ApiError : Type 0 where
  pub message : String
  pub status : ℕ
  pub body : Payload

pub data Outcome : Type 0 where
  resolved : Payload → Outcome
  rejected : ApiError → Outcome
  bad_json : Outcome

-- `res.ok`
abbrev pub is_ok : Response → Bool
is_ok res = leb 200 res.status && leb res.status 299

-- `body.error || res.statusText`; an array has no property `error`
abbrev pub error_message : Payload → String → String
error_message (list _) text = text
error_message (object o) text = if truthy (get o "error") then to_text (get o "error") else text

-- `await res.json().catch(() => ({}))`
abbrev pub body_or_empty : Option Payload → Payload
body_or_empty none = object []
body_or_empty (some p) = p

parsed_or_reject : Option Payload → Outcome
parsed_or_reject none = bad_json
parsed_or_reject (some p) = resolved p

-- `request`, from the response on
unfoldable pub finish_request : Response → Outcome
unfolding parsed_or_reject
finish_request res =
    let body = body_or_empty res.parsed in
    if is_ok res
    then parsed_or_reject res.parsed
    else rejected
        (record { message = error_message body res.status_text; status = res.status; body = body })

-- `n || d` for a number or undefined
abbrev pub number_or : Option ℕ → ℕ → ℕ
number_or none d = d
number_or (some n) d = if eqb n 0 then d else n
