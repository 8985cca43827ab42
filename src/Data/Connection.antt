-- ===== src/Data/Connection.antt =====
-- The effect of `DataProvider` in dashboard/src/context/DataContext.jsx that keeps a WebSocket open,
-- falls back to REST polling, and reconnects.
-- The browser's part is the guard of each event: a socket opens at most once and only while it
-- connects, closes once, and tells nothing afterwards; a timer fires if it is set.
pub mod Laws
use pg_swarm.Base.{Bool, true, false, not, ◌&&◌, ◌||◌, if◌then◌else◌, List, [], ◌∷◌}

-- The last WebSocket that was made; `closing` is one whose `close` was called.
pub data Socket : Type 0 where
  absent connecting opened closing : Socket

pub record Link : Type 0 where
  pub socket : Socket
  -- whether `wsRef.current` is set
  pub referenced : Bool
  -- `wsConnected`
  pub connected : Bool
  -- whether `pollRef.current` holds an interval
  pub polling : Bool
  -- whether `reconnectTimer` is pending
  pub timer : Bool
  -- the variable `alive` of the effect
  pub alive : Bool
  -- whether a socket was ever made while another was there; the program has no such variable
  pub overlapped : Bool

abbrev pub is_there : Socket → Bool
is_there absent = false
is_there _ = true

-- `startPolling` and `stopPolling`; starting also begins a refresh
unfoldable pub start_polling : Link → Link
start_polling l = record l { polling = true }

unfoldable pub stop_polling : Link → Link
stop_polling l = record l { polling = false }

open_socket : Link → Link
open_socket l = record l {
  socket = connecting;
  referenced = true;
  overlapped = l.overlapped || is_there l.socket;
}

-- `connect`; the constructor of the socket fails if `made` is false
unfoldable pub connect : Bool → Link → Link
unfolding open_socket start_polling
connect made l = if l.alive then (if made then open_socket l else start_polling l) else l

-- `ws.onopen`
unfoldable pub on_open : Link → Link
unfolding stop_polling
on_open l = stop_polling (record l { socket = opened; connected = true })

-- `ws.onclose`
unfoldable pub on_close : Link → Link
unfolding start_polling
on_close l =
    let idle =
      start_polling (record l { socket = absent; connected = false; referenced = false }) in
    if idle.alive then record idle { timer = true } else idle

-- `ws.onerror`: `ws.close()`
unfoldable pub on_error : Link → Link
on_error l = record l { socket = closing }

-- The function that the effect returns.
unfoldable pub cleanup : Link → Link
unfolding stop_polling
cleanup l =
    let quiet = stop_polling (record l { alive = false; timer = false }) in
    if quiet.referenced then record quiet { socket = closing; referenced = false } else quiet

-- The state in which the effect runs `connect` for the first time.
abbrev pub mounted : Link
mounted = record {
  socket = absent;
  referenced = false;
  connected = false;
  polling = false;
  timer = false;
  alive = true;
  overlapped = false;
}

pub data Event : Type 0 where
  socket_opens socket_closes socket_fails : Event
  timer_fires : (made : Bool) → Event
  unmounts : Event

abbrev pub is_connecting : Socket → Bool
is_connecting connecting = true
is_connecting _ = false

abbrev pub can_fail : Socket → Bool
can_fail connecting = true
can_fail opened = true
can_fail _ = false

unfoldable pub may_happen : Event → Link → Bool
may_happen socket_opens l = is_connecting l.socket
may_happen socket_closes l = is_there l.socket
may_happen socket_fails l = can_fail l.socket
may_happen (timer_fires made) l = l.timer
may_happen unmounts l = l.alive

-- One run of the effect; its second run under StrictMode is no event of it.
unfoldable pub react : Event → Link → Link
unfolding on_open on_close on_error connect cleanup
react socket_opens l = on_open l
react socket_closes l = on_close l
react socket_fails l = on_error l
react (timer_fires made) l = connect made (record l { timer = false })
react unmounts l = cleanup l
