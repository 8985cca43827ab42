-- ===== src/Data/Connection/Laws.antt =====
-- What holds of the connection in every state that it can reach.
use pg_swarm.Base.{◌≡◌, refl, Bool, true, false, not, ◌&&◌, ◌||◌, if◌then◌else◌, arith}
use pg_swarm.Data.Connection.{
  Socket, absent, opened, closing, Link, connect, Event, socket_opens, socket_closes, socket_fails,
  timer_fires, unmounts, mounted, may_happen, react, is_there,
}

-- The states that the effect reaches from its first `connect`.
pub data Reaches : Link → Type 0 where
  begins : (made : Bool) → Reaches (connect made mounted)
  goes_on : {l : Link} (e : Event) → Reaches l → may_happen e l ≡ true → Reaches (react e l)

abbrev implies : Bool → Bool → Bool
implies a b = if a then b else true

abbrev is_absent : Socket → Bool
is_absent absent = true
is_absent _ = false

abbrev is_opened : Socket → Bool
is_opened opened = true
is_opened _ = false

abbrev is_closing : Socket → Bool
is_closing closing = true
is_closing _ = false

abbrev pub both_or_neither : Bool → Bool → Bool
both_or_neither a b = if a then b else not b

pub record IsSound (l : Link) : Type 0 where
  pub single : l.overlapped ≡ false
  pub timer_idle : implies l.timer (is_absent l.socket && l.alive) ≡ true
  pub loading : implies l.alive (l.polling || is_there l.socket) ≡ true
  pub opened_quiet : implies (l.alive && is_opened l.socket) (not l.polling && l.connected) ≡ true
  pub connected_there : implies l.connected (is_there l.socket) ≡ true
  pub referenced_there : implies l.alive (both_or_neither l.referenced (is_there l.socket)) ≡ true
  pub unmounted_quiet : implies (not l.alive) (not l.referenced && not l.timer) ≡ true
  pub unmounted_closes : implies (not l.alive) (is_absent l.socket || is_closing l.socket) ≡ true

connect-IsSound : (made : Bool) → IsSound (connect made mounted)
unfolding connect
connect-IsSound made = ground arith

react-IsSound : (e : Event) (l : Link) → may_happen e l ≡ true → IsSound l → IsSound (react e l)
unfolding react may_happen
react-IsSound socket_opens l h k = ground arith
react-IsSound socket_closes l h k = ground arith
react-IsSound socket_fails l h k = ground arith
react-IsSound (timer_fires made) l h k = ground arith
react-IsSound unmounts l h k = ground arith

-- In every state that the effect reaches: at most one socket was there at any time; a pending
-- reconnect means that no socket is there; while the provider is mounted, polling is on or a
-- socket is there, and over an open socket polling is off; after it is unmounted no reconnect is
-- pending.
pub Reaches-IsSound : {l : Link} → Reaches l → IsSound l
Reaches-IsSound (begins made) = connect-IsSound made
Reaches-IsSound (goes_on {l} e r h) = react-IsSound e l h (Reaches-IsSound r)

-- After a mounted provider loses its socket it polls, and the pending reconnect, when it makes a
-- socket that opens, ends the polling.
pub reconnects :
    {l : Link}
    → Reaches l
    → l.alive ≡ true
    → is_there l.socket ≡ true
    → ((react socket_closes l).polling ≡ true)
      × (may_happen (timer_fires true) (react socket_closes l) ≡ true)
      × ((react socket_opens (react (timer_fires true) (react socket_closes l))).polling ≡ false)
      × ((react socket_opens (react (timer_fires true) (react socket_closes l))).connected ≡ true)
unfolding react may_happen
reconnects {l} r alive there = rw alive (refl, refl, refl, refl)

-- If the provider is unmounted while its socket is there, the close event of that socket starts
-- the polling again, and no event of the effect is left that could stop it.
pub unmounts_leaves_polling :
    {l : Link}
    → Reaches l
    → l.alive ≡ true
    → is_there l.socket ≡ true
    → (may_happen socket_closes (react unmounts l) ≡ true)
      × ((react socket_closes (react unmounts l)).polling ≡ true)
      × ((e : Event) → may_happen e (react socket_closes (react unmounts l)) ≡ false)
unfolding react may_happen
unmounts_leaves_polling {l} r alive there =
    let v = Reaches-IsSound r in
    let held : l.referenced ≡ true = ground (arith, v.referenced_there) in
    (rw held refl, rw held refl, λ e. quiet e held)
  where
    quiet :
        (e : Event)
        → l.referenced ≡ true
        → may_happen e (react socket_closes (react unmounts l)) ≡ false
    quiet socket_opens h = rw h refl
    quiet socket_closes h = rw h refl
    quiet socket_fails h = rw h refl
    quiet (timer_fires made) h = rw h refl
    quiet unmounts h = rw h refl
