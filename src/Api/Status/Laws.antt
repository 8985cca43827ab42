-- ===== src/Api/Status/Laws.antt =====
-- What the derived state of a satellite and the relative times promise.
use pg_swarm.Base.{
  ℕ, suc, ◌*◌, ◌/◌, ◌≤◌, ◌<◌, ◌≡◌, refl, String, true, Option, none, some, ltb, arith, Bool-cases,
  inl, inr,
}
use pg_swarm.Js.{Value, str, Object, get}
use pg_swarm.Js.Text.{show, ◌⧺◌}
use pg_swarm.Api.Status.{is_stale, derive_sat_state, ago_text}

is_stale_later :
    (now later : ℕ) (t : Option ℕ) → now ≤ later → is_stale now t ≡ true → is_stale later t ≡ true
is_stale_later now later none le h = cc
is_stale_later now later (some t) le h = ground arith

-- A satellite that is offline at one time is offline at every later time, as long as its object
-- stays the same.
pub derive_sat_state_later :
    (time_of : Value → Option ℕ) (now later : ℕ) (sat : Object)
    → now ≤ later
    → derive_sat_state time_of now sat ≡ str "offline"
    → derive_sat_state time_of later sat ≡ str "offline"
unfolding derive_sat_state
derive_sat_state_later time_of now later sat le h =
    ground (arith, is_stale_later now later (time_of (get sat "last_heartbeat")) le)

-- The units of the texts.
pub data TimeUnit : Type 0 where
  seconds minutes hours days : TimeUnit

abbrev pub size : TimeUnit → ℕ
size seconds = 1
size minutes = 60
size hours = 3600
size days = 86400

abbrev pub suffix : TimeUnit → String
suffix seconds = "s ago"
suffix minutes = "m ago"
suffix hours = "h ago"
suffix days = "d ago"

-- A number and a unit that tell `s` seconds, rounded down.
pub record Tells (s : ℕ) (text : String) : Type 0 where
  pub number : ℕ
  pub scale : TimeUnit
  pub printed : text ≡ show number ⧺ suffix scale
  pub reached : number * size scale ≤ s
  pub not_next : s < suc number * size scale

-- The text for `s` seconds is a number and a unit, and the number is the count of whole units in
-- `s`.
pub ago_text-Tells : (s : ℕ) → Tells s (ago_text s)
unfolding ago_text
ago_text-Tells s = elim (Bool-cases (ltb s 60)) [
  | inl a ↦ record {
    number = s;
    scale = seconds;
    printed = rw a refl;
    reached = omega arith;
    not_next = omega arith;
  }
  | inr a ↦ elim (Bool-cases (ltb s 3600)) [
    | inl b ↦ record {
      number = s / 60;
      scale = minutes;
      printed = rw (a, b) refl;
      reached = omega arith;
      not_next = omega arith;
    }
    | inr b ↦ elim (Bool-cases (ltb s 86400)) [
      | inl c ↦ record {
        number = s / 3600;
        scale = hours;
        printed = rw (a, b, c) refl;
        reached = omega arith;
        not_next = omega arith;
      }
      | inr c ↦ record {
        number = s / 86400;
        scale = days;
        printed = rw (a, b, c) refl;
        reached = omega arith;
        not_next = omega arith;
      }
    ]
  ]
]
