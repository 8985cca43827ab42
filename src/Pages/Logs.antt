-- ===== src/Pages/Logs.antt =====
-- dashboard/src/pages/SatelliteLogs.jsx: the buffer of log entries, the filter by level and the
-- selection.
pub mod Laws
use pg_swarm.Base.{
  ℕ, zero, suc, ◌-◌, String, Bool, true, false, not, Option, none, some, List, [], ◌∷◌, ◌++◌, ◌==◌,
  if◌then◌else◌, ltb, leb, eqb, length, drop, filter, any,
}
use pg_swarm.Js.{Value, Object, get, is_str}

-- `LEVELS`
abbrev pub levels : List String
levels = "trace" ∷ "debug" ∷ "info" ∷ "warn" ∷ "error" ∷ []

-- `MAX_LOCAL`
abbrev pub max_local : ℕ
max_local = 5000

-- `xs.indexOf(v)`, none for -1
unfoldable pub index_of : List String → Value → Option ℕ
index_of [] v = none
index_of (x ∷ xs) v = if is_str v x then some 0 else after_first (index_of xs v)
  where
    after_first : Option ℕ → Option ℕ
    after_first none = none
    after_first (some n) = some (suc n)

abbrev or_zero : Option ℕ → ℕ
or_zero none = 0
or_zero (some n) = n

-- `levelPri`
unfoldable pub level_pri : Value → ℕ
unfolding index_of
level_pri l = or_zero (index_of levels l)

-- The update of `setLogs` for an entry of the stream.
unfoldable pub push_entry : List Object → Object → List Object
push_entry prev entry =
    let next = prev ++ entry ∷ [] in
    if ltb max_local (length next) then drop (length next - max_local) next else next

-- The entries of the stream, one after the other.
unfoldable pub push_all : List Object → List Object → List Object
unfolding push_entry
push_all logs [] = logs
push_all logs (e ∷ es) = push_all (push_entry logs e) es

-- `filtered`
unfoldable pub filtered : Value → List Object → List Object
unfolding level_pri
filtered filter_level logs =
    filter (λ e. leb (level_pri filter_level) (level_pri (get e "level"))) logs

-- The numbers of the set `selected`, without repetition.
unfoldable pub has_index : ℕ → List ℕ → Bool
has_index i selected = any (eqb i) selected

-- `toggleSelect`
unfoldable pub toggle_select : ℕ → List ℕ → List ℕ
unfolding has_index
toggle_select i selected =
    if has_index i selected then filter (λ j. not (eqb i j)) selected else selected ++ i ∷ []

-- `filtered.map((_, i) => i)`, from `i` on
abbrev indices_from : ℕ → List Object → List ℕ
indices_from i [] = []
indices_from i (e ∷ es) = i ∷ indices_from (suc i) es

-- `toggleSelectAll`
unfoldable pub toggle_select_all : List Object → List ℕ → List ℕ
toggle_select_all shown selected =
    if eqb (length selected) (length shown) then [] else indices_from 0 shown
