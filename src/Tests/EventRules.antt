-- ===== src/Tests/EventRules.antt =====
-- The theorems on the tab of event rules at concrete inputs.
use pg_swarm.Base.{String, ◌≡◌, refl, false, List, [], ◌∷◌, ◌==◌, filter}
use pg_swarm.Js.{str, Object}
use pg_swarm.Mock.RuleSets.{includes, lookup_ids}
use pg_swarm.Api.Paths.{is_plain}
use pg_swarm.Api.Members.{is_member}
use pg_swarm.EventRules.{category_of, group_by_category}
use pg_swarm.EventRules.Laws.{rules_of, total, group_by_category_parts}
use pg_swarm.EventRules.Manager.{Manager, has_id}
use pg_swarm.EventRules.Manager.Laws.{clicks, clicks_mirror}
use pg_swarm.Tests.{host, server}

abbrev three_rules : List Object
three_rules =
    (("name", str "a") ∷ ("category", str "Disk") ∷ [])
    ∷ (("name", str "b") ∷ [])
    ∷ (("name", str "c") ∷ ("category", str "Disk") ∷ [])
    ∷ []

group_by_category_parts_example :
    (rules_of "Disk" (group_by_category three_rules)
      ≡ filter (λ r. category_of r == "Disk") three_rules)
    × (total (group_by_category three_rules) ≡ 3)
group_by_category_parts_example = group_by_category_parts three_rules "Disk"

abbrev unchecked : Manager
unchecked = record { included = []; loading = false }

abbrev two_clicks : List String
two_clicks = "eh-1" ∷ "eh-2" ∷ []

clicks_mirror_example :
    has_id (str "eh-2") ((clicks host "rs-new" two_clicks (unchecked, server)).0.included)
    ≡ is_member ((clicks host "rs-new" two_clicks (unchecked, server)).1) "rs-new" "eh-2"
unfolding is_plain has_id is_member includes lookup_ids
clicks_mirror_example =
    clicks_mirror host "rs-new" two_clicks unchecked server (refl, refl)
      ((refl, refl), ((refl, refl), tt)) (λ j. refl) "eh-2"
