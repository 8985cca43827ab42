-- ===== src/Tests/Start.antt =====
-- The theorems on the mock server's start, at a concrete clock.
use pg_swarm.Base.{refl, []}
use pg_swarm.Js.{has}
use pg_swarm.Js.Text.{show, ◌⧺◌}
use pg_swarm.Mock.Fixtures.{Clock}
use pg_swarm.Mock.Fixtures.Start.{initial}
use pg_swarm.Mock.Fixtures.Start.Laws.{session_keeps_rule_sets}
use pg_swarm.Mock.RuleSets.Ids.{AllDistinct}
use pg_swarm.Mock.Server.RuleSets.{serve_all, IsBuiltin}
use pg_swarm.Tests.Server.{three_requests}

abbrev clock : Clock
clock = record { ago = λ n. show n ⧺ " seconds ago"; stringify = λ v. "{}" }

session_keeps_rule_sets_example :
    AllDistinct (serve_all three_requests (initial clock [] [])).rule_set_handlers
    × IsBuiltin "rs-default" (serve_all three_requests (initial clock [] [])).event_rule_sets
unfolding has
session_keeps_rule_sets_example =
    session_keeps_rule_sets clock [] [] three_requests
      ((refl, refl), ((refl, refl), ((refl, refl), tt)))
