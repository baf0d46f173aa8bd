-- ===== src/Tests/Probes.antt =====
-- The probes of a sandbox's pod at a router that takes the first match.
use k8s_sched_demo.Base.{
  ◌&&◌, text_eq, ◌++◌, if◌then◌else◌, ◌≡◌, ◌∷◌, text_eq_refl, [], codes, arith,
}
use k8s_sched_demo.MockSandbox.{
  root_handler, Handled, IsFirstMatch, Router, health_handler, new_server, probes_answered,
  ready_handler,
}
use k8s_sched_demo.Kube.Spec.{sandbox_container}
use k8s_sched_demo.Pool.{decimal_loop}

abbrev not_allowed : Handled
not_allowed = record root_handler { status_code = 405; body = [] }

abbrev first_match : Router
first_match [] method path = not_allowed
first_match (route ∷ routes) method path =
    if text_eq route.path path && text_eq route.method method
    then route.handler
    else first_match routes method path

first_match-IsFirstMatch : IsFirstMatch first_match
first_match-IsFirstMatch [] after route others =
    ground (arith, text_eq_refl route.path, text_eq_refl route.method)
first_match-IsFirstMatch (other ∷ before) after route (different, others) =
    ground (arith, different, first_match-IsFirstMatch before after route others)

probes_answered_example :
    let container = sandbox_container (codes "image") (codes "11") in
    let server = new_server first_match in
    (server.serve (codes "GET") container.liveness_probe.path ≡ health_handler)
    × (server.serve (codes "GET") container.startup_probe.path ≡ ready_handler)
    × (server.addr ≡ codes ":" ++ decimal_loop 20 container.liveness_probe.port [])
    × (server.addr ≡ codes ":" ++ decimal_loop 20 container.startup_probe.port [])
probes_answered_example =
    probes_answered first_match (codes "image") (codes "11") first_match-IsFirstMatch
