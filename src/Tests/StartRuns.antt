-- ===== src/Tests/StartRuns.antt =====
-- The start of Server.c, its loop over the connections, and the reading of server_loc.txt in
-- Client.c.
use os_hw.Prelude.{
  ◌≡◌, ◌%◌, refl, true, false, none, some, List, [], ◌∷◌, arith, length, ltb, pos, minus_one,
}
use os_hw.Text.{codes, is_space}
use os_hw.Server.Accept.{Round, init_listener, accept_loop, max_parallel_connections}
use os_hw.Server.Accept.Slots
use os_hw.Server.Accept.Slots.{attempts, ignored, threads, failures, at_slot}
use os_hw.Server.Start.{Location, Startup, tcp_start}
use os_hw.Client.Locations
use os_hw.Client.Locations.{read_locations, start_all, listeners}

abbrev rounds : List Round
rounds =
    record { new_fd = some 4; rand = 700; creates = true }
    ∷ record { new_fd = none; rand = 0; creates = true }
    ∷ record { new_fd = some 5; rand = 10; creates = true }
    ∷ record { new_fd = some 6; rand = 20; creates = false }
    ∷ []

accept_loop_serves_example :
    let z = accept_loop (λ x. ltb x 512) rounds init_listener in
    (z.started ≡ threads 0 (attempts (λ x. ltb x 512) rounds))
    × (z.left_open ≡ failures (attempts (λ x. ltb x 512) rounds))
    × (z.dropped ≡ ignored (λ x. ltb x 512) rounds)
    × (z.thread_count ≡ length (attempts (λ x. ltb x 512) rounds) % max_parallel_connections)
accept_loop_serves_example = Slots.accept_loop_serves (λ x. ltb x 512) rounds

served : threads 0 (attempts (λ x. ltb x 512) rounds) ≡ at_slot 0 5 ∷ []
unfolding threads attempts
served = refl

abbrev good : Startup
good = record { getaddrinfo = pos 0; setsockopt = pos 0; listen = pos 0; opens = true }

abbrev bad : Startup
bad = record { getaddrinfo = pos 0; setsockopt = pos 0; listen = minus_one; opens = true }

abbrev starts : List (Startup × Location)
starts =
    (good, record { name = codes "alpha"; port = pos 5000 })
    ∷ (bad, record { name = codes "beta"; port = pos 5000 })
    ∷ (good, record { name = codes "gamma"; port = pos 5010 })
    ∷ []

read_locations-start_all_example :
    read_locations (length (listeners starts)) (start_all starts []) ≡ some (listeners starts)
unfolding listeners tcp_start is_space
read_locations-start_all_example = Locations.read_locations-start_all starts (ground arith)
