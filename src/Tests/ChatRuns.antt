-- ===== src/Tests/ChatRuns.antt =====
-- tcpclient.c on three lines.
use os_hw.Prelude.{◌≡◌, refl, true, false, some, [], ◌∷◌, arith}
use os_hw.Text.{Text, codes, text_eq}
use os_hw.Tcpclient.{Round, out_of_bounds, chatted, main}
use os_hw.Tcpclient.Quit

abbrev line : Text → Text → Round
line typed answer = record { typed = typed; received = some answer }

main_quit_example :
    main true true (
      line (codes "GET key1") (codes "value1")
      ∷ line (codes "Q") (codes "bye")
      ∷ line (codes "more") []
      ∷ [])
    ≡ chatted (
        out_of_bounds (record {
          is_open = false;
          sent = codes "GET key1" ∷ codes "Q" ∷ [];
          printed = codes "value1" ∷ [];
        }))
unfolding text_eq
main_quit_example =
    Quit.main_quit (line (codes "GET key1") (codes "value1") ∷ []) (line (codes "more") [] ∷ [])
      (line (codes "Q") (codes "bye"))
      ((omega arith, refl, (codes "value1", refl, omega arith, refl)), tt) (omega arith) refl
