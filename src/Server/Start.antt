-- ===== src/Server/Start.antt =====
-- `main` of Server.c, and `tcpServer` up to its loop.
use os_hw.Prelude.{ℕ, Bool, not, List, [], ◌∷◌, ◌++◌, if◌then◌else◌, ℤ, pos, minus_one, eqb_ℤ}
use os_hw.Text.{Text, newline, atoi, print_int}
use os_hw.Server.Table.{Server, init_server}

-- The host and the port of a server.
pub record Location : Type 0 where
  pub name : Text
  pub port : ℤ

-- "%s %d\n"
abbrev pub location_line : Location → Text
location_line l = l.name ++ b' ' ∷ (print_int l.port ++ newline ∷ [])

-- What the system answers: the results of the calls, and whether server_loc.txt opens.
pub record Startup : Type 0 where
  pub getaddrinfo : ℤ
  pub setsockopt : ℤ
  pub listen : ℤ
  pub opens : Bool

-- `tcpServer` returns, the process exits, or the loop begins, and server_loc.txt has this content.
pub data TcpStart : Type 0 where
  returned : ℕ → TcpStart
  exited : ℕ → TcpStart
  listening : Text → TcpStart

-- A `bind` that fails is only reported: the run goes on with the closed socket, and what comes of it
-- is up to `listen`.
unfoldable pub tcp_start : Startup → Location → (server_loc : Text) → TcpStart
tcp_start sys here server_loc =
    if not (eqb_ℤ sys.getaddrinfo (pos 0))
    then returned 1
    else if eqb_ℤ sys.setsockopt minus_one
    then exited 1
    else if eqb_ℤ sys.listen minus_one
    then exited 1
    else if not sys.opens
    then exited 1
    else listening (server_loc ++ location_line here)

-- The end for a wrong number of arguments, or the globals and the start of `tcpServer`; the
-- probability is read by `atof`, which is left out.
pub data ServerStart : Type 0 where
  usage : ServerStart
  started : Server → (probability : Text) → TcpStart → ServerStart

-- The arguments from argv[1] on; `hostname` is what `gethostname` gives.
unfoldable pub main : Startup → (hostname : Text) → (server_loc : Text) → List Text → ServerStart
main sys hostname server_loc (port ∷ probability ∷ lier ∷ []) =
    started (init_server (atoi lier)) probability
      (tcp_start sys (record { name = hostname; port = atoi port }) server_loc)
main sys hostname server_loc [] = usage
main sys hostname server_loc (a ∷ []) = usage
main sys hostname server_loc (a ∷ b ∷ []) = usage
main sys hostname server_loc (a ∷ b ∷ c ∷ d ∷ more) = usage
