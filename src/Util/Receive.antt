-- ===== src/Util/Receive.antt =====
-- `recvTimeout` of Util.c, and how its callers read its result.
use os_hw.Prelude.{
  ◌≡◌, Option, none, some, ◌||◌, if◌then◌else◌, ℤ, pos, minus_one, eqb_ℤ, ltb_ℤ, ◌≤ℤ◌, arith,
}
use os_hw.Text.{Text}

-- `select` and `recv` are what the calls return; `recv` is called only if there is something.
unfoldable pub recv_timeout : (select recv : ℤ) → ℤ
recv_timeout select recv =
    if eqb_ℤ select minus_one then select else if eqb_ℤ select (pos 0) then select else recv

-- What a caller takes for a message, `msg` being what stands in its buffer: `putResponse` and
-- `serverThread` test for `res > 0`, `connectTo` for `rv == 0 || rv == -1`.
unfoldable pub server_received : (res : ℤ) → (msg : Text) → Option Text
server_received res msg = if ltb_ℤ (pos 0) res then some msg else none

unfoldable pub client_received : (rv : ℤ) → (msg : Text) → Option Text
client_received rv msg = if eqb_ℤ rv (pos 0) || eqb_ℤ rv minus_one then none else some msg

-- As `recv` returns no number below -1, the two tests agree.
pub server_received-client_received :
    (select recv : ℤ) (msg : Text)
    → minus_one ≤ℤ recv
    → server_received (recv_timeout select recv) msg
      ≡ client_received (recv_timeout select recv) msg
unfolding recv_timeout server_received client_received
server_received-client_received select recv msg h = ground arith
