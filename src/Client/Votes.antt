-- ===== src/Client/Votes.antt =====
-- A vote that a server sends is read back by the client as it was meant.
use os_hw.Prelude.{◌≡◌, ◌∷◌, ◌++◌, ℤ}
use os_hw.Text.{
  Text, IsWord, words-append_space, words_single, print_int, print_int-IsWord, scan_int-print_int,
  after_int-print_int,
}
use os_hw.Server.Table.{KeyVal}
use os_hw.Server.Handlers.{sendvno_msg}
use os_hw.Client.Connect.{scan_reply, scan_first, scan_fields}

-- The message of a vote with version, key and value fills the reply with these three, and leaves
-- its other fields.
pub scan_reply-sendvno_msg :
    (old : KeyVal) (vno : ℤ) (key value : Text)
    → IsWord key
    → IsWord value
    → scan_reply old (sendvno_msg vno key value)
      ≡ record old { vno = vno; key = key; value = value }
unfolding scan_reply scan_first scan_fields
scan_reply-sendvno_msg old vno key value h k = rw (
  words-append_space (print_int vno) (key ++ b' ' ∷ value) (print_int-IsWord vno),
  scan_first,
  scan_int-print_int vno,
  after_int-print_int vno,
  words-append_space key value h,
  words_single value k,
)
