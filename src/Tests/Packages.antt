-- ===== src/Tests/Packages.antt =====
-- The theorem on src/cmnd_linux/packages.py at a concrete file.
use linux_cmnd.Prelude.{◌≡◌, refl, length}
use linux_cmnd.Prelude.Chars.{codes}
use linux_cmnd.Packages.Ranges.{send_head, body, partial}
use linux_cmnd.Packages.Ranges.Exact.{Promised, send_head-Promised}

ranged : body (send_head 6 (codes "bytes=1-3")) (codes "abcdef") ≡ codes "bcd"
unfolding send_head body
ranged = refl

open_ended : send_head 6 (codes "bytes=4-") ≡ partial 4 5
unfolding send_head
open_ended = refl

send_head-Promised_example :
    Promised
      (codes "bytes=1-3")
      (send_head (length (codes "abcdef")) (codes "bytes=1-3"))
      (codes "abcdef")
send_head-Promised_example = send_head-Promised (codes "abcdef") (codes "bytes=1-3")
