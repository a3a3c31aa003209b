-- ===== src/Control/Blocks.antt =====
-- iperf_client_api.c: the end of iperf_connect, which takes the size of the UDP blocks from the MSS of
-- the control connection.
pub mod Sizes
use expo_iperf.Common.{Bool, not, ◌&&◌, if◌then◌else◌, Option, none, some}
use expo_iperf.Common.Int.{ℤ, pos, ltb_ℤ, eq_ℤ}
use expo_iperf.Args.{Protocol, is_tcp}

abbrev pub max_udp_blocksize : ℤ
max_udp_blocksize = pos 65507

abbrev pub default_udp_blksize : ℤ
default_udp_blksize = pos 1460

-- What the end of iperf_connect leaves; `is_warned` is that the warning about fragmentation is given.
pub record BlockChoice : Type 0 where
  pub ctrl_sck_mss : ℤ
  pub blksize : ℤ
  pub is_warned : Bool

-- By the result of getsockopt for TCP_MAXSEG.
unfoldable pub control_mss : Option ℤ → ℤ
control_mss none = pos 0
control_mss (some opt) =
    if ltb_ℤ (pos 0) opt && not (ltb_ℤ max_udp_blocksize opt) then opt else pos 0

unfoldable pub choose_blksize : Protocol → ℤ → ℤ → ℤ
choose_blksize p mss n =
    if not (is_tcp p) && eq_ℤ n (pos 0)
    then (if not (eq_ℤ mss (pos 0)) then mss else default_udp_blksize)
    else n

unfoldable pub connect_blksize : Option ℤ → Protocol → ℤ → BlockChoice
unfolding control_mss choose_blksize
connect_blksize answer p n =
    let mss = control_mss answer in
    let chosen = choose_blksize p mss n in
    record {
      ctrl_sck_mss = mss;
      blksize = chosen;
      is_warned = not (is_tcp p) && (ltb_ℤ (pos 0) mss && ltb_ℤ mss chosen);
    }
