-- ===== src/Args.antt =====
-- The command line of iperf_api.c: what `getopt_long` delivers, and the part of `struct iperf_test`
-- and `struct iperf_settings` that `iperf_parse_arguments` fills. The argument of an option is what
-- `atoi`, `strtol`, `unit_atoi` or `atof` make of its text. The build configuration is that of
-- iperf_config.h in this repository, where no optional feature is set.
pub mod Options
pub mod Parse
mod Outcomes
mod Steps
mod Frame
pub mod Direction
pub mod Ranges
pub mod Roles
pub mod Final
pub mod Ends
use expo_iperf.Common.{ℕ, Bool, true, false, ◌&&◌, if◌then◌else◌, List, Option}
use expo_iperf.Common.Int.{ℤ, pos, negsuc, ltb_ℤ}
use expo_iperf.Clock.{IperfTime}
use expo_iperf.Double.{Doubles}

-- The error numbers of iperf_api.h that parsing gives.
pub data ArgError : Type 0 where
  serv_client no_role server_only client_only duration num_streams block_size buf_size : ArgError
  interval mss no_sendfile omit unimp burst end_conditions udp_block_size bad_tos : ArgError
  bad_format reverse_bidir bad_port total_interval idle_timeout rcv_timeout : ArgError
  udp_file_transfer bind_dev_no_support : ArgError

-- `role`: not set, 'c' or 's'.
pub data Role : Type 0 where
  unset client server : Role

-- `enum iperf_mode`
pub data Mode : Type 0 where
  sender receiver bidirectional : Mode

pub data Protocol : Type 0 where
  tcp udp : Protocol

abbrev pub is_receiver : Mode → Bool
is_receiver receiver = true
is_receiver _ = false

abbrev pub is_tcp : Protocol → Bool
is_tcp tcp = true
is_tcp udp = false

abbrev pub is_role : Role → Role → Bool
is_role client client = true
is_role server server = true
is_role _ _ = false

-- Text as the bytes of a C string.
abbrev pub Text : Type 0
Text = List ℕ

module _ (D : Doubles) where
  open D use {Double}

  pub record Test : Type 0 where
    pub role : Role
    pub mode : Mode
    pub reverse : Bool
    pub bidirectional : Bool
    pub sender_has_retransmits : Bool
    pub protocol : Protocol
    pub server_hostname : Option Text
    pub bind_address : Option Text
    pub bind_port : ℤ
    pub server_port : ℤ
    pub omit : ℤ
    pub duration : ℤ
    pub diskfile_name : Option Text
    pub stats_interval : Double
    pub reporter_interval : Double
    pub num_streams : ℤ
    -- The fields of `settings`.
    pub domain : ℕ
    pub unit_format : ℕ
    pub socket_bufsize : ℤ
    pub blksize : ℤ
    pub rate : ℕ
    pub bitrate_limit : ℕ
    pub bitrate_limit_interval : Double
    pub bitrate_limit_stats_per_interval : ℕ
    pub pacing_timer : ℤ
    pub burst : ℤ
    pub mss : ℤ
    pub tos : ℤ
    pub bytes : ℕ
    pub blocks : ℕ
    pub connect_timeout : ℤ
    pub idle_timeout : ℤ
    pub rcv_timeout : IperfTime

  -- The options that are set to 1 or to a text and that nothing else in parsing reads.
  pub record Switches : Type 0 where
    pub daemon : Bool
    pub one_off : Bool
    pub verbose : Bool
    pub json_output : Bool
    pub json_stream : Bool
    pub no_delay : Bool
    pub repeating_payload : Bool
    pub timestamp_format : Option Text
    pub extra_data : Option Text
    pub title : Option Text
    pub pidfile : Option Text
    pub logfile : Option Text
    pub xbind_addrs : List Text
    pub debug : Bool
    pub debug_level : ℤ
    pub forceflush : Bool
    pub get_server_output : Bool
    pub udp_counters_64bit : Bool

  -- The local variables of `iperf_parse_arguments`, and what it fills.
  pub record Parsing : Type 0 where
    pub test : Test
    pub switches : Switches
    pub block_size : ℤ  -- `blksize`
    pub server_flag : Bool
    pub client_flag : Bool
    pub rate_flag : Bool
    pub duration_flag : Bool

  -- Cases of the `switch`, in the order of the source and in four groups.
  pub data BasicOption : Type 0 where
    port : ℤ → BasicOption
    format : ℕ → BasicOption
    set_interval : Double → BasicOption
    daemon one_off verbose json json_stream version server_role use_udp : BasicOption
    -- The host, and whether it names a device.
    client_role : Text → Bool → BasicOption

  pub data LoadOption : Type 0 where
    -- The text behind a slash comes first, if there is one.
    bitrate : Option ℤ → ℕ → LoadOption
    server_bitrate_limit : Option Double → ℕ → LoadOption
    time : ℤ → LoadOption
    bytes blockcount : ℕ → LoadOption
    length parallel window : ℤ → LoadOption
    reverse bidir : LoadOption

  pub data NetOption : Type 0 where
    bind : Text → Bool → NetOption
    client_port set_mss dscp : ℤ → NetOption
    no_delay version4 version6 flowlabel zerocopy repeating_payload : NetOption
    -- The number, if the text begins with one.
    tos : Option ℤ → NetOption
    extra_data xbind : Text → NetOption
    timestamps : Option Text → NetOption

  pub data RunOption : Type 0 where
    omit idle_timeout rcv_timeout pacing_timer connect_timeout : ℤ → RunOption
    file title pidfile logfile : Text → RunOption
    affinity congestion no_fq_socket_pacing fq_rate help unknown : RunOption
    debug : Option ℤ → RunOption
    forceflush get_server_output udp_counters_64bit : RunOption

  pub data CliOption : Type 0 where
    basic : BasicOption → CliOption
    load : LoadOption → CliOption
    net : NetOption → CliOption
    run : RunOption → CliOption

-- What parsing gives: a value, `i_errno` with -1, or the end of the process with its status.
pub data Outcome (A : Type 0) : Type 0 where
  ok : A → Outcome A
  err : ArgError → Outcome A
  exits : ℕ → Outcome A

infixl 5 ◌>>=◌ ◌>>◌
abbrev pub ◌>>=◌ : {A B : Type 0} → Outcome A → (A → Outcome B) → Outcome B
ok a >>= f = f a
err e >>= f = err e
exits n >>= f = exits n

abbrev pub ◌>>◌ : {B : Type 0} → Outcome (Unit {0}) → Outcome B → Outcome B
m >> k = m >>= λ _. k

-- `if (b) { i_errno = e; return -1; }`
abbrev pub refuse_if : Bool → ArgError → Outcome (Unit {0})
refuse_if true e = err e
refuse_if false e = ok tt

-- a ≤ z and z ≤ b, as the C code tests them
abbrev pub is_between : ℤ → ℤ → ℤ → Bool
is_between a b z = if ltb_ℤ z a then false else if ltb_ℤ b z then false else true
