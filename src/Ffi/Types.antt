-- ===== src/Ffi/Types.antt =====
-- core-rs/core-ffi/src/types.rs: the records that cross the C interface, and the numbers that stand for
-- the states. A fixed array is a list of its length.
use netmon_polyglot.Engine.{Counters}
use netmon_polyglot.Alert.{Text, AlertSource, Severity}
use netmon_polyglot.Prelude.{◌-◌, replicate, ◌++◌, ℕ, String, List}
use netmon_polyglot.Flow.{FlowStats, FlowKey}
use netmon_polyglot.Net.{IpAddr, v4, v6}
use netmon_polyglot.Prelude.Int.{ℤ, pos, negsuc}

abbrev pub nc_abi_version : ℕ
nc_abi_version = 1

abbrev pub nc_addr_len : ℕ
nc_addr_len = 16

abbrev pub nc_rule_id_len : ℕ
nc_rule_id_len = 64

abbrev pub nc_message_len : ℕ
nc_message_len = 192

abbrev pub nc_device_name_len : ℕ
nc_device_name_len = 256

abbrev pub nc_family_ipv4 : ℕ
nc_family_ipv4 = 4

abbrev pub nc_family_ipv6 : ℕ
nc_family_ipv6 = 6

pub data NcStatus : Type 0 where
  ok_status null_arg invalid_arg state io capture no_library permission panicked rules format :
      NcStatus

-- `status as i32`
unfoldable pub status_code : NcStatus → ℤ
status_code ok_status = pos 0
status_code null_arg = negsuc 0
status_code invalid_arg = negsuc 1
status_code state = negsuc 2
status_code io = negsuc 3
status_code capture = negsuc 4
status_code no_library = negsuc 5
status_code permission = negsuc 6
status_code panicked = negsuc 7
status_code rules = negsuc 8
status_code format = negsuc 9

-- `alert.source as u32` and `alert.severity as u32`; the discriminants agree with `NcAlertSource` and
-- `NcSeverity`.
unfoldable pub source_code : AlertSource → ℕ
source_code AlertSource.rule = 0
source_code AlertSource.anomaly = 1

unfoldable pub severity_code : Severity → ℕ
severity_code Severity.low = 1
severity_code Severity.medium = 2
severity_code Severity.high = 3
severity_code Severity.critical = 4

pub data NcCaptureState : Type 0 where
  idle running finished failed : NcCaptureState

unfoldable pub capture_code : NcCaptureState → ℕ
capture_code idle = 0
capture_code running = 1
capture_code finished = 2
capture_code failed = 3

pub data NcAnalyticsState : Type 0 where
  off connecting connected : NcAnalyticsState

unfoldable pub analytics_code : NcAnalyticsState → ℕ
analytics_code off = 0
analytics_code connecting = 1
analytics_code connected = 2

pub record NcConfig : Type 0 where
  pub max_flows : ℕ
  pub flow_idle_timeout_ms : ℕ
  pub top_n : ℕ
  pub snaplen : ℕ
  pub link_type : ℕ

pub record NcStats : Type 0 where
  pub packets : ℕ
  pub bytes : ℕ
  pub ipv4 : ℕ
  pub ipv6 : ℕ
  pub tcp : ℕ
  pub udp : ℕ
  pub icmp : ℕ
  pub other_l4 : ℕ
  pub non_ip : ℕ
  pub fragments : ℕ
  pub dns : ℕ
  pub dns_errors : ℕ
  pub parse_errors : ℕ
  pub active_flows : ℕ
  pub evicted_flows : ℕ
  pub expired_flows : ℕ
  pub last_ts_us : ℕ
  pub capture_dropped : ℕ
  pub alerts_total : ℕ
  pub alerts_dropped : ℕ
  pub capture_state : ℕ
  pub rules_loaded : ℕ
  pub analytics_state : ℕ
  pub analytics_sent : ℕ
  pub analytics_dropped : ℕ

unfoldable pub from_counters : Counters → NcStats
from_counters c = record {
  packets = c.packets;
  bytes = c.bytes;
  ipv4 = c.ipv4;
  ipv6 = c.ipv6;
  tcp = c.tcp;
  udp = c.udp;
  icmp = c.icmp;
  other_l4 = c.other_l4;
  non_ip = c.non_ip;
  fragments = c.fragments;
  dns = c.dns;
  dns_errors = c.dns_errors;
  parse_errors = c.parse_errors;
  active_flows = 0;
  evicted_flows = 0;
  expired_flows = 0;
  last_ts_us = 0;
  capture_dropped = 0;
  alerts_total = 0;
  alerts_dropped = 0;
  capture_state = 0;
  rules_loaded = 0;
  analytics_state = 0;
  analytics_sent = 0;
  analytics_dropped = 0;
}

-- The octets in an array of 16 bytes, and the family.
unfoldable pub addr_bytes : IpAddr → List ℕ × ℕ
addr_bytes (v4 octets) = (octets ++ replicate (nc_addr_len - 4) 0, nc_family_ipv4)
addr_bytes (v6 octets) = (octets, nc_family_ipv6)

pub record NcFlow : Type 0 where
  pub a_addr : List ℕ
  pub b_addr : List ℕ
  pub a_port : ℕ
  pub b_port : ℕ
  pub proto : ℕ
  pub family : ℕ
  pub tcp_flags : ℕ
  pub reserved : ℕ
  pub packets_ab : ℕ
  pub packets_ba : ℕ
  pub bytes_ab : ℕ
  pub bytes_ba : ℕ
  pub first_seen_us : ℕ
  pub last_seen_us : ℕ

-- `NcFlow::new`
unfoldable pub nc_flow : FlowKey → FlowStats → NcFlow
unfolding addr_bytes
nc_flow key stats = record {
  a_addr = (addr_bytes key.a.addr).0;
  b_addr = (addr_bytes key.b.addr).0;
  a_port = key.a.port;
  b_port = key.b.port;
  proto = key.proto;
  family = (addr_bytes key.a.addr).1;
  tcp_flags = stats.tcp_flags;
  reserved = 0;
  packets_ab = stats.packets.ab;
  packets_ba = stats.packets.ba;
  bytes_ab = stats.bytes.ab;
  bytes_ba = stats.bytes.ba;
  first_seen_us = stats.first_seen_us;
  last_seen_us = stats.last_seen_us;
}

-- The text of an error: a literal, one with a name or a number put in, or one from elsewhere.
pub data ErrorText : Type 0 where
  literal : String → ErrorText
  named : String → String → ErrorText
  numbered : String → ℕ → ErrorText
  given : Text → ErrorText

pub record CoreError : Type 0 where
  pub status : NcStatus
  pub message : ErrorText
