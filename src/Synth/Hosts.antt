-- ===== src/Synth/Hosts.antt =====
-- core-rs/core/src/synth.rs: the constants of synthetic traffic, its hosts and its domains.
use netmon_polyglot.Prelude.{ℕ, List, [], ◌∷◌}
use netmon_polyglot.Alert.{Text}
use netmon_polyglot.Synth.{SocketAddr}

abbrev pub start_ts_us : ℕ
start_ts_us = 1_700_000_000_000_000

abbrev pub max_gap_us : ℕ
max_gap_us = 2_000

abbrev pub inject_every : ℕ
inject_every = 4

abbrev pub client_count : ℕ
client_count = 50

abbrev pub client_base : ℕ
client_base = 10

abbrev pub max_tcp_payload : ℕ
max_tcp_payload = 1_400

abbrev pub ephemeral_base : ℕ
ephemeral_base = 49_152

abbrev pub scan_first_port : ℕ
scan_first_port = 1

abbrev pub dns_type_a : ℕ
dns_type_a = 1

abbrev pub dns_type_txt : ℕ
dns_type_txt = 16

abbrev pub resolver : SocketAddr
resolver = record { ip = 10 ∷ 0 ∷ 0 ∷ 1 ∷ []; port = 53 }

abbrev pub scanner : List ℕ
scanner = 10 ∷ 0 ∷ 0 ∷ 66 ∷ []

abbrev pub scan_target : List ℕ
scan_target = 10 ∷ 0 ∷ 0 ∷ 5 ∷ []

abbrev pub tunnel_client : SocketAddr
tunnel_client = record { ip = 10 ∷ 0 ∷ 0 ∷ 77 ∷ []; port = 53_001 }

abbrev pub tunnel_label_len : ℕ
tunnel_label_len = 48

abbrev pub flood_net : ℕ
flood_net = 172

abbrev pub flood_target : SocketAddr
flood_target = record { ip = 10 ∷ 0 ∷ 0 ∷ 5 ∷ []; port = 80 }

-- `"abcdefghijklmnopqrstuvwxyz234567"`
abbrev pub base32 : Text
base32 =
    97 ∷ 98 ∷ 99 ∷ 100 ∷ 101 ∷ 102 ∷ 103 ∷ 104 ∷ 105 ∷ 106 ∷ 107 ∷ 108 ∷ 109 ∷ 110 ∷ 111 ∷ 112 ∷ 113
    ∷ 114 ∷ 115 ∷ 116 ∷ 117 ∷ 118 ∷ 119 ∷ 120 ∷ 121 ∷ 122 ∷ 50 ∷ 51 ∷ 52 ∷ 53 ∷ 54 ∷ 55 ∷ []

-- `"t.exfil-example.net"`
abbrev pub tunnel_domain : Text
tunnel_domain =
    116 ∷ 46 ∷ 101 ∷ 120 ∷ 102 ∷ 105 ∷ 108 ∷ 45 ∷ 101 ∷ 120 ∷ 97 ∷ 109 ∷ 112 ∷ 108 ∷ 101 ∷ 46 ∷ 110
    ∷ 101 ∷ 116 ∷ []

-- `"example.com"`
abbrev pub example_com : Text
example_com = 101 ∷ 120 ∷ 97 ∷ 109 ∷ 112 ∷ 108 ∷ 101 ∷ 46 ∷ 99 ∷ 111 ∷ 109 ∷ []

-- `"github.com"`
abbrev pub github_com : Text
github_com = 103 ∷ 105 ∷ 116 ∷ 104 ∷ 117 ∷ 98 ∷ 46 ∷ 99 ∷ 111 ∷ 109 ∷ []

-- `"api.github.com"`
abbrev pub api_github_com : Text
api_github_com = 97 ∷ 112 ∷ 105 ∷ 46 ∷ 103 ∷ 105 ∷ 116 ∷ 104 ∷ 117 ∷ 98 ∷ 46 ∷ 99 ∷ 111 ∷ 109 ∷ []

-- `"crates.io"`
abbrev pub crates_io : Text
crates_io = 99 ∷ 114 ∷ 97 ∷ 116 ∷ 101 ∷ 115 ∷ 46 ∷ 105 ∷ 111 ∷ []

-- `"nuget.org"`
abbrev pub nuget_org : Text
nuget_org = 110 ∷ 117 ∷ 103 ∷ 101 ∷ 116 ∷ 46 ∷ 111 ∷ 114 ∷ 103 ∷ []

abbrev pub domains : List Text
domains = example_com ∷ github_com ∷ api_github_com ∷ crates_io ∷ nuget_org ∷ []

abbrev pub servers : List SocketAddr
servers =
    record { ip = 93 ∷ 184 ∷ 216 ∷ 34 ∷ []; port = 443 }
    ∷ record { ip = 140 ∷ 82 ∷ 121 ∷ 4 ∷ []; port = 443 }
    ∷ record { ip = 151 ∷ 101 ∷ 1 ∷ 69 ∷ []; port = 80 }
    ∷ record { ip = 198 ∷ 51 ∷ 100 ∷ 7 ∷ []; port = 22 }
    ∷ []
