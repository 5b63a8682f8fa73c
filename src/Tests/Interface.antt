-- ===== src/Tests/Interface.antt =====
-- The theorems on the C interface at a core without a capture, with a library that counts its open
-- handles.
use netmon_polyglot.Alert.{Alert}
use netmon_polyglot.Engine
use netmon_polyglot.Ffi.Api.Calls
use netmon_polyglot.Ffi.Api.Codes
use netmon_polyglot.Ffi.Core
use netmon_polyglot.Ffi.Core.{NcCore}
use netmon_polyglot.Ffi.Core.Capturing
use netmon_polyglot.Ffi.Core.Capturing.Owning
use netmon_polyglot.Ffi.Core.Installing
use netmon_polyglot.Ffi.Cstr
use netmon_polyglot.Ffi.Shared
use netmon_polyglot.Ffi.Shared.Queue
use netmon_polyglot.Ffi.Shared.Queue.Delivery
use netmon_polyglot.Ffi.Sniffer
use netmon_polyglot.Ffi.Sniffer.{SnifferLib}
use netmon_polyglot.Ffi.Types
use netmon_polyglot.Prelude.Int.{pos}
use netmon_polyglot.Prelude.{List, ℕ, ◌∷◌, [], true, false, some, none, refl, ◌+◌, ◌-◌, arith}
use netmon_polyglot.Tests.Data.{wholes, flow_cache, source_cache, ethernet_frame}

-- Every open call succeeds, on Ethernet, and nothing fails.
abbrev counter : SnifferLib
counter = record {
  World = ℕ;
  list_devices =
      λ w devices. (w, record { code = pos 0; total = 0; devices = devices; errbuf = [] });
  Handle = Unit {0};
  open_live = λ w name n p. (w + 1, record { code = pos 0; raw = some tt; errbuf = [] });
  open_file = λ w name. (w + 1, record { code = pos 0; raw = some tt; errbuf = [] });
  set_callback = λ w h. (w, pos 0);
  set_realtime = λ w h b. (w, pos 0);
  start = λ w h. (w, pos 0);
  stop = λ w h. (w, pos 0);
  poll_finished = λ w h. (w, pos 0, pos 0);
  link_type = λ w h. pos 1;
  get_stats = λ w h. (w, pos 0, 0, 0);
  last_error = λ w h. [];
  close = λ w h. w - 1;
  lossy = λ bytes. bytes;
}

counting : Capturing.Counting counter
unfolding Sniffer.is_zero
counting = record {
  live = λ w. w;
  live-open_live = λ w name n p. refl;
  live-open_file = λ w name. refl;
  code_live = λ w name n p h eq. refl;
  code_file = λ w name h eq. refl;
  live-close = λ w h some_live. omega (arith, some_live);
  live-set_callback = λ w h. refl;
  live-set_realtime = λ w h b. refl;
  live-start = λ w h. refl;
  live-stop = λ w h. refl;
  live-poll_finished = λ w h. refl;
  live-get_stats = λ w h. refl;
}

abbrev core : NcCore wholes flow_cache source_cache counter
core = record {
  analytics = none;
  capture = none;
  shared = Shared.new_shared (Engine.new wholes flow_cache source_cache Engine.default_config);
  config = Engine.default_config;
  snaplen = 65_535;
  rule_specs = [];
  last_error = Types.literal "";
}

abbrev calls : List Capturing.Call
calls =
    Capturing.open_file (97 ∷ []) true
    ∷ Capturing.start
    ∷ Capturing.open_live (98 ∷ []) false
    ∷ Capturing.stop
    ∷ Capturing.open_live (98 ∷ []) false
    ∷ Capturing.destroy
    ∷ []

do_calls-IsOwned_example : Capturing.IsOwned counting (Capturing.do_calls counting (0, core) calls)
unfolding counting
do_calls-IsOwned_example = Owning.do_calls-IsOwned counting (0, core) calls refl

opens-Installs_example :
    Installing.Installs 0 core
      (counter.open_live 0 (98 ∷ []) core.snaplen true).1
      (Sniffer.open_live {lib = counter} 0 (98 ∷ []) core.snaplen true)
      (Core.open_live 0 core (98 ∷ []) true)
    × Installing.Installs 0 core
        (counter.open_file 0 (98 ∷ [])).1
        (Core.with_realtime true (Sniffer.open_file {lib = counter} 0 (98 ∷ [])))
        (Core.open_file 0 core (98 ∷ []) true)
unfolding Sniffer.close
opens-Installs_example = Installing.opens-Installs 0 core (98 ∷ []) true

core_feed_packet-Feeds_example :
    Codes.Feeds 0 core
      (some ethernet_frame)
      54
      (Calls.core_feed_packet 0 (some core) 5 (some ethernet_frame) 54 54)
unfolding Shared.new_shared Engine.new
core_feed_packet-Feeds_example =
    Codes.core_feed_packet-Feeds 0 core 5 (some ethernet_frame) 54 54 (omega arith)

-- A frame arrives, and the queue is polled.
abbrev uses : List (Queue.Use (Alert ℕ))
uses = Queue.arrive 5 54 ethernet_frame ∷ Queue.pop ∷ []

uses_logged_example : Queue.IsUsed (
    Queue.uses
      (Shared.new_shared (Engine.new wholes flow_cache source_cache Engine.default_config))
      []
      []
      uses)
uses_logged_example =
    Delivery.uses_logged (Engine.new wholes flow_cache source_cache Engine.default_config) uses

-- "é" after "a" does not fit into three bytes with a zero.
write_cstr-Written_example :
    Cstr.Written
      (1 ∷ 1 ∷ 1 ∷ [])
      (97 ∷ 0xc3 ∷ 0xa9 ∷ [])
      (Cstr.write_cstr (1 ∷ 1 ∷ 1 ∷ []) (97 ∷ 0xc3 ∷ 0xa9 ∷ []))
write_cstr-Written_example =
    Cstr.write_cstr-Written (1 ∷ 1 ∷ 1 ∷ []) (97 ∷ 0xc3 ∷ 0xa9 ∷ []) (omega arith)
