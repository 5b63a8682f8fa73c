-- ===== src/Ffi/Sniffer.antt =====
-- core-rs/core-ffi/src/sniffer.rs: the handle of a capture. The library behind it is written in C and is
-- an interface here: each call takes the state of the world and gives the next.
use netmon_polyglot.Prelude.Int.{negsuc, pos, ℤ}
use netmon_polyglot.Prelude.Outcome.{◌>>◌, ok, err, Outcome}
use netmon_polyglot.Prelude.{
  take, map, replicate, leb, ◌+◌, ◌||◌, ◌==◌, if◌then◌else◌, Bool, String, ℕ, List, Option, ◌∷◌,
  false, true, some, none, [],
}
use netmon_polyglot.Ffi.Types.{NcStatus, CoreError, ErrorText, literal, named, given}
use netmon_polyglot.Alert.{Text}
use netmon_polyglot.Prelude.Outcome.{panic, diverge}

abbrev pub errbuf_len : ℕ
errbuf_len = 256

-- The largest `c_int`.
abbrev pub c_int_max : ℕ
c_int_max = 0x7fff_ffff

unfoldable pub map_status : ℤ → NcStatus
map_status (pos n) = NcStatus.capture
map_status (negsuc n) =
    if n == 0
    then NcStatus.invalid_arg
    else if n == 1
    then NcStatus.no_library
    else if n == 3
    then NcStatus.permission
    else if n == 4
    then NcStatus.state
    else if n == 6
    then NcStatus.io
    else if n == 7
    then NcStatus.format
    else NcStatus.capture

unfoldable pub is_zero : ℤ → Bool
is_zero (pos n) = n == 0
is_zero (negsuc n) = false

-- `take_while(|&&c| c != 0)`
unfoldable pub before_nul : List ℕ → List ℕ
before_nul [] = []
before_nul (b ∷ buf) = let rest = before_nul buf in if b == 0 then [] else b ∷ rest

unfoldable pub has_nul : Text → Bool
has_nul [] = false
has_nul (b ∷ text) = b == 0 || has_nul text

-- `CString::new`
unfoldable pub c_string : Text → String → Outcome CoreError Text
unfolding has_nul
c_string value what =
    if has_nul value
    then err (record { status = NcStatus.invalid_arg; message = named what " contains a NUL byte" })
    else ok value

-- What an open call gives: its code, the handle if it is not null, and the buffer of the error.
pub record Opening (H : Type 0) : Type 0 where
  pub code : ℤ
  pub raw : Option H
  pub errbuf : List ℕ

pub record DeviceInfo : Type 0 where
  pub name : Text
  pub description : Text
  pub flags : ℕ

-- A device in the buffer of the library; its texts end at the first zero.
pub record Device : Type 0 where
  pub name : List ℕ
  pub description : List ℕ
  pub flags : ℕ

-- The code, the number of devices there are, the buffer of devices, and that of the error.
pub record Listing : Type 0 where
  pub code : ℤ
  pub total : ℕ
  pub devices : List Device
  pub errbuf : List ℕ

pub record SnifferLib : Type 1 where
  pub World : Type 0
  pub list_devices : World → List Device → World × Listing
  pub Handle : Type 0
  pub open_live : World → Text → ℕ → Bool → World × Opening Handle
  pub open_file : World → Text → World × Opening Handle
  pub set_callback : World → Handle → World × ℤ
  pub set_realtime : World → Handle → Bool → World × ℤ
  pub start : World → Handle → World × ℤ
  pub stop : World → Handle → World × ℤ
  -- Whether the capture is done, 1 if it is, and its status.
  pub poll_finished : World → Handle → World × ℤ × ℤ
  pub link_type : World → Handle → ℤ
  -- The code, and the packets that the library and the interface dropped.
  pub get_stats : World → Handle → World × ℤ × ℕ × ℕ
  pub last_error : World → Handle → List ℕ
  pub close : World → Handle → World
  -- `String::from_utf8_lossy`
  pub lossy : List ℕ → Text

unfoldable pub errbuf_message : (List ℕ → Text) → List ℕ → ErrorText
unfolding before_nul
errbuf_message lossy buf = given (lossy (before_nul buf))

abbrev no_device : Device
no_device = record { name = replicate 256 0; description = replicate 256 0; flags = 0 }

unfoldable pub device_info : (List ℕ → Text) → Device → DeviceInfo
unfolding before_nul
device_info lossy d = record {
  name = lossy (before_nul d.name);
  description = lossy (before_nul d.description);
  flags = d.flags;
}

module _ (lib : SnifferLib) where
  open lib use {World, Handle}

  pub record Sniffer : Type 0 where
    pub raw : Handle
    pub running : Bool

module _ {lib : SnifferLib} where
  open lib use {World, Handle}

  unfoldable pub opened : Opening Handle → Outcome CoreError (Sniffer lib)
  unfolding map_status is_zero errbuf_message
  opened o = elim o.raw [
    | none ↦
        err (record { status = map_status o.code; message = errbuf_message lib.lossy o.errbuf })
    | some raw ↦
        if is_zero o.code
        then ok (record { raw = raw; running = false })
        else err
            (record { status = map_status o.code; message = errbuf_message lib.lossy o.errbuf })
  ]

  unfoldable pub check : World → Sniffer lib → ℤ → Outcome CoreError (Unit {0})
  unfolding map_status is_zero
  check w s code =
      if is_zero code
      then ok tt
      else err (record {
        status = map_status code;
        message = given (lib.lossy (lib.last_error w s.raw));
      })

  unfoldable pub open_live : World → Text → ℕ → Bool → World × Outcome CoreError (Sniffer lib)
  unfolding c_string opened
  open_live w iface snaplen promisc = elim (c_string iface "interface name") [
    | ok name ↦
        if leb snaplen c_int_max
        then (let (w', o) = lib.open_live w name snaplen promisc in (w', opened o))
        else (
          w,
          err (record { status = NcStatus.invalid_arg; message = literal "snaplen too large" }),
        )
    | err e ↦ (w, err e)
    | panic ↦ (w, panic)
    | diverge ↦ (w, diverge)
  ]

  unfoldable pub open_file : World → Text → World × Outcome CoreError (Sniffer lib)
  unfolding c_string opened
  open_file w path = elim (c_string path "path") [
    | ok name ↦ let (w', o) = lib.open_file w name in (w', opened o)
    | err e ↦ (w, err e)
    | panic ↦ (w, panic)
    | diverge ↦ (w, diverge)
  ]

  unfoldable pub set_callback : World → Sniffer lib → World × Outcome CoreError (Unit {0})
  unfolding check
  set_callback w s = let (w', code) = lib.set_callback w s.raw in (w', check w' s code)

  unfoldable pub set_realtime : World → Sniffer lib → Bool → World × Outcome CoreError (Unit {0})
  unfolding check
  set_realtime w s enabled =
      let (w', code) = lib.set_realtime w s.raw enabled in (w', check w' s code)

  -- The capture runs only if the library has started it.
  unfoldable pub start : World → Sniffer lib → World × Sniffer lib × Outcome CoreError (Unit {0})
  unfolding check is_zero
  start w s =
      let (w', code) = lib.start w s.raw in
      (w', (if is_zero code then record s { running = true } else s), check w' s code)

  -- The capture no longer runs, whatever the library says.
  unfoldable pub stop : World → Sniffer lib → World × Sniffer lib × Outcome CoreError (Unit {0})
  unfolding check
  stop w s =
      let (w', code) = lib.stop w s.raw in (w', record s { running = false }, check w' s code)

  unfoldable pub finished : World → Sniffer lib → World × Option (Outcome CoreError (Unit {0}))
  unfolding check
  finished w s =
      let (w', done, status) = lib.poll_finished w s.raw in
      (
        w',
        elim done [ pos n ↦ if n == 1 then some (check w' s status) else none | negsuc n ↦ none ],
      )

  -- `CaptureStats.dropped`
  unfoldable pub stats : World → Sniffer lib → World × Outcome CoreError ℕ
  unfolding check
  stats w s =
      let (w', code, dropped, if_dropped) = lib.get_stats w s.raw in
      (w', check w' s code >> ok (dropped + if_dropped))

  -- `drop`
  unfoldable pub close : World → Option (Sniffer lib) → World
  close w none = w
  close w (some s) = lib.close w s.raw

module _ (lib : SnifferLib) where
  open lib use {World}

  -- The first call asks how many there are, the second fills a buffer of that length; there may be
  -- fewer then, or more.
  unfoldable pub list_devices : World → World × Outcome CoreError (List DeviceInfo)
  unfolding errbuf_message map_status is_zero device_info
  list_devices w =
      let (w', l) = lib.list_devices w [] in
      if is_zero l.code
      then (let (w'', m) = lib.list_devices w' (replicate l.total no_device) in
          if is_zero m.code
          then (w'', ok (map (device_info lib.lossy) (take m.total m.devices)))
          else (
            w'',
            err (record {
              status = map_status m.code;
              message = errbuf_message lib.lossy m.errbuf;
            }),
          ))
      else (
        w',
        err (record { status = map_status l.code; message = errbuf_message lib.lossy l.errbuf }),
      )
