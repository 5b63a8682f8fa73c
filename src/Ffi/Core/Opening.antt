-- ===== src/Ffi/Core/Opening.antt =====
-- core-rs/core-ffi/src/core.rs: what the library's opening of a handle gives.
use netmon_polyglot.Alert.{Text}
use netmon_polyglot.Prelude.Int.{ℤ, pos, negsuc}
use netmon_polyglot.Prelude.{
  ap, leb, Option-cases, ℕ, Bool-cases, Bool, ◌⊎◌, inr, inl, false, true, arith, ◌≡◌, refl, some,
}
use netmon_polyglot.Packet.Header.{LinkType, from_raw}
use netmon_polyglot.Ffi.Core
use netmon_polyglot.Ffi.Core.{ℕ, Text, Bool, ℤ, Option, NcCore}
use netmon_polyglot.Ffi.Sniffer
use netmon_polyglot.Ffi.Sniffer.{Opening, SnifferLib, Sniffer}
use netmon_polyglot.Ffi.Types.{CoreError}
use netmon_polyglot.Prelude.Outcome.{Returns, panic, diverge, ok, err, Outcome}

-- The numbers that the link types have in a capture.
abbrev pub HasNumber : LinkType → ℤ → Type 0
HasNumber LinkType.null z = z ≡ pos 0
HasNumber LinkType.ethernet z = z ≡ pos 1
HasNumber LinkType.raw z = (z ≡ pos 12) ⊎ ((z ≡ pos 14) ⊎ (z ≡ pos 101))

pub from_raw-HasNumber :
    (link : LinkType) (z : ℤ) → from_raw (Core.raw_link z) ≡ some link → HasNumber link z
unfolding from_raw Core.raw_link
from_raw-HasNumber LinkType.null (pos n) e = ground arith
from_raw-HasNumber LinkType.ethernet (pos n) e = ground arith
from_raw-HasNumber LinkType.raw (pos n) e =
    let number : (n ≡ 12) ⊎ ((n ≡ 14) ⊎ (n ≡ 101)) = ground arith in
    elim number [
      | inl a ↦ inl (ap pos a)
      | inr (inl b) ↦ inr (inl (ap pos b))
      | inr (inr c) ↦ inr (inr (ap pos c))
    ]
from_raw-HasNumber link (negsuc n) e = absurd cc

module _ (lib : SnifferLib) where
  open lib use {World, Handle}

  -- A capture that the library has opened: its handle, with no error, and not running yet.
  pub record IsOpened (o : Opening Handle) (s : Sniffer lib) : Type 0 where
    pub handle : o.raw ≡ some s.raw
    pub no_error : o.code ≡ pos 0
    pub idle : s.running ≡ false

  -- The call gives the capture that the library has opened, or an error.
  abbrev pub Opens : Opening Handle → Outcome CoreError (Sniffer lib) → Type 0
  Opens o (ok s) = IsOpened o s
  Opens o (err e) = Unit
  Opens o panic = ⊥
  Opens o diverge = ⊥

  pub check-Returns : (w : World) (s : Sniffer lib) (code : ℤ) → Returns (Sniffer.check w s code)
  unfolding Sniffer.check
  check-Returns w s code = ground arith

  is_zero-pos : (z : ℤ) → Sniffer.is_zero z ≡ true → z ≡ pos 0
  unfolding Sniffer.is_zero
  is_zero-pos (pos n) h = ground arith
  is_zero-pos (negsuc n) h = absurd cc

  opened-Opens : (o : Opening Handle) → Opens o (Sniffer.opened {lib = lib} o)
  unfolding Sniffer.opened
  opened-Opens o = elim (Option-cases o.raw) [
    | inl null ↦ rw (null, Sniffer.opened) tt
    | inr (raw, handle) ↦ elim (Bool-cases (Sniffer.is_zero o.code)) [
      | inl zero ↦
          rw (handle, Sniffer.opened, zero)
            (record { handle = refl; no_error = is_zero-pos o.code zero; idle = refl })
      | inr other ↦ rw (handle, Sniffer.opened, other) tt
    ]
  ]

  pub open_live-Opens :
      (w : World) (iface : Text) (n : ℕ) (p : Bool)
      → Opens (lib.open_live w iface n p).1 (Sniffer.open_live {lib = lib} w iface n p).1
  unfolding Sniffer.open_live Sniffer.c_string
  open_live-Opens w iface n p = elim (Bool-cases (Sniffer.has_nul iface)) [
    | inl nul ↦ rw (nul, Sniffer.open_live) tt
    | inr clean ↦ elim (Bool-cases (leb n Sniffer.c_int_max)) [
      | inl small ↦
          rw (clean, Sniffer.open_live, small) (opened-Opens (lib.open_live w iface n p).1)
      | inr large ↦ rw (clean, Sniffer.open_live, large) tt
    ]
  ]

  pub open_file-Opens :
      (w : World) (path : Text)
      → Opens (lib.open_file w path).1 (Sniffer.open_file {lib = lib} w path).1
  unfolding Sniffer.open_file Sniffer.c_string
  open_file-Opens w path = elim (Bool-cases (Sniffer.has_nul path)) [
    | inl nul ↦ rw (nul, Sniffer.open_file) tt
    | inr clean ↦ rw (clean, Sniffer.open_file) (opened-Opens (lib.open_file w path).1)
  ]

  paced-Opens :
      (b : Bool) (w : World) (s : Sniffer lib) (o : Opening Handle)
      → IsOpened o s
      → Opens o (Core.with_realtime b (w, ok s)).1
  unfolding Core.with_realtime Sniffer.set_realtime Sniffer.check
  paced-Opens b w s o h = elim (Bool-cases (Sniffer.is_zero (lib.set_realtime w s.raw b).1)) [
    | inl set ↦ rw (set, Core.with_realtime) h
    | inr not_set ↦ rw (not_set, Core.with_realtime) tt
  ]

  pub with_realtime-Opens :
      (b : Bool) (r : World × Outcome CoreError (Sniffer lib)) (o : Opening Handle)
      → Opens o r.1
      → Opens o (Core.with_realtime b r).1
  unfolding Core.with_realtime
  with_realtime-Opens b (w, ok s) o h = paced-Opens b w s o h
  with_realtime-Opens b (w, err e) o h = tt
  with_realtime-Opens b (w, panic) o h = h
  with_realtime-Opens b (w, diverge) o h = h
