-- ===== src/Ffi/Cstr.antt =====
-- core-rs/core-ffi/src/types.rs: `write_cstr`, which writes a text into a fixed buffer for C, and the
-- records that it fills. A text is its UTF-8 bytes.
use netmon_polyglot.Net.{IpAddr}
use netmon_polyglot.Ffi.Types.{
  nc_message_len, nc_rule_id_len, nc_addr_len, severity_code, source_code, addr_bytes,
  nc_device_name_len,
}
use netmon_polyglot.Alert.{Alert, Message, Text}
use netmon_polyglot.Prelude.{
  length-replicate, Option, length-take, length-append, arith, ◌<◌, ◌≤◌, ◌≡◌, refl, ◌-◌, replicate,
  not, ◌++◌, take, ◌||◌, ltb, ◌&&◌, ◌==◌, length, min, get_elem?, leb, Bool, ℕ, List, ◌∷◌, false,
  true, some, none, suc, zero, [],
}

-- A byte that continues a character.
unfoldable pub is_continuation : ℕ → Bool
is_continuation b = leb 0x80 b && ltb b 0xc0

-- `str::is_char_boundary`
unfoldable pub is_char_boundary : List ℕ → ℕ → Bool
unfolding is_continuation
is_char_boundary s n = elim (get_elem? s n) [
  | none ↦ n == length s
  | some b ↦ n == 0 || not (is_continuation b)
]

-- The loop that goes back to a boundary; 0 always is one.
unfoldable pub boundary_before : List ℕ → ℕ → ℕ
boundary_before s zero = zero
boundary_before s (suc n) = elim (is_char_boundary s (suc n)) [
  | true ↦ suc n
  | false ↦ boundary_before s n
]

-- The buffer after the call.
unfoldable pub write_cstr : List ℕ → Text → List ℕ
unfolding boundary_before is_char_boundary
write_cstr [] s = []
write_cstr (d ∷ dst) s =
    let n = boundary_before s (min (length s) (length dst)) in
    take n s ++ replicate (suc (length dst) - n) 0

-- The longest prefix of the text that ends between characters and leaves room for the final zero, and
-- zeros behind it.
pub record Written (dst : List ℕ) (s : Text) (out : List ℕ) : Type 0 where
  pub count : ℕ
  pub contents : out ≡ take count s ++ replicate (length dst - count) 0
  pub whole : is_char_boundary s count ≡ true
  pub within : count ≤ length s
  pub terminated : count < length dst
  pub longest : (m : ℕ) → count < m → m ≤ length s → m < length dst → is_char_boundary s m ≡ false
  pub same_length : length out ≡ length dst

is_char_boundary_zero : (s : List ℕ) → is_char_boundary s 0 ≡ true
unfolding is_char_boundary
is_char_boundary_zero [] = refl
is_char_boundary_zero (b ∷ s) = refl

boundary_before_lem :
    (s : List ℕ) (n : ℕ)
    → n ≤ length s
    → (boundary_before s n ≤ n) × (is_char_boundary s (boundary_before s n) ≡ true)
unfolding boundary_before
boundary_before_lem s zero h = (omega arith, is_char_boundary_zero s)
boundary_before_lem s (suc n) h = ground (arith, boundary_before_lem s n)

boundary_before_longest :
    (s : List ℕ) (n m : ℕ) → boundary_before s n < m → m ≤ n → is_char_boundary s m ≡ false
unfolding boundary_before
boundary_before_longest s zero m h le = absurd (omega arith)
boundary_before_longest s (suc n) m h le = ground (arith, boundary_before_longest s n m)

-- What is written is the longest prefix of the text that ends between two characters and leaves room
-- for a zero, with zeros up to the end of the buffer, whose length stays.
pub write_cstr-Written :
    (dst : List ℕ) (s : Text) → 0 < length dst → Written dst s (write_cstr dst s)
unfolding write_cstr
write_cstr-Written [] s h = absurd (omega arith)
write_cstr-Written (d ∷ dst) s h =
    let most = min (length s) (length dst) in
    let found = boundary_before_lem s most (omega arith) in
    record {
      count = boundary_before s most;
      contents = refl;
      whole = found.1;
      within = omega (arith, found);
      terminated = omega (arith, found);
      longest = λ m more fits room. boundary_before_longest s most m more (omega arith);
      same_length = omega (
        arith,
        found,
        length-append (take (boundary_before s most) s)
            (replicate (suc (length dst) - boundary_before s most) 0),
        length-take (boundary_before s most) s,
        length-replicate {A = ℕ} (suc (length dst) - boundary_before s most) 0,
      );
    }

pub record NcDevice : Type 0 where
  pub name : List ℕ
  pub description : List ℕ
  pub flags : ℕ

-- `NcDevice::new`
unfoldable pub nc_device : Text → Text → ℕ → NcDevice
unfolding write_cstr
nc_device name description flags = record {
  name = write_cstr (replicate nc_device_name_len 0) name;
  description = write_cstr (replicate nc_device_name_len 0) description;
  flags = flags;
}

pub record NcAlert (F : Type 0) : Type 0 where
  pub ts_us : ℕ
  pub score : F
  pub severity : ℕ
  pub source : ℕ
  pub src_addr : List ℕ
  pub family : ℕ
  pub reserved : List ℕ
  pub rule_id : List ℕ
  pub message : List ℕ

-- The address and the family; zeros without an address.
unfoldable pub src_bytes : Option IpAddr → List ℕ × ℕ
unfolding addr_bytes
src_bytes none = (replicate nc_addr_len 0, 0)
src_bytes (some addr) = addr_bytes addr

-- `NcAlert::new`; `text_of` is what `format!` made of the message.
unfoldable pub nc_alert : {F : Type 0} → (Message F → Text) → Alert F → NcAlert F
unfolding write_cstr src_bytes source_code severity_code
nc_alert text_of alert = record {
  ts_us = alert.ts_us;
  score = alert.score;
  severity = severity_code alert.severity;
  source = source_code alert.source;
  src_addr = (src_bytes alert.src).0;
  family = (src_bytes alert.src).1;
  reserved = replicate 7 0;
  rule_id = write_cstr (replicate nc_rule_id_len 0) alert.rule_id;
  message = write_cstr (replicate nc_message_len 0) (text_of alert.message);
}
