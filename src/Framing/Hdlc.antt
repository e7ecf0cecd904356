-- ===== src/Framing/Hdlc.antt =====
-- HDLC.escape, and SerialInterface.process_outgoing and readLoop.
use reticulum.Prelude.{
  ℕ, Bytes, length, List, [], ◌∷◌, ◌++◌, Bool, true, false, ◌&&◌, Option, none, some, ltb, ◌==◌,
  if◌then◌else◌,
}
use reticulum.Framing.{replace}

abbrev pub flag : ℕ
flag = 0x7E

abbrev pub esc : ℕ
esc = 0x7D

-- HDLC.FLAG ^ HDLC.ESC_MASK and HDLC.ESC ^ HDLC.ESC_MASK
abbrev pub flag_masked : ℕ
flag_masked = 0x5E

abbrev pub esc_masked : ℕ
esc_masked = 0x5D

unfoldable pub escape : Bytes → Bytes
escape payload = replace flag (esc ∷ flag_masked ∷ []) (replace esc (esc ∷ esc_masked ∷ []) payload)

-- What `process_outgoing` writes to the port.
unfoldable pub frame : Bytes → Bytes
frame payload = flag ∷ (escape payload ++ flag ∷ [])

-- The loop's variables.
pub record Reader : Type 0 where
  pub in_frame : Bool
  pub escaped : Bool
  pub buffer : Bytes

abbrev pub start : Reader
start = record { in_frame = false; escaped = false; buffer = [] }

-- What an escaped byte stands for.
abbrev pub unmask : ℕ → ℕ
unmask byte = if byte == flag_masked then flag else if byte == esc_masked then esc else byte

unfoldable pub push : ℕ → Reader → Reader
push byte r = if byte == esc then record r { escaped = true } else record r {
  escaped = false;
  buffer = r.buffer ++ (if r.escaped then unmask byte else byte) ∷ [];
}

-- One byte: the packet that it completes, if it does, and the variables after it.
unfoldable pub read_byte : ℕ → ℕ → Reader → Option Bytes × Reader
unfolding push
read_byte hw_mtu byte r =
    if r.in_frame && byte == flag
    then (some r.buffer, record r { in_frame = false })
    else if byte == flag
    then (none, record r { in_frame = true; buffer = [] })
    else if r.in_frame && ltb (length r.buffer) hw_mtu
    then (none, push byte r)
    else (none, r)

-- A read that finds nothing, and the time since the last byte in milliseconds.
unfoldable pub idle : ℕ → ℕ → Reader → Reader
idle timeout since_last r = if ltb 0 (length r.buffer) && ltb timeout since_last then start else r

abbrev pub keep : Option Bytes → List Bytes → List Bytes
keep none ps = ps
keep (some p) ps = p ∷ ps

-- The packets that a run of bytes delivers, and the variables after it.
unfoldable pub read : ℕ → Bytes → Reader → List Bytes × Reader
read hw_mtu [] r = ([], r)
read hw_mtu (b ∷ bs) r =
    let (p, r') = read_byte hw_mtu b r in let (ps, r'') = read hw_mtu bs r' in (keep p ps, r'')
