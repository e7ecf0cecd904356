-- ===== src/Framing/Kiss.antt =====
-- KISS in RNS/Interfaces/KISSInterface.py: process_outgoing with flow control, its queue, and the
-- read loop.
use reticulum.Prelude.{
  ℕ, ◌+◌, Bytes, length, List, [], ◌∷◌, ◌++◌, Bool, true, false, not, ◌&&◌, ltb, bit_and, ◌==◌,
  if◌then◌else◌,
}
use reticulum.Framing.{replace}

abbrev pub fend : ℕ
fend = 0xC0

abbrev pub fesc : ℕ
fesc = 0xDB

abbrev pub tfend : ℕ
tfend = 0xDC

abbrev pub tfesc : ℕ
tfesc = 0xDD

abbrev pub cmd_unknown : ℕ
cmd_unknown = 0xFE

abbrev pub cmd_data : ℕ
cmd_data = 0x00

abbrev pub cmd_ready : ℕ
cmd_ready = 0x0F

unfoldable pub escape : Bytes → Bytes
escape payload = replace fend (fesc ∷ tfend ∷ []) (replace fesc (fesc ∷ tfesc ∷ []) payload)

-- What `process_outgoing` writes to the port.
unfoldable pub frame : Bytes → Bytes
frame payload = fend ∷ cmd_data ∷ (escape payload ++ fend ∷ [])

-- The sending side. What was written to the port is kept, latest last.
pub record Sender : Type 0 where
  pub online : Bool
  pub interface_ready : Bool
  pub flow_control : Bool
  pub flow_control_locked : ℕ
  pub packet_queue : List Bytes
  pub written : List Bytes

-- Of a port that writes all it is given. The beacon's clock is left out.
unfoldable pub process_outgoing : ℕ → Bytes → Sender → Sender
process_outgoing now payload s =
    if s.online
    then if s.interface_ready
      then record s {
        interface_ready = not s.flow_control;
        flow_control_locked = if s.flow_control then now else s.flow_control_locked;
        written = s.written ++ frame payload ∷ [];
      }
      else record s { packet_queue = s.packet_queue ++ payload ∷ [] }
    else s

abbrev process_next : ℕ → List Bytes → Sender → Sender
process_next now [] s = record s { interface_ready = true }
process_next now (p ∷ ps) s =
    process_outgoing now p (record s { packet_queue = ps; interface_ready = true })

unfoldable pub process_queue : ℕ → Sender → Sender
unfolding process_outgoing
process_queue now s = process_next now s.packet_queue s

-- The loop's variables.
pub record Reader : Type 0 where
  pub in_frame : Bool
  pub escaped : Bool
  pub command : ℕ
  pub buffer : Bytes

abbrev pub start : Reader
start = record { in_frame = false; escaped = false; command = cmd_unknown; buffer = [] }

-- What a byte brings: a packet, a call of `process_queue`, or nothing.
pub data Outcome : Type 0 where
  nothing ready : Outcome
  packet : Bytes → Outcome

-- What an escaped byte stands for.
abbrev pub unmask : ℕ → ℕ
unmask byte = if byte == tfend then fend else if byte == tfesc then fesc else byte

unfoldable pub push : ℕ → Reader → Reader
push byte r = if byte == fesc then record r { escaped = true } else record r {
  escaped = false;
  buffer = r.buffer ++ (if r.escaped then unmask byte else byte) ∷ [];
}

-- A byte within a frame: the command, a byte of data, or one behind a READY command.
unfoldable pub read_inside : ℕ → Reader → Outcome × Reader
unfolding push
read_inside byte r =
    if (length r.buffer == 0) && (r.command == cmd_unknown)
    then (nothing, record r { command = bit_and byte 0x0F })
    else if r.command == cmd_data
    then (nothing, push byte r)
    else if r.command == cmd_ready
    then (ready, r)
    else (nothing, r)

unfoldable pub read_byte : ℕ → ℕ → Reader → Outcome × Reader
unfolding read_inside
read_byte hw_mtu byte r =
    if r.in_frame && (byte == fend && r.command == cmd_data)
    then (packet r.buffer, record r { in_frame = false })
    else if byte == fend
    then (nothing, record r { in_frame = true; command = cmd_unknown; buffer = [] })
    else if r.in_frame && ltb (length r.buffer) hw_mtu
    then read_inside byte r
    else (nothing, r)

-- A read that finds nothing, and the time since the last byte in milliseconds.
unfoldable pub idle : ℕ → ℕ → Reader → Reader
idle timeout since_last r = if ltb 0 (length r.buffer) && ltb timeout since_last then start else r

-- The time-out of flow control, in the loop's pause.
unfoldable pub unlock : ℕ → ℕ → Sender → Sender
unfolding process_queue
unlock timeout now s =
    if s.flow_control && (not s.interface_ready && ltb (s.flow_control_locked + timeout) now)
    then process_queue now s
    else s

-- The packets that a run of bytes delivers, and the variables after it.
abbrev pub keep : Outcome → List Bytes → List Bytes
keep (packet p) ps = p ∷ ps
keep ready ps = ps
keep nothing ps = ps

unfoldable pub read : ℕ → Bytes → Reader → List Bytes × Reader
read hw_mtu [] r = ([], r)
read hw_mtu (b ∷ bs) r =
    let (o, r') = read_byte hw_mtu b r in let (ps, r'') = read hw_mtu bs r' in (keep o ps, r'')
