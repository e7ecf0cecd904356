-- ===== src/Framing.antt =====
-- The byte framing of the serial interfaces: HDLC in RNS/Interfaces/SerialInterface.py and KISS in
-- RNS/Interfaces/KISSInterface.py. A read loop is a step function on the variables of its loop;
-- a byte that arrives and a pause on the line are its two inputs.
pub mod Hdlc
pub mod HdlcRoundTrip
pub mod Kiss
pub mod KissRoundTrip
mod Tests
use reticulum.Prelude.{ℕ, Bytes, [], ◌∷◌, ◌++◌, ◌==◌, if◌then◌else◌}

-- `data.replace(bytes([b]), by)`
unfoldable pub replace : ℕ → Bytes → Bytes → Bytes
replace b by [] = []
replace b by (x ∷ xs) = let rest = replace b by xs in if x == b then by ++ rest else x ∷ rest
