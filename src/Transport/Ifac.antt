-- ===== src/Transport/Ifac.antt =====
-- Interface access codes: Transport.transmit, which signs and masks what an interface with an
-- access code sends, and the beginning of Transport.inbound, which unmasks and checks it.
pub mod Unmask
pub mod Codes
pub mod RoundTrip
