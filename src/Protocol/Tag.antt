-- ===== src/Protocol/Tag.antt =====
-- kssl.h: the tags of a message's items.
use keyless.Prelude.{ℕ}

abbrev pub digest : ℕ
digest = 0x01

abbrev pub sni : ℕ
sni = 0x02

abbrev pub client_ip : ℕ
client_ip = 0x03

abbrev pub ski : ℕ
ski = 0x04

abbrev pub opcode : ℕ
opcode = 0x11

abbrev pub payload : ℕ
payload = 0x12

abbrev pub padding : ℕ
padding = 0x20
